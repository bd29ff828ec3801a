-- ===== src/Zk/Roles.antt =====
-- The roles of the servers that use source/zk-private.c at the same time.
use mathlib.Core.Path.{subst}
use sdistr2020_group.Prelude.{
  ℕ, ◌≡◌, ◌≢◌, refl, sym, ap, ◌∙◌, true, false, none, some, ◌==◌, inl, inr, if◌then◌else◌, arith,
  Bool-cases,
}
use sdistr2020_group.Entry.{Str}
use sdistr2020_group.Skel.{ServerRole}
use sdistr2020_group.Zk.{
  ZnodePath, root_path, primary_path, backup_path, Zookeeper, Program, zk_close,
  zk_get_primary_tree_server, zk_get_backup_tree_server,
}
use sdistr2020_group.Zk.Rules.{own, IsZookeeper, without}
use sdistr2020_group.Zk.Members.{Member, Group, Step, Reach, started, with_member}
use sdistr2020_group.Zk.Ownership.{Fits, Known, knows, IsCareful}
use sdistr2020_group.Zk.Careful.{register-IsCareful, connect-IsCareful, watcher-IsCareful}
use sdistr2020_group.Zk.Calls.{Holds, Sound, advance-Sound, advance-keeps, own_apart}

module _ {Z : Type 0} (zk : Zookeeper Z) (rules : IsZookeeper zk) (address : ℕ → Str) where
  -- What holds of a member that runs.
  abbrev IsSound : Z → ℕ → Member → Type 0
  IsSound z i m = m.is_alive ≡ true → Sound zk rules z i (address i) m.role m.rest

  abbrev AllSound : Group Z → Type 0
  AllSound s = (i : ℕ) → IsSound s.zookeeper i (s.member i)

  with_member-Sound :
      (z : Z) (f : ℕ → Member) (i : ℕ) (m : Member)
      → IsSound z i m
      → ((j : ℕ) → j ≢ i → IsSound z j (f j))
      → (j : ℕ) → IsSound z j (with_member f i m j)
  with_member-Sound z f i m own_case others j = elim (Bool-cases (j == i)) [
    | inl same ↦
        let e : i ≡ j = ground (arith, same) in
        subst (λ b. IsSound z j (if b then m else f j)) (sym same)
          (subst (λ k. IsSound z k m) e own_case)
    | inr apart ↦
        subst (λ b. IsSound z j (if b then m else f j)) (sym apart)
          (others j (λ e. ground (arith, apart, e)))
  ]

  -- A member stays sound while its znodes stay.
  kept-Sound :
      (z z' : Z) (j : ℕ) (m : Member)
      → ((path : ZnodePath)
          → rules.znode z path ≡ some (own j (address j))
          → rules.znode z' path ≡ some (own j (address j)))
      → IsSound z j m
      → IsSound z' j m
  kept-Sound z z' j m keeps h alive =
      let s = h alive in
      record {
        known = s.known;
        holds = λ path k. keeps path (s.holds path k);
        fits = s.fits;
        careful = s.careful;
      }

  -- A member that enters a function.
  enter-Sound :
      (z : Z) (i : ℕ) (m : Member) (rest : Program)
      → m.is_alive ≡ true
      → IsSound z i m
      → ((known : Known) → Fits known m.role → IsCareful (address i) known m.role rest)
      → IsSound z i (record { is_alive = true; role = m.role; rest = rest })
  enter-Sound z i m rest alive h careful _ =
      let s = h alive in
      record { known = s.known; holds = s.holds; fits = s.fits; careful = careful s.known s.fits }

  close-keeps :
      (z : Z) (i j : ℕ) (path : ZnodePath)
      → j ≢ i
      → rules.znode z path ≡ some (own j (address j))
      → rules.znode (zk_close zk z i).0 path ≡ some (own j (address j))
  unfolding zk_close
  close-keeps z i j path n h =
      rules.close_removes z i path
      ∙ ap (without i) h
      ∙ (let apart : (j == i) ≡ false = ground (arith, n) in rw apart refl)

  Step-AllSound : (s s' : Group Z) → Step zk rules address s s' → AllSound s → AllSound s'
  Step-AllSound s _ (Step.call i alive) h =
      with_member-Sound _ s.member i _
        (λ _. advance-Sound zk rules s.zookeeper i (address i) _ _ (h i alive))
        (λ j n.
          kept-Sound s.zookeeper _ j (s.member j)
            (λ path.
              advance-keeps zk rules s.zookeeper i j (address i) (address j) _ _ path (h i alive) n)
            (h j))
  Step-AllSound s _ (Step.connect i result hh ic f alive idle) h =
      with_member-Sound s.zookeeper s.member i _
        (enter-Sound s.zookeeper i (s.member i) _ alive (h i)
          (λ known fits. connect-IsCareful (address i) known (s.member i).role hh ic f))
        (λ j n. h j)
  Step-AllSound s _ (Step.register i result alive idle free) h =
      with_member-Sound s.zookeeper s.member i _
        (enter-Sound s.zookeeper i (s.member i) _ alive (h i)
          (λ known fits. register-IsCareful (address i) known (s.member i).role))
        (λ j n. h j)
  Step-AllSound s _ (Step.notify i result c st f l alive idle) h =
      with_member-Sound s.zookeeper s.member i _
        (enter-Sound s.zookeeper i (s.member i) _ alive (h i)
          (λ known fits. watcher-IsCareful (address i) known (s.member i).role c st f l fits))
        (λ j n. h j)
  Step-AllSound s _ (Step.close i) h =
      with_member-Sound _ s.member i _ (λ dead. absurd (ground (arith, dead)))
        (λ j n.
          kept-Sound s.zookeeper _ j (s.member j) (λ path. close-keeps s.zookeeper i j path n)
            (h j))
  Step-AllSound s _ (Step.outage z same) h =
      λ j. kept-Sound s.zookeeper z j (s.member j) (λ path k. same path ∙ k) (h j)

  started-Sound : (z : Z) (i : ℕ) → IsSound z i started
  started-Sound z i alive = record {
    known = record { has_primary = false; has_backup = false };
    holds = λ path k. absurd (nothing path k);
    fits = tt;
    careful = tt;
  }
    where
      nothing :
          (path : ZnodePath)
          → knows (record { has_primary = false; has_backup = false }) path ≡ true
          → ⊥
      nothing root_path k = ground (arith, k)
      nothing primary_path k = ground (arith, k)
      nothing backup_path k = ground (arith, k)

  Reach-AllSound : (z : Z) (s : Group Z) → Reach zk rules address z s → AllSound s
  Reach-AllSound z _ Reach.start = started-Sound z
  Reach-AllSound z _ (Reach.extended s s' r step) = Step-AllSound s s' step (Reach-AllSound z s r)

  -- A server in a role owns the znode of the role, which holds its address.
  abbrev pub OwnsRole : Z → ℕ → ServerRole → Type 0
  OwnsRole z i ServerRole.primary = rules.znode z primary_path ≡ some (own i (address i))
  OwnsRole z i ServerRole.backup = rules.znode z backup_path ≡ some (own i (address i))
  OwnsRole z i ServerRole.unset = Unit

  sound_owns :
      (z : Z) (i : ℕ) (role : ServerRole) (known : Known)
      → Holds zk rules z i (address i) known
      → Fits known role
      → OwnsRole z i role
  sound_owns z i ServerRole.primary known h f = h primary_path f
  sound_owns z i ServerRole.backup known h f = h backup_path f
  sound_owns z i ServerRole.unset known h f = tt

  -- However the calls of the servers come between one another, with failures, ends of servers and
  -- events at any time, and whatever znodes there were at the start: a running server that has the
  -- role of the primary or of the backup server owns the znode of its role, with its address. The
  -- session of a server ends only with the server.
  pub role_registered :
      (z : Z) (s : Group Z) (i : ℕ)
      → Reach zk rules address z s
      → (s.member i).is_alive ≡ true
      → OwnsRole s.zookeeper i (s.member i).role
  role_registered z s i r alive =
      let sound = Reach-AllSound z s r i alive in
      sound_owns s.zookeeper i (s.member i).role sound.known sound.holds sound.fits

  role_once :
      (z : Z) (i j : ℕ) (role : ServerRole)
      → role ≢ ServerRole.unset
      → OwnsRole z i role
      → OwnsRole z j role
      → i ≡ j
  role_once z i j ServerRole.primary n h k = own_apart i j (address i) (address j) (sym h ∙ k)
  role_once z i j ServerRole.backup n h k = own_apart i j (address i) (address j) (sym h ∙ k)
  role_once z i j ServerRole.unset n h k = absurd (n refl)

  -- No two running servers have the role of the primary server at once, nor that of the backup
  -- server, however the calls of the servers come between one another. The session of a server ends
  -- only with the server.
  pub roles_unique :
      (z : Z) (s : Group Z) (i j : ℕ) (role : ServerRole)
      → Reach zk rules address z s
      → (s.member i).is_alive ≡ true
      → (s.member j).is_alive ≡ true
      → role ≢ ServerRole.unset
      → (s.member i).role ≡ role
      → (s.member j).role ≡ role
      → i ≡ j
  roles_unique z s i j role r alive alive' n e e' =
      role_once s.zookeeper i j role n
        (subst (OwnsRole s.zookeeper i) e (role_registered z s i r alive))
        (subst (OwnsRole s.zookeeper j) e' (role_registered z s j r alive'))

  same_text : (text text' : Str) → some text ≡ some text' → text' ≡ text
  same_text text text' e = ap (λ o. elim o [ none ↦ text | some t ↦ t ]) (sym e)

  -- While one running server has the role of the primary server and another one that of the backup
  -- server, the two addresses that a client finds are theirs, however the calls of the servers come
  -- between one another. The session of a server ends only with the server.
  pub addresses_found :
      (z : Z) (s : Group Z) (i j : ℕ) (found found' : Str)
      → Reach zk rules address z s
      → (s.member i).is_alive ≡ true
      → (s.member j).is_alive ≡ true
      → (s.member i).role ≡ ServerRole.primary
      → (s.member j).role ≡ ServerRole.backup
      → zk_get_primary_tree_server zk s.zookeeper ≡ some found
      → zk_get_backup_tree_server zk s.zookeeper ≡ some found'
      → (found ≡ address i) × (found' ≡ address j)
  unfolding zk_get_primary_tree_server zk_get_backup_tree_server
  addresses_found z s i j found found' r alive alive' e e' g g' = (
    same_text (address i) found (
        rules.get_reads s.zookeeper primary_path _ found g
          (subst (OwnsRole s.zookeeper i) e (role_registered z s i r alive))),
    same_text (address j) found' (
        rules.get_reads s.zookeeper backup_path _ found' g'
          (subst (OwnsRole s.zookeeper j) e' (role_registered z s j r alive'))),
  )
