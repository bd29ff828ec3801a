-- ===== src/Zk/Calls.antt =====
-- One call of a server of source/zk-private.c, on the znodes of all servers.
use mathlib.Core.Path.{subst}
use sdistr2020_group.Prelude.{
  ℕ, ◌≡◌, ◌≢◌, ◌⊎◌, inl, inr, refl, sym, ap, ◌∙◌, Bool, true, false, Option, none, some, eqb_ℤ,
  Bool-cases, arith,
}
use sdistr2020_group.Entry.{Str}
use sdistr2020_group.Skel.{ServerRole}
use sdistr2020_group.Zk.{
  ZnodePath, root_path, primary_path, backup_path, zok, Zookeeper, Program, exists, create, get,
  delete, set_role, returns, undefined, advance,
}
use sdistr2020_group.Zk.Rules.{Znode, created, own, IsZookeeper}
use sdistr2020_group.Zk.Ownership.{Known, knows, learn, learn_if, Fits, Creates, MayRead, IsCareful}

znode_path-discrete : Discrete ZnodePath
znode_path-discrete = hlevel

path-cases : (p q : ZnodePath) → (p ≡ q) ⊎ (p ≢ q)
path-cases p q = elim (znode_path-discrete p q) [ yes e ↦ inl e | no n ↦ inr n ]

pub own_apart : (i j : ℕ) (a b : Str) → some (own i a) ≡ some (own j b) → i ≡ j
own_apart i j a b e =
    ap (λ o. elim o [ none ↦ 0 | some z ↦ elim z.owner [ none ↦ 0 | some n ↦ n ] ]) e

taken : {o : Option Znode} {z : Znode} → o ≡ none → o ≡ some z → ⊥
taken e h = ground (arith, sym e ∙ h)

learn-Fits :
    (known : Known) (path : ZnodePath) (b : Bool) (role : ServerRole)
    → Fits known role
    → Fits (learn_if b known path) role
learn-Fits known path false role h = h
learn-Fits known root_path true role h = h
learn-Fits known primary_path true ServerRole.primary h = refl
learn-Fits known primary_path true ServerRole.backup h = h
learn-Fits known primary_path true ServerRole.unset h = tt
learn-Fits known backup_path true ServerRole.primary h = h
learn-Fits known backup_path true ServerRole.backup h = refl
learn-Fits known backup_path true ServerRole.unset h = tt

knows-learn_other :
    (known : Known) (path other : ZnodePath)
    → other ≢ path
    → knows (learn known path) other ≡ true
    → knows known other ≡ true
knows-learn_other known root_path other n h = h
knows-learn_other known primary_path root_path n h = h
knows-learn_other known primary_path primary_path n h = absurd (n refl)
knows-learn_other known primary_path backup_path n h = h
knows-learn_other known backup_path root_path n h = h
knows-learn_other known backup_path primary_path n h = h
knows-learn_other known backup_path backup_path n h = absurd (n refl)

known_created :
    (address : Str) (known : Known) (server : ℕ) (path : ZnodePath) (value : Option Str) (e : Bool)
    → knows (learn known path) path ≡ true
    → Creates address path value e
    → created server value e ≡ own server address
known_created address known server root_path value e h c = absurd (ground (arith, h))
known_created address known server primary_path value e h c = rw (c.0, c.1) refl
known_created address known server backup_path value e h c = rw (c.0, c.1) refl

module _ {Z : Type 0} (zk : Zookeeper Z) (rules : IsZookeeper zk) where
  -- A server owns the znodes that it knows to be its own.
  abbrev pub Holds : Z → ℕ → Str → Known → Type 0
  Holds z server address known =
      (path : ZnodePath) → knows known path ≡ true → rules.znode z path ≡ some (own server address)

  -- What is known of a server that is about to run a program in a role.
  pub record Sound (z : Z) (server : ℕ) (address : Str) (role : ServerRole) (rest : Program)
      : Type 0 where
    pub known : Known
    pub holds : Holds z server address known
    pub fits : Fits known role
    pub careful : IsCareful address known role rest

  create-Holds :
      (z : Z) (server : ℕ) (address : Str) (known : Known) (path : ZnodePath) (value : Option Str)
      (e : Bool) (b : Bool)
      → Holds z server address known
      → Creates address path value e
      → eqb_ℤ (zk.zoo_create z server path value e).1 zok ≡ b
      → Holds (zk.zoo_create z server path value e).0 server address (learn_if b known path)
  create-Holds z server address known path value e false h c r other k =
      rules.create_fails z server path value e other _ r (h other k)
  create-Holds z server address known path value e true h c r other k =
      elim (path-cases other path) [
        | inr n ↦
            rules.create_keeps z server path value e other n
            ∙ h other (knows-learn_other known path other n k)
        | inl same ↦
            subst
              (λ p.
                knows (learn known path) p ≡ true
                → rules.znode (zk.zoo_create z server path value e).0 p ≡ some (own server address))
              (sym same)
              (λ k'.
                rules.create_sets z server path value e r
                ∙ ap some (known_created address known server path value e k' c))
              k
      ]

  get-MayRead :
      (z : Z) (server : ℕ) (address : Str) (path : ZnodePath) (b : Bool) (text : Option Str)
      → (b ≡ true → rules.znode z path ≡ some (own server address))
      → zk.zoo_get z path ≡ text
      → MayRead address b text
  get-MayRead z server address path false text h e = tt
  get-MayRead z server address path true none h e = inl refl
  get-MayRead z server address path true (some t) h e =
      inr (sym (rules.get_reads z path (own server address) t e (h refl)))

  delete-Holds :
      (z : Z) (server : ℕ) (address : Str) (known : Known)
      → Holds z server address known
      → Holds (zk.zoo_delete z backup_path).0 server address (record known { has_backup = false })
  delete-Holds z server address known h root_path k = absurd (ground (arith, k))
  delete-Holds z server address known h primary_path k =
      rules.delete_keeps z backup_path primary_path (λ e. ground (arith, e)) ∙ h primary_path k
  delete-Holds z server address known h backup_path k = absurd (ground (arith, k))

  -- A call of a server leaves what is known of it true.
  pub advance-Sound :
      (z : Z) (server : ℕ) (address : Str) (role : ServerRole) (rest : Program)
      → Sound z server address role rest
      → let (z', role', rest') = advance zk server z role rest in
        Sound z' server address role' rest'
  unfolding advance
  advance-Sound z server address role (exists path k) s = record {
    known = s.known;
    holds = s.holds;
    fits = s.fits;
    careful = s.careful (zk.zoo_exists z path);
  }
  advance-Sound z server address role (create path value e k) s = record {
    known = learn_if (eqb_ℤ (zk.zoo_create z server path value e).1 zok) s.known path;
    holds = create-Holds z server address s.known path value e _ s.holds s.careful.0 refl;
    fits = learn-Fits s.known path _ role s.fits;
    careful = s.careful.1 (zk.zoo_create z server path value e).1;
  }
  advance-Sound z server address role (get path k) s = record {
    known = s.known;
    holds = s.holds;
    fits = s.fits;
    careful =
        s.careful (zk.zoo_get z path)
          (get-MayRead z server address path (knows s.known path) _ (s.holds path) refl);
  }
  advance-Sound z server address role (delete path k) s = record {
    known = record s.known { has_backup = false };
    holds =
        subst
          (λ p. Holds (zk.zoo_delete z p).0 server address (record s.known { has_backup = false }))
          (sym s.careful.0) (delete-Holds z server address s.known s.holds);
    fits = s.careful.2;
    careful = s.careful.3 (zk.zoo_delete z path).1;
  }
  advance-Sound z server address role (set_role role' rest) s = record {
    known = s.known;
    holds = s.holds;
    fits = s.careful.0;
    careful = s.careful.1;
  }
  advance-Sound z server address role (returns result) s = s
  advance-Sound z server address role undefined s = s

  -- A call of one server keeps the znodes of every other server.
  pub advance-keeps :
      (z : Z) (server other : ℕ) (address address' : Str) (role : ServerRole) (rest : Program)
      (path : ZnodePath)
      → Sound z server address role rest
      → other ≢ server
      → rules.znode z path ≡ some (own other address')
      → rules.znode (advance zk server z role rest).0 path ≡ some (own other address')
  unfolding advance
  advance-keeps z i j a b role (exists p k) path s n h = h
  advance-keeps z i j a b role (create p v e k) path s n h =
      elim (Bool-cases (eqb_ℤ (zk.zoo_create z i p v e).1 zok)) [
        | inr failed ↦ rules.create_fails z i p v e path _ failed h
        | inl done ↦ elim (path-cases path p) [
          | inr other ↦ rules.create_keeps z i p v e path other ∙ h
          | inl same ↦ absurd (
              taken (rules.create_absent z i p v e done)
                (subst (λ q. rules.znode z q ≡ some (own j b)) same h))
        ]
      ]
  advance-keeps z i j a b role (get p k) path s n h = h
  advance-keeps z i j a b role (delete p k) path s n h = elim (path-cases path p) [
    | inr other ↦ rules.delete_keeps z p path other ∙ h
    | inl same ↦ absurd (
        n (
          own_apart j i b a (
            sym (subst (λ q. rules.znode z q ≡ some (own j b)) (same ∙ s.careful.0) h)
            ∙ s.holds backup_path s.careful.1)))
  ]
  advance-keeps z i j a b role (set_role role' rest) path s n h = h
  advance-keeps z i j a b role (returns result) path s n h = h
  advance-keeps z i j a b role undefined path s n h = h
