-- ===== src/Zk/Alone.antt =====
-- The functions of source/zk-private.c, each run from its first call of Zookeeper to its end.
use mathlib.Core.Path.{subst}
use sdistr2020_group.Prelude.{
  ℕ, ◌≡◌, ◌≢◌, refl, sym, ap, ◌∙◌, true, Option, none, some, ℤ, pos, negsuc, eqb_ℤ, arith,
}
use sdistr2020_group.Entry.{Str}
use sdistr2020_group.Skel.{ServerRole}
use sdistr2020_group.Zk.{
  ZnodePath, primary_path, backup_path, zok, znonode, Zookeeper, Program, exists, get, create,
  set_role, returns, run_alone, create_as, zk_register_tree_server,
}
use sdistr2020_group.Zk.Rules.{Znode, own, IsZookeeper, IsReliable}

pub primary_apart : backup_path ≢ primary_path
primary_apart e = ground (arith, e)

module _ {Z : Type 0} (zk : Zookeeper Z) (rules : IsZookeeper zk) (reliable : IsReliable zk rules)
    (server : ℕ) (address : Str) where
  pub exists_then :
      (z : Z) (role : ServerRole) (path : ZnodePath) (k : ℤ → Program) (result : ℤ)
      → zk.zoo_exists z path ≡ result
      → run_alone zk server (exists path k) z role ≡ run_alone zk server (k result) z role
  unfolding run_alone
  exists_then z role path k result e = ap (λ c. run_alone zk server (k c) z role) e

  pub get_then :
      (z : Z) (role : ServerRole) (path : ZnodePath) (k : Option Str → Program) (text : Option Str)
      → zk.zoo_get z path ≡ text
      → run_alone zk server (get path k) z role ≡ run_alone zk server (k text) z role
  unfolding run_alone
  get_then z role path k text e = ap (λ c. run_alone zk server (k c) z role) e

  pub create_then :
      (z : Z) (role : ServerRole) (path : ZnodePath) (k : ℤ → Program)
      → rules.znode z path ≡ none
      → run_alone zk server (create path (some address) true k) z role
        ≡ run_alone zk server (k zok) (zk.zoo_create z server path (some address) true).0 role
  unfolding run_alone
  create_then z role path k h =
      ap (λ c. run_alone zk server (k c) (zk.zoo_create z server path (some address) true).0 role)
        (reliable.creates z server path (some address) true h)

  pub set_then :
      (z : Z) (role role' : ServerRole) (result : ℤ)
      → run_alone zk server (set_role role' (returns result)) z role ≡ (z, role', some result)
  unfolding run_alone
  set_then z role role' result = refl

  pub returns_then :
      (z : Z) (role : ServerRole) (result : ℤ)
      → run_alone zk server (returns result) z role ≡ (z, role, some result)
  unfolding run_alone
  returns_then z role result = refl

  create_alone :
      (z : Z) (role role' : ServerRole) (path : ZnodePath)
      → rules.znode z path ≡ none
      → run_alone zk server (create_as role' path address) z role
        ≡ ((zk.zoo_create z server path (some address) true).0, role', some (pos 0))
  unfolding create_as
  create_alone z role role' path h =
      create_then z role path _ h
      ∙ set_then (zk.zoo_create z server path (some address) true).0 role role' (pos 0)

  -- The znode of the server, once a call of `zoo_create` made it.
  pub own_set :
      (z : Z) (path : ZnodePath)
      → rules.znode z path ≡ none
      → rules.znode (zk.zoo_create z server path (some address) true).0 path
        ≡ some (own server address)
  own_set z path h =
      rules.create_sets z server path (some address) true
        (ap (λ c. eqb_ℤ c zok) (reliable.creates z server path (some address) true h))

  -- What a registration comes to, by the two znodes that stand before it.
  abbrev pub Registers :
      Z → ServerRole → Option Znode → Option Znode → Z × ServerRole × Option ℤ → Type 0
  Registers z role none held (z', role', result) =
      (role' ≡ ServerRole.primary)
      × (result ≡ some (pos 0))
      × (rules.znode z' primary_path ≡ some (own server address))
      × (rules.znode z' backup_path ≡ held)
  Registers z role (some held) none (z', role', result) =
      (role' ≡ ServerRole.backup)
      × (result ≡ some (pos 0))
      × (rules.znode z' primary_path ≡ some held)
      × (rules.znode z' backup_path ≡ some (own server address))
  Registers z role (some held) (some held') (z', role', result) =
      (role' ≡ role) × (result ≡ some (negsuc 0)) × (z' ≡ z)

  register_by :
      (z : Z) (role : ServerRole) (a b : Option Znode)
      → rules.znode z primary_path ≡ a
      → rules.znode z backup_path ≡ b
      → Registers z role a b (run_alone zk server (zk_register_tree_server address) z role)
  unfolding zk_register_tree_server
  register_by z role none b free e =
      subst (Registers z role none b)
        (sym (
          exists_then z role primary_path _ znonode (reliable.exists_absent z primary_path free)
          ∙ create_alone z role ServerRole.primary primary_path free))
        (
          refl,
          refl,
          own_set z primary_path free,
          rules.create_keeps z server primary_path (some address) true backup_path primary_apart
              ∙ e,
        )
  register_by z role (some held) none e free =
      subst (Registers z role (some held) none)
        (sym (
          exists_then z role primary_path _ zok (reliable.exists_present z primary_path held e)
          ∙ exists_then z role backup_path _ znonode (reliable.exists_absent z backup_path free)
          ∙ create_alone z role ServerRole.backup backup_path free))
        (
          refl,
          refl,
          rules.create_keeps z server backup_path (some address) true primary_path
                (λ e. primary_apart (sym e))
              ∙ e,
          own_set z backup_path free,
        )
  register_by z role (some held) (some held') e e' =
      subst (Registers z role (some held) (some held'))
        (sym (
          exists_then z role primary_path _ zok (reliable.exists_present z primary_path held e)
          ∙ exists_then z role backup_path _ zok (reliable.exists_present z backup_path held' e')
          ∙ returns_then z role (negsuc 0)))
        (refl, refl, refl)

  -- A server that registers alone, while Zookeeper answers, takes the role of the primary server if
  -- that is free, then that of the backup server, and owns the znode of its role, with its address,
  -- while the other znode stays as it was; if both are taken, it fails and changes nothing.
  pub register_outcomes :
      (z : Z) (role : ServerRole)
      → Registers z role
          (rules.znode z primary_path)
          (rules.znode z backup_path)
          (run_alone zk server (zk_register_tree_server address) z role)
  register_outcomes z role = register_by z role _ _ refl refl
