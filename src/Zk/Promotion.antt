-- ===== src/Zk/Promotion.antt =====
-- How a server of source/zk-private.c becomes the primary server, and fails to.
use sdistr2020_group.Prelude.{
  ℕ, ◌≡◌, refl, sym, ap, ◌∙◌, true, false, Option, none, some, ℤ, pos, negsuc, eqb_ℤ, if◌then◌else◌,
  arith,
}
use sdistr2020_group.Entry.{Str}
use sdistr2020_group.Skel.{ServerRole, is_backup}
use sdistr2020_group.Prelude.{Bool}
use sdistr2020_group.Zk.{advance}
use sdistr2020_group.Zk.{
  ZnodePath, primary_path, backup_path, zok, znonode, Zookeeper, Program, exists, delete, set_role,
  returns, run_alone, create_as, zk_register_tree_server, zk_update_server_roles, take_over,
  promote, on_servers_change,
}
use sdistr2020_group.Zk.Rules.{Znode, own, IsZookeeper, IsReliable}
use sdistr2020_group.Zk.Alone.{
  primary_apart, exists_then, get_then, create_then, returns_then, own_set,
}

present : {o : Option Znode} {z : Znode} → o ≡ none → o ≡ some z → ⊥
present e h = ground (arith, sym e ∙ h)

-- The role and the result of a run.
abbrev pub ends : {Z : Type 0} → Z × ServerRole × Option ℤ → ServerRole × Option ℤ
ends (z, role, result) = (role, result)

module _ {Z : Type 0} (zk : Zookeeper Z) (rules : IsZookeeper zk) (reliable : IsReliable zk rules)
    (server : ℕ) (address : Str) where
  role_then :
      (z : Z) (role role' : ServerRole) (rest : Program)
      → run_alone zk server (set_role role' rest) z role ≡ run_alone zk server rest z role'
  unfolding run_alone
  role_then z role role' rest = refl

  delete_then :
      (z : Z) (role : ServerRole) (path : ZnodePath) (k : ℤ → Program) (result : ℤ)
      → (zk.zoo_delete z path).1 ≡ result
      → run_alone zk server (delete path k) z role
        ≡ run_alone zk server (k result) (zk.zoo_delete z path).0 role
  unfolding run_alone
  delete_then z role path k result e =
      ap (λ c. run_alone zk server (k c) (zk.zoo_delete z path).0 role) e

  takes_over :
      (z : Z)
      → rules.znode z primary_path ≡ none
      → rules.znode z backup_path ≡ some (own server address)
      → let z1 = (zk.zoo_create z server primary_path (some address) true).0 in
        run_alone zk server (take_over ServerRole.backup (some address)) z ServerRole.backup
        ≡ ((zk.zoo_delete z1 backup_path).0, ServerRole.primary, some (pos 0))
  unfolding take_over promote is_backup
  takes_over z free held =
      let z1 = (zk.zoo_create z server primary_path (some address) true).0 in
      let held' =
        rules.create_keeps z server primary_path (some address) true backup_path primary_apart
        ∙ held in
      create_then zk rules reliable server address z ServerRole.backup primary_path _ free
      ∙ role_then z1 ServerRole.backup ServerRole.primary _
      ∙ delete_then z1 ServerRole.primary backup_path _ zok
          (reliable.deletes z1 backup_path (own server address) held').0
      ∙ returns_then zk rules reliable server address (zk.zoo_delete z1 backup_path).0
          ServerRole.primary (pos 0)

  -- When the servers change and the znode of the primary server is gone, the backup server, whose
  -- listener runs alone while Zookeeper answers, becomes the primary server: the znode of the primary
  -- server is its own, with its address, and that of the backup server is free.
  pub promotion :
      (z : Z)
      → rules.znode z primary_path ≡ none
      → rules.znode z backup_path ≡ some (own server address)
      → (z' : Z) × (run_alone zk server (on_servers_change ServerRole.backup) z ServerRole.backup
          ≡ (z', ServerRole.primary, some (pos 0)))
        × (rules.znode z' primary_path ≡ some (own server address))
        × (rules.znode z' backup_path ≡ none)
  unfolding on_servers_change zk_update_server_roles is_backup
  promotion z free held =
      let z1 = (zk.zoo_create z server primary_path (some address) true).0 in
      let held' =
        rules.create_keeps z server primary_path (some address) true backup_path primary_apart
        ∙ held in
      (
        (zk.zoo_delete z1 backup_path).0,
        exists_then zk rules reliable server address z ServerRole.backup primary_path _ znonode
              (reliable.exists_absent z primary_path free)
            ∙ exists_then zk rules reliable server address z ServerRole.backup backup_path _ zok
                (reliable.exists_present z backup_path (own server address) held)
            ∙ get_then zk rules reliable server address z ServerRole.backup backup_path _
                (some address) (reliable.gets z backup_path (own server address) address held refl)
            ∙ takes_over z free held,
        rules.delete_keeps z1 backup_path primary_path (λ e. primary_apart (sym e))
            ∙ own_set zk rules reliable server address z primary_path free,
        (reliable.deletes z1 backup_path (own server address) held').1,
      )

  create_late :
      (z : Z) (role role' : ServerRole) (path : ZnodePath) (b : Bool)
      → eqb_ℤ (zk.zoo_create z server path (some address) true).1 zok ≡ b
      → (taken : Znode) → rules.znode z path ≡ some taken
      → ends (run_alone zk server (create_as role' path address) z role) ≡ (role, some (negsuc 0))
  unfolding create_as run_alone
  create_late z role role' path true e taken h =
      absurd (present (rules.create_absent z server path (some address) true e) h)
  create_late z role role' path false e taken h =
      ap
        (λ b. ends (
          run_alone zk server (if b then set_role role' (returns (pos 0)) else returns (negsuc 0))
            (zk.zoo_create z server path (some address) true).0 role))
        e

  -- A server that finds no primary server, and is overtaken by another one before it creates the
  -- znode itself, fails to register and has no role, even if the znode of the backup server is free.
  pub registration_race :
      (z z' : Z) (role : ServerRole) (taken : Znode)
      → rules.znode z primary_path ≡ none
      → rules.znode z' primary_path ≡ some taken
      → let (z0, role0, rest) = advance zk server z role (zk_register_tree_server address) in
        ends (run_alone zk server rest z' role0) ≡ (role, some (negsuc 0))
  unfolding zk_register_tree_server advance
  registration_race z z' role taken free h =
      ap
        (λ c. ends (
          run_alone zk server
            (if eqb_ℤ c znonode
              then create_as ServerRole.primary primary_path address
              else exists backup_path λ result'.
                if eqb_ℤ result' znonode
                then create_as ServerRole.backup backup_path address
                else returns (negsuc 0))
            z' role))
        (reliable.exists_absent z primary_path free)
      ∙ create_late z' role ServerRole.primary primary_path _ refl taken h
