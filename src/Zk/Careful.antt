-- ===== src/Zk/Careful.antt =====
-- The functions of source/zk-private.c are careful with the znodes of other servers.
use sdistr2020_group.Prelude.{
  ℕ, ◌≡◌, inl, inr, refl, Bool, true, false, Option, none, some, pos, negsuc, eqb_ℤ, ltb_ℤ, ◌&&◌,
  not, if◌then◌else◌, arith,
}
use sdistr2020_group.Entry.{Str}
use sdistr2020_group.Skel.{ServerRole, is_backup}
use sdistr2020_group.Zk.{
  root_path, primary_path, backup_path, zok, znonode, Program, exists, create, get, delete,
  set_role, returns, undefined, to_undefined, destroy_vector, ok_or_error, create_as,
  zk_register_tree_server, zk_update_server_roles, take_over, promote, on_servers_change,
  zk_children_watcher, zk_connect, wait_connected,
}
use sdistr2020_group.Zk.Ownership.{Known, learn_if, Fits, MayRead, IsCareful}

module _ (address : Str) where
  either-IsCareful :
      (known : Known) (role : ServerRole) (b : Bool) (p q : Program)
      → IsCareful address known role p
      → IsCareful address known role q
      → IsCareful address known role (if b then p else q)
  either-IsCareful known role true p q h k = h
  either-IsCareful known role false p q h k = k

  ended-IsCareful :
      (known : Known) (role : ServerRole) (b : Bool) → IsCareful address known role (ok_or_error b)
  ended-IsCareful known role true = tt
  ended-IsCareful known role false = tt

  primary_set :
      (known : Known) (role : ServerRole) (b : Bool)
      → IsCareful address
          (learn_if b known primary_path)
          role
          (if b then set_role ServerRole.primary (returns (pos 0)) else returns (negsuc 0))
  primary_set known role true = (refl, tt)
  primary_set known role false = tt

  backup_set :
      (known : Known) (role : ServerRole) (b : Bool)
      → IsCareful address
          (learn_if b known backup_path)
          role
          (if b then set_role ServerRole.backup (returns (pos 0)) else returns (negsuc 0))
  backup_set known role true = (refl, tt)
  backup_set known role false = tt

  pub register-IsCareful :
      (known : Known) (role : ServerRole)
      → IsCareful address known role (zk_register_tree_server address)
  unfolding zk_register_tree_server create_as
  register-IsCareful known role result =
      either-IsCareful known role (eqb_ℤ result znonode) _ _
        ((refl, refl), λ r. primary_set known role (eqb_ℤ r zok))
        (λ r'.
          either-IsCareful known role (eqb_ℤ r' znonode) _ _
            ((refl, refl), λ r. backup_set known role (eqb_ℤ r zok)) tt)

  -- After the znode of the primary server is made by a backup server.
  promote-IsCareful :
      (known : Known) (b : Bool)
      → known.has_backup ≡ true
      → IsCareful address (learn_if b known primary_path) ServerRole.backup (
          if b
          then promote ServerRole.backup
              (delete backup_path (λ result. ok_or_error (not (ltb_ℤ result (pos 0)))))
          else returns (negsuc 0))
  unfolding promote is_backup
  promote-IsCareful known true h =
      (refl, (refl, h, refl, λ result. ended-IsCareful _ ServerRole.primary _))
  promote-IsCareful known false h = tt

  read_own :
      (b : Bool) (text : Str) → b ≡ true → MayRead address b (some text) → some text ≡ some address
  read_own true text h (inl e) = absurd (ground (arith, e))
  read_own true text h (inr e) = e
  read_own false text h r = absurd (ground (arith, h))

  take_over-IsCareful :
      (known : Known) (text : Option Str)
      → known.has_backup ≡ true
      → MayRead address known.has_backup text
      → IsCareful address known ServerRole.backup (take_over ServerRole.backup text)
  unfolding take_over
  take_over-IsCareful known none h r = tt
  take_over-IsCareful known (some text) h r = (
    (read_own known.has_backup text h r, refl),
    λ result. promote-IsCareful known (eqb_ℤ result zok) h,
  )

  update-IsCareful :
      (known : Known)
      → known.has_backup ≡ true
      → IsCareful address known ServerRole.backup (zk_update_server_roles ServerRole.backup)
  unfolding zk_update_server_roles
  update-IsCareful known h result =
      either-IsCareful known ServerRole.backup (not (eqb_ℤ result znonode)) _ _ tt (λ r.
        either-IsCareful known ServerRole.backup (eqb_ℤ r zok) _ _
          (λ text reads. take_over-IsCareful known text h reads) tt)

  listener-IsCareful :
      (known : Known) (role : ServerRole)
      → Fits known role
      → IsCareful address known role (on_servers_change role)
  unfolding on_servers_change is_backup
  listener-IsCareful known ServerRole.primary h = tt
  listener-IsCareful known ServerRole.backup h = update-IsCareful known h
  listener-IsCareful known ServerRole.unset h = tt

  to_undefined-IsCareful :
      (known : Known) (role : ServerRole) (p : Program)
      → IsCareful address known role p
      → IsCareful address known role (to_undefined p)
  unfolding to_undefined
  to_undefined-IsCareful known role (exists path k) h =
      λ result. to_undefined-IsCareful known role (k result) (h result)
  to_undefined-IsCareful known role (create path value e k) h = (
    h.0,
    λ result.
        to_undefined-IsCareful (learn_if (eqb_ℤ result zok) known path) role (k result)
          (h.1 result),
  )
  to_undefined-IsCareful known role (get path k) h =
      λ text reads. to_undefined-IsCareful known role (k text) (h text reads)
  to_undefined-IsCareful known role (delete path k) h = (
    h.0,
    h.1,
    h.2,
    λ result.
        to_undefined-IsCareful (record known { has_backup = false }) role (k result) (h.3 result),
  )
  to_undefined-IsCareful known role (set_role role' rest) h =
      (h.0, to_undefined-IsCareful known role' rest h.1)
  to_undefined-IsCareful known role (returns result) h = tt
  to_undefined-IsCareful known role undefined h = tt

  vector-IsCareful :
      (known : Known) (role : ServerRole) (is_filled : Bool) (p : Program)
      → IsCareful address known role p
      → IsCareful address known role (destroy_vector is_filled p)
  unfolding destroy_vector
  vector-IsCareful known role true p h = h
  vector-IsCareful known role false p h = to_undefined-IsCareful known role p h

  pub connect-IsCareful :
      (known : Known) (role : ServerRole) (has_handle : Bool) (is_connected : ℕ → Bool)
      (is_filled : Bool)
      → IsCareful address known role (zk_connect has_handle is_connected is_filled)
  unfolding zk_connect
  connect-IsCareful known role has_handle is_connected is_filled =
      let end : Program = destroy_vector is_filled (returns (pos 0)) in
      let root : Program =
        create root_path none false (λ r. if eqb_ℤ r zok then end else returns (negsuc 0)) in
      either-IsCareful known role (not (has_handle && wait_connected 5 is_connected))
        (returns (negsuc 0)) (exists root_path λ result. if eqb_ℤ result znonode then root else end)
        tt
        (λ result.
          either-IsCareful known role (eqb_ℤ result znonode) root end
            (
              tt,
              λ r.
                  either-IsCareful (learn_if (eqb_ℤ r zok) known root_path) role (eqb_ℤ r zok) end
                    (returns (negsuc 0))
                    (vector-IsCareful (learn_if (eqb_ℤ r zok) known root_path) role is_filled
                      (returns (pos 0)) tt)
                    tt,
            )
            (vector-IsCareful known role is_filled (returns (pos 0)) tt))

  pub watcher-IsCareful :
      (known : Known) (role : ServerRole)
      (is_child_event is_connected_state is_filled is_set : Bool)
      → Fits known role
      → IsCareful address known role
          (zk_children_watcher is_child_event is_connected_state is_filled is_set role)
  unfolding zk_children_watcher
  watcher-IsCareful known role c s f l h =
      either-IsCareful known role (c && s)
        (destroy_vector f (if l then on_servers_change role else returns (pos 0)))
        (destroy_vector false (returns (pos 0)))
        (vector-IsCareful known role f _ (
          either-IsCareful known role l (on_servers_change role) (returns (pos 0))
            (listener-IsCareful known role h) tt))
        (vector-IsCareful known role false (returns (pos 0)) tt)
