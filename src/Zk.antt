-- ===== src/Zk.antt =====
-- source/zk-private.c: the servers' znodes in Zookeeper. What Zookeeper does is a parameter; a
-- function of the file is a program, the tree of its calls of Zookeeper and their results, so that
-- the calls of several servers may come between one another.
pub mod Rules
pub mod Alone
pub mod Promotion
pub mod Members
pub mod Ownership
pub mod Careful
pub mod Calls
pub mod Roles
use sdistr2020_group.Prelude.{
  ℕ, zero, suc, Bool, true, false, Option, none, some, ℤ, pos, negsuc, ltb_ℤ, eqb_ℤ, ◌&&◌, ◌==◌,
  not, if◌then◌else◌,
}
use sdistr2020_group.Entry.{Str}
use sdistr2020_group.Skel.{ServerRole, is_backup}

-- `ROOT_ZNODE_PATH`, `PRIMARY_TREE_SERVER_ZNODE_PATH` and `BACKUP_TREE_SERVER_ZNODE_PATH`
pub data ZnodePath : Type 0 where
  root_path primary_path backup_path : ZnodePath

-- The results of the calls that the code tests for.
abbrev pub zok : ℤ
zok = pos 0

abbrev pub znonode : ℤ
znonode = negsuc 100

-- The calls of Zookeeper's library, on its state, by the session of a server: the result, or the
-- data of a znode, `none` for a negative result. A znode is ephemeral or stays.
pub record Zookeeper (Z : Type 0) : Type 0 where
  pub zoo_exists : Z → ZnodePath → ℤ
  pub zoo_create : Z → ℕ → ZnodePath → Option Str → Bool → Z × ℤ
  pub zoo_get : Z → ZnodePath → Option Str
  pub zoo_delete : Z → ZnodePath → Z × ℤ
  pub zookeeper_close : Z → ℕ → Z

pub data Program : Type 0 where
  exists : ZnodePath → (ℤ → Program) → Program
  create : ZnodePath → Option Str → Bool → (ℤ → Program) → Program
  get : ZnodePath → (Option Str → Program) → Program
  delete : ZnodePath → (ℤ → Program) → Program
  set_role : ServerRole → Program → Program
  returns : ℤ → Program
  -- No defined behaviour.
  undefined : Program

-- `result < 0`, or not `ZOK`.
abbrev pub ok_or_error : Bool → Program
ok_or_error true = returns (pos 0)
ok_or_error false = returns (negsuc 0)

unfoldable pub create_as : ServerRole → ZnodePath → Str → Program
create_as role path address =
    create path (some address) true
      λ result. if eqb_ℤ result zok then set_role role (returns (pos 0)) else returns (negsuc 0)

-- The address is that of the listening socket, as text.
unfoldable pub zk_register_tree_server : Str → Program
unfolding create_as
zk_register_tree_server address = exists primary_path λ result.
    if eqb_ℤ result znonode
    then create_as ServerRole.primary primary_path address
    else exists backup_path λ result'.
      if eqb_ℤ result' znonode
      then create_as ServerRole.backup backup_path address
      else returns (negsuc 0)

-- `if (server_role == BACKUP) server_role = PRIMARY`
unfoldable pub promote : ServerRole → Program → Program
promote role rest = if is_backup role then set_role ServerRole.primary rest else rest

unfoldable pub take_over : ServerRole → Option Str → Program
unfolding promote
take_over role none = returns (negsuc 0)
take_over role (some new_primary_server) =
    create primary_path (some new_primary_server) true λ result.
      if eqb_ℤ result zok
      then promote role (delete backup_path λ result'. ok_or_error (not (ltb_ℤ result' (pos 0))))
      else returns (negsuc 0)

unfoldable pub zk_update_server_roles : ServerRole → Program
unfolding take_over
zk_update_server_roles role = exists primary_path λ result.
    if not (eqb_ℤ result znonode)
    then returns (pos 0)
    else exists backup_path
        λ result'. if eqb_ℤ result' zok then get backup_path (take_over role) else returns (pos 0)

-- `on_servers_change` of source/server/tree_server.c, the listener of a server.
unfoldable pub on_servers_change : ServerRole → Program
unfolding zk_update_server_roles
on_servers_change role = if is_backup role then zk_update_server_roles role else returns (pos 0)

-- The same calls, and then no defined behaviour.
unfoldable pub to_undefined : Program → Program
to_undefined (exists path k) = exists path λ result. to_undefined (k result)
to_undefined (create path value is_ephemeral k) =
    create path value is_ephemeral λ result. to_undefined (k result)
to_undefined (get path k) = get path λ text. to_undefined (k text)
to_undefined (delete path k) = delete path λ result. to_undefined (k result)
to_undefined (set_role role rest) = set_role role (to_undefined rest)
to_undefined (returns result) = undefined
to_undefined undefined = undefined

-- `String_vector_destroy` at the end, on a vector that `zoo_wget_children` filled or that is not
-- initialised.
unfoldable pub destroy_vector : Bool → Program → Program
unfolding to_undefined
destroy_vector true rest = rest
destroy_vector false rest = to_undefined rest

-- The listener runs if it is set, with the role that the server has then.
unfoldable pub zk_children_watcher : Bool → Bool → Bool → Bool → ServerRole → Program
unfolding on_servers_change destroy_vector
zk_children_watcher is_child_event is_connected_state is_filled is_listener_set role =
    if is_child_event && is_connected_state
    then destroy_vector is_filled
        (if is_listener_set then on_servers_change role else returns (pos 0))
    else destroy_vector false (returns (pos 0))

-- The variable `is_connected` after an event.
unfoldable pub zk_connection_watcher : Bool → Bool → Bool → Bool
zk_connection_watcher is_session_event is_connected_state is_connected =
    if is_session_event && is_connected_state then true else is_connected

-- Whether `is_connected` was set by one of the first `attempts` tests.
unfoldable pub wait_connected : ℕ → (ℕ → Bool) → Bool
wait_connected zero is_connected = is_connected 0
wait_connected (suc attempts) is_connected =
    let later = wait_connected attempts (λ i. is_connected (suc i)) in
    if is_connected 0 then true else later

-- `has_handle` is whether `zookeeper_init` made a handle. A watcher that is not set is only logged.
unfoldable pub zk_connect : Bool → (ℕ → Bool) → Bool → Program
unfolding wait_connected destroy_vector
zk_connect has_handle is_connected is_filled =
    if not (has_handle && wait_connected 5 is_connected)
    then returns (negsuc 0)
    else exists root_path λ result.
      if eqb_ℤ result znonode
      then create root_path none false (λ result'.
        if eqb_ℤ result' zok
        then destroy_vector is_filled (returns (pos 0))
        else returns (negsuc 0))
      else destroy_vector is_filled (returns (pos 0))

module _ {Z : Type 0} (zk : Zookeeper Z) where
  unfoldable pub zk_get_primary_tree_server : Z → Option Str
  zk_get_primary_tree_server z = zk.zoo_get z primary_path

  unfoldable pub zk_get_backup_tree_server : Z → Option Str
  zk_get_backup_tree_server z = zk.zoo_get z backup_path

  -- The state and the role after the close.
  unfoldable pub zk_close : Z → ℕ → Z × ServerRole
  zk_close z server = (zk.zookeeper_close z server, ServerRole.unset)

  -- One call, or one assignment, of a program of a server.
  unfoldable pub advance : ℕ → Z → ServerRole → Program → Z × ServerRole × Program
  advance server z role (exists path k) = (z, role, k (zk.zoo_exists z path))
  advance server z role (create path value is_ephemeral k) =
      let (z', result) = zk.zoo_create z server path value is_ephemeral in (z', role, k result)
  advance server z role (get path k) = (z, role, k (zk.zoo_get z path))
  advance server z role (delete path k) =
      let (z', result) = zk.zoo_delete z path in (z', role, k result)
  advance server z role (set_role role' rest) = (z, role', rest)
  advance server z role (returns result) = (z, role, returns result)
  advance server z role undefined = (z, role, undefined)

  -- A program from its first call to its end, with no other server in between; no result if it
  -- ends with no defined behaviour.
  unfoldable pub run_alone : ℕ → Program → Z → ServerRole → Z × ServerRole × Option ℤ
  run_alone server (exists path k) z role = run_alone server (k (zk.zoo_exists z path)) z role
  run_alone server (create path value is_ephemeral k) z role =
      let (z', result) = zk.zoo_create z server path value is_ephemeral in
      run_alone server (k result) z' role
  run_alone server (get path k) z role = run_alone server (k (zk.zoo_get z path)) z role
  run_alone server (delete path k) z role =
      let (z', result) = zk.zoo_delete z path in run_alone server (k result) z' role
  run_alone server (set_role role' rest) z role = run_alone server rest z role'
  run_alone server (returns result) z role = (z, role, some result)
  run_alone server undefined z role = (z, role, none)
