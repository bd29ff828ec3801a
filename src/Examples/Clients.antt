-- ===== src/Examples/Clients.antt =====
-- source/client/client_stub.c against servers with a small tree, and its connections.
use sdistr2020_group.Prelude.{
  eqb_ℤ, if◌then◌else◌, ◌≡◌, refl, true, false, none, some, [], ◌∷◌, ℤ, pos, negsuc, arith,
}
use sdistr2020_group.Entry.{Str, key_order, key_compare, strcmp}
use sdistr2020_group.Data.{data_dup, copy}
use sdistr2020_group.Message.{Message, Content, op_put, op_del, entry_to_msg}
use sdistr2020_group.Tree.{tree_create, tree_get, tree_size, tree_height, tree_get_keys}
use sdistr2020_group.Tasks.{tasks_init, tasks_add_task, tasks_get_result, task_result_code}
use sdistr2020_group.Skel.{Server}
use sdistr2020_group.Inet.Address.{print_address}
use sdistr2020_group.ClientStub.Connections.{change_closes_twice}
use sdistr2020_group.ClientStub.{on_servers_changed}
use sdistr2020_group.ClientStub.{
  Rtree, Stub, address, freed_address, without_sockets, rtree_put, rtree_get, rtree_del, rtree_size,
  rtree_height, rtree_get_keys, rtree_verify, servers_retry_connect, rtree_connect,
  rtree_disconnect,
}
use sdistr2020_group.ClientStub.Calls.{Servers, direct, servers, rtree_reads, rtree_writes}
use sdistr2020_group.ClientStub.Connections.{retry_frees_twice, connect_disconnect}
use sdistr2020_group.Examples.Buffers.{three, three-IsValid, short_entry}

abbrev primary_host : Str
primary_host = b'p' ∷ []

abbrev backup_host : Str
backup_host = b'b' ∷ []

-- Connected to the primary server at socket 4, and to the backup server at socket 5.
abbrev pub client : Rtree
client = record {
  primary_server_ip_address = address primary_host;
  primary_server_port = pos 9000;
  primary_sockfd = pos 4;
  backup_server_ip_address = address backup_host;
  backup_server_port = pos 9001;
  backup_sockfd = pos 5;
}

abbrev pub server : Server
server = record { tree = some tree_create; tasks = tasks_init }

rtree_reads_example :
    (rtree_get
        (direct (pos 4) none)
        (servers server three tasks_init)
        (some client)
        (some (b'c' ∷ []))
      ≡ (servers server three tasks_init, tree_get (some three) (some (b'c' ∷ []))))
    × (rtree_size (direct (pos 4) none) (servers server three tasks_init) (some client)
        ≡ (servers server three tasks_init, tree_size (some three)))
    × (rtree_height (direct (pos 4) none) (servers server three tasks_init) (some client)
        ≡ (servers server three tasks_init, tree_height (some three)))
    × (rtree_get_keys (direct (pos 4) none) (servers server three tasks_init) (some client)
        ≡ (servers server three tasks_init, tree_get_keys none (some three)))
    × (rtree_verify (direct (pos 4) none) (servers server three tasks_init) (some client) (pos 0)
        ≡ (servers server three tasks_init, task_result_code (tasks_get_result (pos 0) tasks_init)))
unfolding tree_get data_dup copy key_order key_compare strcmp
rtree_reads_example =
    rtree_reads client none refl server three tasks_init (b'c' ∷ []) (pos 0) three-IsValid
      (record { fits = refl }, omega arith)

abbrev put_request : Message
put_request = record {
  op_code = op_put;
  content = Content.entry (entry_to_msg (some (short_entry b'x' 9)));
}

abbrev del_request : Message
del_request = record { op_code = op_del; content = Content.key (some (b'c' ∷ [])) }

abbrev before : Servers
before = record { primary = record { tree = some three; tasks = tasks_init }; backup = server }

abbrev queued : Message → Servers
queued request = record {
  primary = record { tree = some three; tasks = (tasks_add_task (some request) tasks_init).0 };
  backup = server;
}

rtree_writes_example :
    (rtree_put (direct (pos 4) none) before (some client) (some (short_entry b'x' 9))
      ≡ (queued put_request, (tasks_add_task (some put_request) tasks_init).1))
    × (rtree_del (direct (pos 4) none) before (some client) (some (b'c' ∷ []))
        ≡ (queued del_request, (tasks_add_task (some del_request) tasks_init).1))
rtree_writes_example =
    rtree_writes client none refl three tasks_init server (short_entry b'x' 9) (b'c' ∷ [])

-- The servers are reached at their ports.
abbrev dial : Str → ℤ → ℤ
dial ip port = if eqb_ℤ port (pos 9000) then pos 4 else pos 5

abbrev closes : ℤ → ℤ
closes sockfd = pos 0

retry_frees_twice_example :
    (servers_retry_connect dial none (some (print_address backup_host 9001)) client true
      ≡ some (
        record {
          rtree = some (without_sockets freed_address (negsuc 0) freed_address (negsuc 0));
          are_servers_connected = true;
        },
        [],
        negsuc 0,
      ))
    × (servers_retry_connect dial
          (some (print_address primary_host 9000))
          (some (print_address backup_host 9001))
          (without_sockets freed_address (negsuc 0) freed_address (negsuc 0))
          false
        ≡ none)
retry_frees_twice_example =
    retry_frees_twice dial primary_host backup_host (pos 9000) (pos 9001) (pos 4) (pos 5)
      (some (print_address backup_host 9001)) (some (print_address primary_host 9000))
      (some (print_address backup_host 9001)) true false

abbrev connected : Stub
connected = record { rtree = some client; are_servers_connected = true }

connect_disconnect_example :
    (rtree_connect dial
        (some (print_address primary_host 9000))
        (some (print_address backup_host 9001))
        false
      ≡ some (connected, [], pos 0))
    × (rtree_disconnect closes connected
        ≡ (record { rtree = none; are_servers_connected = false }, pos 4 ∷ pos 5 ∷ [], pos 0))
connect_disconnect_example =
    connect_disconnect dial closes b'p' b'b' [] [] 9000 9001 3 4 false
      ((λ e. absurd (omega arith)), tt) ((λ e. absurd (omega arith)), tt) (omega arith)
      (omega arith) (omega arith) (omega arith) refl refl refl refl

change_closes_twice_example :
    let (changed, closed) = on_servers_changed closes connected in
    let (left, closed', result) = rtree_disconnect closes changed in
    (closed ≡ pos 4 ∷ pos 5 ∷ []) × (closed' ≡ pos 4 ∷ pos 5 ∷ [])
change_closes_twice_example = change_closes_twice closes client true 3 4 refl refl
