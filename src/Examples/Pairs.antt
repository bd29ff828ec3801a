-- ===== src/Examples/Pairs.antt =====
-- A primary and a backup server of source/server/tree_skel.c at one put.
use sdistr2020_group.Prelude.{
  ◌≡◌, ◌≢◌, refl, none, some, List, [], ◌∷◌, ◌++◌, pos, negsuc, length, ℤ, false,
}
use sdistr2020_group.Data.{data_create2, copy}
use sdistr2020_group.Message.{Message, Content, op_put, msg_to_entry, Message_dup}
use sdistr2020_group.Tree.{tree_create, tree_put}
use sdistr2020_group.Tasks.{
  tasks_get_next, tasks_get_result, successful, not_executed, tasks_add_task, tasks_set_result,
  tasks_init,
}
use sdistr2020_group.Skel.Requests.{is_write}
use sdistr2020_group.Skel.{send_to}
use sdistr2020_group.Replication.{Pair}
use sdistr2020_group.Skel.{
  is_backup, process_task, process_tree_put, finish, invoke2, invoke_write_operation, fill_error,
  Server, Network, ServerRole, runs, invoke, process_next, tree_skel_init,
  replicate_to_backup_server, is_key, is_entry, entry_of,
}
use sdistr2020_group.Inet.{parse_address_port, strtok, atoi}
use sdistr2020_group.Replication.{Reach, start, later, request, work, deliver, follow}
use sdistr2020_group.Replication.Writes.{perform_writes}
use sdistr2020_group.Replication.Trees.{empty_tree}
use sdistr2020_group.Replication.Consistency.{backup_behind, backup_agrees, verified_done}

abbrev put_a : Message
put_a = record {
  op_code = op_put;
  content = Content.entry (
      some (record {
        key = some (record { str = b'a' ∷ [] });
        value = some (record { len = 1; block = some (7 ∷ []) });
      }));
}

-- The backup server is registered as "b:7" and reached at socket 3.
abbrev to_backup : Network
to_backup = record {
  role = ServerRole.primary;
  backup_server = some (b'b' ∷ b':' ∷ b'7' ∷ []);
  stale = ([], pos 0);
  server_connect = λ a p. pos 3;
  network_send_message = λ s m. pos 0;
}

abbrev at_backup : Network
at_backup = record {
  role = ServerRole.backup;
  backup_server = none;
  stale = ([], pos 0);
  server_connect = λ a p. negsuc 0;
  network_send_message = λ s m. negsuc 0;
}

-- The two servers after the put.
abbrev queued : Server
queued = (invoke none tree_skel_init (some put_a)).0

abbrev served : Server
served = record {
  tree =
      (tree_put (some tree_create) (some (b'a' ∷ []))
        (some (record { datasize = pos 1; block = some (7 ∷ []) }))).0;
  tasks = record {
    last_task_id_assigned = pos 0;
    queue = [];
    results = record { task_id = pos 0; task_result = successful } ∷ [];
    destroyed = false;
  };
}

primary_serves : process_next to_backup queued ≡ (runs served, put_a ∷ [])
unfolding process_next process_task process_tree_put finish tasks_get_next invoke invoke2
    invoke_write_operation tree_skel_init tasks_init tasks_add_task Message_dup copy fill_error
    msg_to_entry data_create2 tasks_set_result send_to replicate_to_backup_server parse_address_port
    strtok atoi is_key is_entry entry_of tree_put
primary_serves = refl

backup_serves : process_next at_backup queued ≡ (runs served, [])
unfolding process_next process_task process_tree_put finish tasks_get_next invoke invoke2
    invoke_write_operation tree_skel_init tasks_init tasks_add_task Message_dup copy fill_error
    msg_to_entry data_create2 tasks_set_result replicate_to_backup_server is_key is_entry entry_of
    tree_put
backup_serves = refl

-- The pair at the end of the run.
abbrev end : Pair
end = record { requested = put_a ∷ []; primary = served; sent = []; backup = served }

-- The put is queued, performed and sent by the primary server, then handled and performed by the
-- backup server.
run : Reach none end
unfolding is_backup is_write Message_dup copy is_key is_entry
run =
    later
      (later
        (later (later start (request put_a))
          (work to_backup served (put_a ∷ []) refl primary_serves))
        (deliver put_a [] refl))
      (follow at_backup served [] refl backup_serves)

backup_behind_example :
    (done : List Message) × (put_a ∷ [] ≡ done ++ [])
    × (served.tree ≡ perform_writes (done ++ []) empty_tree)
    × (served.tree ≡ perform_writes done empty_tree)
    × (length served.tasks.results ≡ length done)
backup_behind_example = backup_behind run

backup_agrees_example :
    (served.tree ≡ served.tree)
    × ((id : ℤ) → tasks_get_result id served.tasks ≡ tasks_get_result id served.tasks)
backup_agrees_example = backup_agrees run refl refl

has_result : tasks_get_result (pos 0) served.tasks ≢ not_executed
unfolding tasks_get_result
has_result e = cc

verified_done_example :
    (tasks_get_result (pos 0) served.tasks ≡ successful)
    × (tasks_get_result (pos 0) served.tasks ≡ successful)
    × (before : List Message) × (m : Message) × (after : List Message) × (pos 0
        ≡ pos (length before))
    × (put_a ∷ [] ≡ (before ++ (m ∷ after)) ++ [])
    × (served.tree ≡ perform_writes (before ++ (m ∷ after)) empty_tree)
    × (served.tree ≡ perform_writes ((before ++ (m ∷ after)) ++ []) empty_tree)
verified_done_example = verified_done (pos 0) run has_result
