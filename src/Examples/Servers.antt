-- ===== src/Examples/Servers.antt =====
-- source/server/tasks-private.c and source/server/tree_skel.c at small runs.
use sdistr2020_group.Prelude.{◌≡◌, ◌≢◌, refl, none, some, [], ◌∷◌, pos, false, if◌then◌else◌}
use sdistr2020_group.Tree.{tree_create}
use sdistr2020_group.Tree.Invariant.{tree_create-IsValid}
use sdistr2020_group.Message.{Message, Message_dup, Content, op_put, msg_to_entry}
use sdistr2020_group.Data.{data_create2, copy}
use sdistr2020_group.Tasks.{
  Tasks, successful, not_executed, tasks_init, tasks_add_task, tasks_set_result, tasks_get_result,
}
use sdistr2020_group.Tasks.Invariant
use sdistr2020_group.Tasks.Invariant.{
  tasks_init-IsValid, tasks_add_task-IsValid, tasks_set_result-IsValid,
}
use sdistr2020_group.Tasks.Results.{
  here, next, add, result_stays, result_of, tasks_get_result_exact,
}
use sdistr2020_group.Skel.{
  Server, Network, runs, exited, invoke, tree_skel_init, process_next, replicate_to_backup_server,
  backup, is_key, is_entry, entry_of,
}
use sdistr2020_group.Skel.Requests
use sdistr2020_group.Skel.Requests.{
  is_served, is_write, Answers, Responds, invoke_server, invoke_unserved, invoke-Answers,
  invoke-IsValid,
}
use sdistr2020_group.Skel.Worker.{Ensures}
use sdistr2020_group.Skel.Drain.{process_all, process_all-Drained, Drained}
use sdistr2020_group.Skel.Exit.{IsGoodPut, Replicates, puts_run, del_request, delete_on_empty_exits}

abbrev put_a : Message
put_a = record {
  op_code = op_put;
  content = Content.entry (
      some (record {
        key = some (record { str = b'a' ∷ [] });
        value = some (record { len = 1; block = some (7 ∷ []) });
      }));
}

abbrev queued : Tasks
queued = record {
  last_task_id_assigned = pos 0;
  queue = record { task_id = pos 0; op_code_and_args = put_a } ∷ [];
  results = [];
  destroyed = false;
}

abbrev done : Tasks
done = record {
  last_task_id_assigned = pos 0;
  queue = [];
  results = record { task_id = pos 0; task_result = successful } ∷ [];
  destroyed = false;
}

-- The calls that lead there.
add_gives : tasks_add_task (some put_a) tasks_init ≡ (queued, pos 0)
unfolding tasks_add_task tasks_init Message_dup copy
add_gives = refl

set_gives : tasks_set_result (pos 0) successful queued ≡ (done, pos 0)
unfolding tasks_set_result
set_gives = refl

queued-IsValid : Invariant.IsValid queued
queued-IsValid = record { done = tt; queued = (refl, tt); last = refl }

done-IsValid : Invariant.IsValid done
done-IsValid = record { done = (refl, tt); queued = tt; last = refl }

is_done : tasks_get_result (pos 0) done ≢ not_executed
unfolding tasks_get_result
is_done e = cc

result_stays_example :
    tasks_get_result (pos 0) (tasks_add_task (some put_a) done).0 ≡ tasks_get_result (pos 0) done
result_stays_example = result_stays (pos 0) (next here (add done put_a)) done-IsValid is_done

ran : successful ≢ not_executed
ran e = cc

tasks_get_result_exact_example : tasks_get_result (pos 0) done ≡ result_of done.results (pos 0)
tasks_get_result_exact_example = tasks_get_result_exact done (pos 0) done-IsValid

abbrev server : Server
server = record { tree = some tree_create; tasks = queued }

server-IsValid : Requests.IsValid server
server-IsValid = record { whole = tree_create-IsValid; ordered = queued-IsValid }

-- The network of a backup server.
abbrev network : Network
network = record {
  role = backup;
  backup_server = none;
  stale = ([], pos 0);
  server_connect = λ a p. pos 3;
  network_send_message = λ s m. pos 0;
}

network-Replicates : Replicates network
unfolding replicate_to_backup_server
network-Replicates task = refl

abbrev bad_request : Message
bad_request = record { op_code = op_put; content = Content.key (some (b'a' ∷ [])) }

bad_unserved : is_served bad_request ≡ false
unfolding is_served
bad_unserved = refl

invoke_server_example :
    let (s', response) = invoke none server (some put_a) in
    (s'.tree ≡ some tree_create)
    × (s'.tasks ≡ (if is_write put_a then (tasks_add_task (some put_a) queued).0 else queued))
    × Responds false (is_write put_a) queued put_a response
invoke_server_example = invoke_server none (some tree_create) queued put_a

process_all-Drained_example :
    Ensures (Drained server.tree queued.queue []) (process_all (network ∷ []) server)
process_all-Drained_example = process_all-Drained (network ∷ []) server queued.queue refl refl refl

put_a_good : IsGoodPut (record { task_id = pos 0; op_code_and_args = put_a })
unfolding msg_to_entry is_key is_entry entry_of copy data_create2
put_a_good = record {
  not_del = refl;
  put = refl;
  key = b'a' ∷ [];
  value = record { datasize = pos 1; block = some (7 ∷ []) };
  entry = refl;
}

puts_run_example : (s' : Server) × (process_all (network ∷ []) server ≡ runs s')
puts_run_example =
    puts_run (network ∷ []) server queued.queue (tree_create, refl) refl refl refl
      (network-Replicates, tt) (put_a_good, tt)

delete_on_empty_exits_example :
    process_next network (invoke none tree_skel_init (some (del_request (b'a' ∷ [])))).0
    ≡ (exited, [])
delete_on_empty_exits_example = delete_on_empty_exits none network (b'a' ∷ [])
