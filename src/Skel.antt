-- ===== src/Skel.antt =====
-- source/server/tree_skel.c: the requests of clients, and the thread that performs the writes.
-- `invoke2` and an iteration of `process_tasks` hold `tree_lock`, so each is one step. The tree
-- and the tasks are the global variables. What `malloc` leaves in an array is `junk`.
pub mod Requests
pub mod Worker
pub mod Drain
pub mod Exit
use sdistr2020_group.Prelude.{
  ℕ, ◌+◌, Bool, true, false, Option, none, some, List, [], ◌∷◌, ℤ, pos, negsuc, ltb_ℤ, ◌==◌, not,
  ◌&&◌, if◌then◌else◌,
}
use sdistr2020_group.Data.{Data}
use sdistr2020_group.Entry.{Str, Entry}
use sdistr2020_group.Tree.{
  Tree, tree_create, tree_put, tree_get, tree_del, tree_size, tree_height, tree_get_keys,
}
use sdistr2020_group.Message.{
  Message, Content, EntryMessage, Message_create, Message_dup, data_to_msg, keys_to_msg,
  msg_to_entry, op_bad, op_size, op_del, op_get, op_put, op_getkeys, op_height, op_verify, op_error,
}
use sdistr2020_group.Tasks.{
  Tasks, Task, TaskResult, Next, waits, stops, next_task, successful, failed, tasks_init,
  tasks_add_task, tasks_get_next, tasks_set_result, tasks_get_result, task_result_code,
}
use sdistr2020_group.Inet.{parse_address_port}

pub record Server : Type 0 where
  pub tree : Option Tree
  pub tasks : Tasks

-- What `tree_skel_init` leaves when it returns 0.
unfoldable pub tree_skel_init : Server
unfolding tree_create tasks_init
tree_skel_init = record { tree = some tree_create; tasks = tasks_init }

-- The tests of `content_case`.
unfoldable pub is_key : Content → Bool
is_key (Content.key k) = true
is_key other = false

unfoldable pub is_entry : Content → Bool
is_entry (Content.entry e) = true
is_entry other = false

unfoldable pub is_op_id : Content → Bool
is_op_id (Content.op_id n) = true
is_op_id other = false

-- The members of the union, read where the tests have passed.
unfoldable pub key_of : Content → Option Str
key_of (Content.key k) = k
key_of other = none

unfoldable pub entry_of : Content → Option EntryMessage
entry_of (Content.entry e) = e
entry_of other = none

unfoldable pub op_id_of : Content → ℤ
op_id_of (Content.op_id n) = n
op_id_of other = pos 0

unfoldable pub invoke_tree_size : Server → Message → Message
invoke_tree_size s request = record {
  op_code = request.op_code + 1;
  content = Content.int_result (tree_size s.tree);
}

unfoldable pub invoke_tree_height : Server → Message → Message
invoke_tree_height s request = record {
  op_code = request.op_code + 1;
  content = Content.int_result (tree_height s.tree);
}

unfoldable pub invoke_tree_get : Server → Message → Message
unfolding key_of
invoke_tree_get s request = elim (tree_get s.tree (key_of request.content)) [
  | some value ↦ record {
    op_code = request.op_code + 1;
    content = Content.value (data_to_msg (some value));
  }
  | none ↦ record { op_code = op_error; content = Content.not_set }
]

unfoldable pub invoke_tree_get_keys : Option Str → Server → Message → Message
invoke_tree_get_keys junk s request = elim (tree_get_keys junk s.tree) [
  | some keys ↦ record {
    op_code = request.op_code + 1;
    content = Content.keys (keys_to_msg (some keys));
  }
  | none ↦ record { op_code = op_error; content = Content.not_set }
]

unfoldable pub invoke_write_operation : Server → Message → Server × Message
invoke_write_operation s request =
    let (tasks', task_id) = tasks_add_task (some request) s.tasks in
    (
      record s { tasks = tasks' },
      record { op_code = request.op_code + 1; content = Content.op_id task_id },
    )

unfoldable pub invoke_verify : Server → Message → Message
unfolding op_id_of
invoke_verify s request = record {
  op_code = request.op_code + 1;
  content =
      Content.int_result (task_result_code (tasks_get_result (op_id_of request.content) s.tasks));
}

-- The server, and the response, which is `response` as it was if no case fits.
unfoldable pub invoke2 : Option Str → Server → Message → Message → Server × Message
unfolding is_key is_entry is_op_id invoke_tree_get invoke_tree_get_keys invoke_verify
invoke2 junk s request response =
    if request.op_code == op_size
    then (s, invoke_tree_size s request)
    else if request.op_code == op_height
    then (s, invoke_tree_height s request)
    else if request.op_code == op_del && is_key request.content
    then invoke_write_operation s request
    else if request.op_code == op_get && is_key request.content
    then (s, invoke_tree_get s request)
    else if request.op_code == op_put && is_entry request.content
    then invoke_write_operation s request
    else if request.op_code == op_getkeys
    then (s, invoke_tree_get_keys junk s request)
    else if request.op_code == op_verify && is_op_id request.content
    then (s, invoke_verify s request)
    else (s, response)

unfoldable pub fill_error : Message → Message
fill_error response =
    if response.op_code == op_bad
    then record { op_code = op_error; content = Content.int_result (negsuc 0) }
    else response

-- The response that replaces the request when `invoke` returns 0; `none` when it returns -1. A
-- `message` that is `NULL` or holds no message is `none`.
unfoldable pub invoke : Option Str → Server → Option Message → Server × Option Message
unfolding invoke2 fill_error Message_create
invoke junk s none = (s, none)
invoke junk s (some request) = elim s.tree [
  | none ↦ (s, none)
  | some t ↦
      let (s', response) = invoke2 junk s request Message_create in (s', some (fill_error response))
]

-- `enum ServerRole`; `unset` is `NONE`.
pub data ServerRole : Type 0 where
  primary backup unset : ServerRole

unfoldable pub is_backup : ServerRole → Bool
is_backup backup = true
is_backup other = false

-- What the worker meets outside: the role, the address that Zookeeper has for the backup server,
-- what stood in the variables that `parse_address_port` fills, the socket that `server_connect`
-- returns and the result of `network_send_message` on it.
pub record Network : Type 0 where
  pub role : ServerRole
  pub backup_server : Option Str
  pub stale : Str × ℤ
  pub server_connect : Str → ℤ → ℤ
  pub network_send_message : ℤ → Message → ℤ

-- The result, and the messages that `network_send_message` sent.
unfoldable pub send_to : Network → Str × ℤ → Option Message → ℤ × List Message
send_to net address none = (negsuc 0, [])
send_to net (ip_address, port) (some request) =
    let sockfd = net.server_connect ip_address port in
    if ltb_ℤ sockfd (negsuc 0)
    then (negsuc 0, [])
    else if ltb_ℤ (net.network_send_message sockfd request) (pos 0)
    then (negsuc 0, [])
    else (pos 0, request ∷ [])

-- `parse_address_port` returns 0 or -1, so the test `parse_result < -1` never holds, and a failed
-- call leaves the variables as they were.
unfoldable pub replicate_to_backup_server : Network → Task → ℤ × List Message
unfolding is_backup send_to
replicate_to_backup_server net task =
    if is_backup net.role then (pos 0, []) else elim net.backup_server [
      | none ↦ (negsuc 0, [])
      | some address_port ↦ elim (parse_address_port (some address_port)) [
        | some address ↦ send_to net address (Message_dup task.op_code_and_args)
        | none ↦ send_to net net.stale (Message_dup task.op_code_and_args)
      ]
    ]

-- The server goes on, waits for a task, ends its worker, or calls `exit(1)`.
pub data Outcome : Type 0 where
  runs : Server → Outcome
  idle : Outcome
  ended : Outcome
  exited : Outcome

-- The end of both writes: the tree is changed, the backup is told, the result is set. The outcome,
-- and what was sent to the backup server.
unfoldable pub finish : Network → Server → Task → Option Tree × ℤ → Outcome × List Message
finish net s task (tree', result) =
    let (replicate_result, sent) = replicate_to_backup_server net task in
    if ltb_ℤ result (pos 0)
    then (exited, [])
    else if ltb_ℤ replicate_result (pos 0)
    then (exited, sent)
    else (
      runs (record { tree = tree'; tasks = (tasks_set_result task.task_id successful s.tasks).0 }),
      sent,
    )

unfoldable pub process_tree_del : Network → Server → Task → Outcome × List Message
unfolding key_of
process_tree_del net s task =
    finish net s task (tree_del s.tree (key_of task.op_code_and_args.content))

unfoldable pub process_tree_put : Network → Server → Task → Outcome × List Message
unfolding entry_of
process_tree_put net s task = elim (msg_to_entry (entry_of task.op_code_and_args.content)) [
  | none ↦ (exited, [])
  | some entry ↦ finish net s task (tree_put s.tree entry.key entry.value)
]

unfoldable pub process_task : Network → Server → Task → Outcome × List Message
process_task net s task =
    if task.op_code_and_args.op_code == op_del && is_key task.op_code_and_args.content
    then process_tree_del net s task
    else if task.op_code_and_args.op_code == op_put && is_entry task.op_code_and_args.content
    then process_tree_put net s task
    else (runs (record s { tasks = (tasks_set_result task.task_id failed s.tasks).0 }), [])

-- One iteration of the loop of `process_tasks`.
unfoldable pub process_next : Network → Server → Outcome × List Message
process_next net s = elim (tasks_get_next s.tasks) [
  | waits ↦ (idle, [])
  | stops ↦ (ended, [])
  | next_task task ↦ process_task net s task
]
