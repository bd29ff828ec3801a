-- ===== src/Tasks.antt =====
-- source/server/tasks-private.c: the queue of write operations and the list of their results. Each
-- function is one step, as its mutex makes it; the fields are the global variables of the file.
-- The counter is an `int` that does not overflow.
pub mod Invariant
pub mod Results
use sdistr2020_group.Prelude.{
  ℕ, Bool, true, false, Option, none, some, List, [], ◌∷◌, ℤ, pos, negsuc, ◌+ℤ◌, ltb_ℤ, eqb_ℤ, not,
  if◌then◌else◌, ◌||◌, ◌&&◌,
}
use sdistr2020_group.Message.{Message, Message_dup}

-- `struct task_t`
pub record Task : Type 0 where
  pub task_id : ℤ
  pub op_code_and_args : Message

pub data TaskResult : Type 0 where
  successful not_executed failed : TaskResult

-- The numbers of `enum TaskResult`, which a client sees.
unfoldable pub task_result_code : TaskResult → ℤ
task_result_code successful = pos 1
task_result_code not_executed = pos 0
task_result_code failed = negsuc 0

-- `struct task_result_list_node_t`; the list is linked by `previous`, the newest result first.
pub record ResultNode : Type 0 where
  pub task_id : ℤ
  pub task_result : TaskResult

pub record Tasks : Type 0 where
  pub last_task_id_assigned : ℤ
  pub queue : List Task
  pub results : List ResultNode
  pub destroyed : Bool

unfoldable pub tasks_init : Tasks
tasks_init = record {
  last_task_id_assigned = negsuc 0;
  queue = [];
  results = [];
  destroyed = false;
}

-- The new task, if the message can be copied, and the counter.
unfoldable pub task_create : Message → ℤ → Option Task × ℤ
unfolding ◌+ℤ◌
task_create op_code_and_args last = elim (Message_dup op_code_and_args) [
  | none ↦ (none, last)
  | some copied ↦
      (some (record { task_id = last +ℤ pos 1; op_code_and_args = copied }), last +ℤ pos 1)
]

-- The walk to the last node, and the link to the new one.
unfoldable pub enqueue : List Task → Task → List Task
enqueue [] task = task ∷ []
enqueue (head ∷ next) task = head ∷ enqueue next task

unfoldable pub tasks_add_created : Tasks → Option Task × ℤ → Tasks × ℤ
unfolding enqueue
tasks_add_created s (none, last) = (s, negsuc 0)
tasks_add_created s (some task, last) =
    (record s { last_task_id_assigned = last; queue = enqueue s.queue task }, task.task_id)

unfoldable pub tasks_add_task : Option Message → Tasks → Tasks × ℤ
unfolding task_create tasks_add_created
tasks_add_task none s = (s, negsuc 0)
tasks_add_task (some op_code_and_args) s =
    tasks_add_created s (task_create op_code_and_args s.last_task_id_assigned)

-- How `tasks_get_next` comes back: not yet, with `NULL`, or with the head of the queue.
pub data Next : Type 0 where
  waits : Next
  stops : Next
  next_task : Task → Next

unfoldable pub tasks_get_next : Tasks → Next
tasks_get_next s =
    if s.destroyed then stops else elim s.queue [ [] ↦ waits | task ∷ rest ↦ next_task task ]

unfoldable pub is_not_executed : TaskResult → Bool
is_not_executed not_executed = true
is_not_executed other = false

-- The push on the list of results and the pop from the queue.
unfoldable pub record_result : Tasks → List Task → ℤ → TaskResult → Tasks
record_result s rest task_id task_result = record s {
  queue = rest;
  results = record { task_id = task_id; task_result = task_result } ∷ s.results;
}

unfoldable pub tasks_set_result : ℤ → TaskResult → Tasks → Tasks × ℤ
unfolding is_not_executed record_result
tasks_set_result task_id task_result s = elim s.queue [
  | [] ↦ (s, negsuc 0)
  | task ∷ rest ↦
      if not (eqb_ℤ task.task_id task_id)
      then (s, negsuc 0)
      else if is_not_executed task_result
      then (s, negsuc 0)
      else (record_result s rest task_id task_result, pos 0)
]

-- The loop over the results, which ends at the first one that is older than the task.
unfoldable pub result_walk : List ResultNode → ℤ → TaskResult
result_walk [] task_id = not_executed
result_walk (node ∷ previous) task_id =
    let rest = result_walk previous task_id in
    if ltb_ℤ node.task_id task_id
    then not_executed
    else if eqb_ℤ node.task_id task_id
    then node.task_result
    else rest

unfoldable pub tasks_get_result : ℤ → Tasks → TaskResult
unfolding result_walk
tasks_get_result task_id s = result_walk s.results task_id

unfoldable pub tasks_destroy : Tasks → Tasks
tasks_destroy s = record {
  last_task_id_assigned = negsuc 0;
  queue = [];
  results = [];
  destroyed = true;
}
