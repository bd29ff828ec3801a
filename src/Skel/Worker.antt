-- ===== src/Skel/Worker.antt =====
-- What the thread `process_tasks` of source/server/tree_skel.c does with the queue.
use mathlib.Core.Path.{subst}
use sdistr2020_group.Prelude.{[], ap, ◌∙◌}
use sdistr2020_group.Prelude.{
  suc, ◌≡◌, Bool, true, false, Option, none, some, List, ◌∷◌, length, refl, sym, arith, ℤ, pos,
  ltb_ℤ, ◌==◌, ◌&&◌, if◌then◌else◌, Bool-cases, inl, inr, eqb_ℤ_refl,
}
use sdistr2020_group.Entry.{Entry}
use sdistr2020_group.Tree.{Tree, tree_put, tree_del}
use sdistr2020_group.Message.{Message, msg_to_entry, op_del, op_put}
use sdistr2020_group.Tasks.{
  Tasks, Task, TaskResult, ResultNode, tasks_set_result, successful, failed, is_not_executed,
}
use sdistr2020_group.Tasks.Invariant.{tasks}
use sdistr2020_group.Skel.{
  Server, Network, Outcome, runs, idle, ended, exited, finish, process_tree_del, process_tree_put,
  process_task, is_key, is_entry, key_of, entry_of, replicate_to_backup_server,
}

-- The change of the tree that a queued message stands for.
unfoldable pub perform : Message → Option Tree → Option Tree
perform message t =
    if message.op_code == op_del && is_key message.content
    then (tree_del t (key_of message.content)).0
    else if message.op_code == op_put && is_entry message.content
    then elim (msg_to_entry (entry_of message.content)) [
      | none ↦ t
      | some entry ↦ (tree_put t entry.key entry.value).0
    ]
    else t

abbrev pub is_del : Message → Bool
is_del m = m.op_code == op_del && is_key m.content

abbrev pub is_put : Message → Bool
is_put m = m.op_code == op_put && is_entry m.content

-- The result of a task: a deletion or a put that does not make the server exit succeeds.
abbrev pub result_for : Message → TaskResult
result_for m = if is_del m then successful else if is_put m then successful else failed

abbrev pub result_node : Task → ResultNode
result_node task = record { task_id = task.task_id; task_result = result_for task.op_code_and_args }

-- The queue without the task, and its result in front of the others.
abbrev pub Served : Server → Task → List Task → Server → Type 0
Served s task rest s' =
    (s'.tree ≡ perform task.op_code_and_args s.tree)
    × (s'.tasks.queue ≡ rest)
    × (length s'.tasks.results ≡ suc (length s.tasks.results))
    × (s'.tasks.destroyed ≡ s.tasks.destroyed)
    × (s'.tasks.results ≡ result_node task ∷ s.tasks.results)

-- What setting a result does to the queue and the results.
abbrev Pops : Task → TaskResult → Tasks → List Task → Tasks → Type 0
Pops task r q rest q' =
    (q'.queue ≡ rest)
    × (length q'.results ≡ suc (length q.results))
    × (q'.destroyed ≡ q.destroyed)
    × (q'.results ≡ record { task_id = task.task_id; task_result = r } ∷ q.results)

abbrev pub Ensures : (Server → Type 0) → Outcome → Type 0
Ensures P (runs s) = P s
Ensures P idle = ⊥
Ensures P ended = ⊥
Ensures P exited = Unit

set_result_queue :
    (last : ℤ) (task : Task) (rest : List Task) (rs : List ResultNode) (d : Bool) (r : TaskResult)
    → is_not_executed r ≡ false
    → Pops task r
        (tasks last (task ∷ rest) rs d)
        rest
        (tasks_set_result task.task_id r (tasks last (task ∷ rest) rs d)).0
unfolding tasks_set_result
set_result_queue last task rest rs d r h = ground (arith, eqb_ℤ_refl task.task_id)

finish-Served :
    (net : Network) (p : Option Tree) (q : Tasks) (task : Task) (rest : List Task)
    → (w : Option Tree × ℤ) → w.0 ≡ perform task.op_code_and_args p
    → result_for task.op_code_and_args ≡ successful
    → Pops task successful q rest (tasks_set_result task.task_id successful q).0
    → Ensures
        (Served (record { tree = p; tasks = q }) task rest)
        (finish net (record { tree = p; tasks = q }) task w).0
unfolding finish
finish-Served net p q task rest w e result h = elim (Bool-cases (ltb_ℤ w.1 (pos 0))) [
  | inl bad ↦ rw bad tt
  | inr good ↦ elim (Bool-cases (ltb_ℤ (replicate_to_backup_server net task).0 (pos 0))) [
    | inl lost ↦ rw (good, lost) tt
    | inr sent ↦
        rw (good, sent)
          (
            e,
            h.0,
            h.1,
            h.2,
            h.3
                ∙ ap (λ r. record { task_id = task.task_id; task_result = r } ∷ q.results)
                    (sym result),
          )
  ]
]

pub put_refused :
    (net : Network) (s : Server) (task : Task)
    → msg_to_entry (entry_of task.op_code_and_args.content) ≡ none
    → process_tree_put net s task ≡ (exited, [])
unfolding process_tree_put
put_refused net s task e = rw (e, process_tree_put) refl

pub put_accepted :
    (net : Network) (s : Server) (task : Task) (entry : Entry)
    → msg_to_entry (entry_of task.op_code_and_args.content) ≡ some entry
    → process_tree_put net s task ≡ finish net s task (tree_put s.tree entry.key entry.value)
unfolding process_tree_put
put_accepted net s task entry e = rw (e, process_tree_put) refl

put-Served :
    (net : Network) (p : Option Tree) (q : Tasks) (task : Task) (rest : List Task)
    → is_del task.op_code_and_args ≡ false
    → is_put task.op_code_and_args ≡ true
    → Pops task successful q rest (tasks_set_result task.task_id successful q).0
    → (e : Option Entry) → msg_to_entry (entry_of task.op_code_and_args.content) ≡ e
    → Ensures
        (Served (record { tree = p; tasks = q }) task rest)
        (process_tree_put net (record { tree = p; tasks = q }) task).0
put-Served net p q task rest n y h none e =
    subst (λ o. Ensures (Served (record { tree = p; tasks = q }) task rest) o.0)
      (sym (put_refused net (record { tree = p; tasks = q }) task e)) tt
put-Served net p q task rest n y h (some entry) e =
    subst (λ o. Ensures (Served (record { tree = p; tasks = q }) task rest) o.0)
      (sym (put_accepted net (record { tree = p; tasks = q }) task entry e))
      (finish-Served net p q task rest (tree_put p entry.key entry.value)
        (unfold perform in rw n (rw y (rw e refl))) (rw n (rw y refl)) h)

-- The next task, if its write does not fail, changes the tree as its message says; it leaves the
-- queue, and its result is stored with its number.
pub process_task-Served :
    (net : Network) (p : Option Tree)
    → (last : ℤ) (task : Task) (rest : List Task) (rs : List ResultNode) (d : Bool)
    → Ensures
        (Served (record { tree = p; tasks = tasks last (task ∷ rest) rs d }) task rest)
        (process_task net (record { tree = p; tasks = tasks last (task ∷ rest) rs d }) task).0
unfolding process_task process_tree_del
process_task-Served net p last task rest rs d =
    let q : Tasks = tasks last (task ∷ rest) rs d in
    let good = set_result_queue last task rest rs d successful (unfold is_not_executed in refl) in
    let bad = set_result_queue last task rest rs d failed (unfold is_not_executed in refl) in
    elim (Bool-cases (is_del task.op_code_and_args)) [
      | inl del ↦ rw del (
          finish-Served net p q task rest (tree_del p (key_of task.op_code_and_args.content))
            (unfold perform in rw del refl) (rw del refl) good)
      | inr not_del ↦ elim (Bool-cases (is_put task.op_code_and_args)) [
        | inl put ↦ rw not_del (rw put (put-Served net p q task rest not_del put good _ refl))
        | inr not_put ↦ rw not_del (
            rw not_put (
              (unfold perform in rw not_del (rw not_put refl)),
              bad.0,
              bad.1,
              bad.2,
              rw not_del (rw not_put bad.3),
            ))
      ]
    ]
