-- ===== src/Tasks/Results.antt =====
-- What `tasks_get_result` of source/server/tasks-private.c answers, and that an answer stays.
use sdistr2020_group.Prelude.{
  ℕ, ◌≤◌, ◌≡◌, ◌≢◌, some, List, [], ◌∷◌, refl, ap, sym, ◌∙◌, arith, ℤ, pos, eqb_ℤ, ltb_ℤ,
  eqb_ℤ_refl, length, Bool, true, false, Bool-cases, inl, inr, if◌then◌else◌,
}
use sdistr2020_group.Message.{Message}
use sdistr2020_group.Tasks.{
  Tasks, Task, ResultNode, TaskResult, not_executed, successful, failed, result_walk,
  tasks_get_result, tasks_add_task, tasks_set_result, is_not_executed, tasks_get_next, next_task,
}
use sdistr2020_group.Tasks.Invariant.{
  Done, IsValid, tasks, tasks_add_task-IsValid, tasks_set_result-IsValid,
}

-- The result that stands for the task in the list, wherever that is.
unfoldable pub result_of : List ResultNode → ℤ → TaskResult
result_of [] id = not_executed
result_of (node ∷ previous) id =
    let rest = result_of previous id in if eqb_ℤ node.task_id id then node.task_result else rest

-- No node holds an identifier as high as the number of nodes.
pub past_end :
    (rs : List ResultNode) (id : ℤ)
    → Done rs
    → ltb_ℤ id (pos (length rs)) ≡ false
    → result_of rs id ≡ not_executed
unfolding result_of
past_end [] id d h = refl
past_end (node ∷ rs) id d h = ground (arith, past_end rs id, d)

walk_exact : (rs : List ResultNode) (id : ℤ) → Done rs → result_walk rs id ≡ result_of rs id
unfolding result_walk result_of
walk_exact [] id d = refl
walk_exact (node ∷ rs) id d = ground (arith, walk_exact rs id, past_end rs id)

-- The walk that stops early answers what the search of the whole list answers.
pub tasks_get_result_exact :
    (s : Tasks) (id : ℤ) → IsValid s → tasks_get_result id s ≡ result_of s.results id
unfolding tasks_get_result
tasks_get_result_exact s id v = walk_exact s.results id v.done

-- A result that is set for a task leaves the results of the other tasks.
set_keeps :
    (last : ℤ) (q : List Task) (rs : List ResultNode) (d : Bool) (id k : ℤ) (r : TaskResult)
    → IsValid (tasks last q rs d)
    → result_of rs k ≢ not_executed
    → result_of (tasks_set_result id r (tasks last q rs d)).0.results k ≡ result_of rs k
unfolding tasks_set_result result_of
set_keeps last [] rs d id k r v h = refl
set_keeps last (task ∷ rest) rs d id k r v h = elim (Bool-cases (eqb_ℤ task.task_id id)) [
  | inr other ↦ rw other refl
  | inl same ↦ elim (Bool-cases (eqb_ℤ id k)) [
    | inl here ↦
        absurd
          (h (past_end rs k v.done (id_past (length rs) task.task_id id k v.queued.0 same here)))
    | inr there ↦ elim (Bool-cases (is_not_executed r)) [
      | inl nothing ↦ rw (same, nothing) refl
      | inr result ↦ rw (same, result) (rw there refl)
    ]
  ]
]
  where
    id_past :
        (n : ℕ) (a b c : ℤ)
        → a ≡ pos n
        → eqb_ℤ a b ≡ true
        → eqb_ℤ b c ≡ true
        → ltb_ℤ c (pos n) ≡ false
    id_past n a b c e f g = ground arith

-- One call of a thread of the server: a client's task is queued, or the worker sets a result.
pub data Step : Tasks → Tasks → Type 0 where
  add : (s : Tasks) (m : Message) → Step s (tasks_add_task (some m) s).0
  set_result : (s : Tasks) (id : ℤ) (r : TaskResult) → Step s (tasks_set_result id r s).0

pub data Reach (s : Tasks) : Tasks → Type 0 where
  here : Reach s s
  next : {t u : Tasks} → Reach s t → Step t u → Reach s u

pub Step-IsValid : {s t : Tasks} → Step s t → IsValid s → IsValid t
Step-IsValid (add s m) v = (tasks_add_task-IsValid s m v).0
Step-IsValid (set_result s id r) v = tasks_set_result-IsValid s id r v

pub Reach-IsValid : {s t : Tasks} → Reach s t → IsValid s → IsValid t
Reach-IsValid here v = v
Reach-IsValid (next r st) v = Step-IsValid st (Reach-IsValid r v)

Step-keeps :
    {s t : Tasks} (k : ℤ)
    → Step s t
    → IsValid s
    → result_of s.results k ≢ not_executed
    → result_of t.results k ≡ result_of s.results k
Step-keeps k (add s m) v h = ap (λ rs. result_of rs k) (tasks_add_task-IsValid s m v).2
Step-keeps k (set_result s id r) v h =
    set_keeps s.last_task_id_assigned s.queue s.results s.destroyed id k r v h

Reach-keeps :
    {s t : Tasks} (k : ℤ)
    → Reach s t
    → IsValid s
    → result_of s.results k ≢ not_executed
    → result_of t.results k ≡ result_of s.results k
Reach-keeps k here v h = refl
Reach-keeps k (next r st) v h =
    let e = Reach-keeps k r v h in Step-keeps k st (Reach-IsValid r v) (λ n. h (sym e ∙ n)) ∙ e

-- Once a task has a result, a verification answers that result for as long as the server runs,
-- whatever tasks are queued and done in between.
pub result_stays :
    {s t : Tasks} (id : ℤ)
    → Reach s t
    → IsValid s
    → tasks_get_result id s ≢ not_executed
    → tasks_get_result id t ≡ tasks_get_result id s
result_stays {s} {t} id r v h =
    tasks_get_result_exact t id (Reach-IsValid r v)
    ∙ Reach-keeps id r v (λ n. h (tasks_get_result_exact s id v ∙ n))
    ∙ sym (tasks_get_result_exact s id v)

not_yet :
    (rs : List ResultNode) (n : ℕ) → Done rs → length rs ≤ n → result_of rs (pos n) ≡ not_executed
not_yet rs n d h = past_end rs (pos n) d (ground arith)

-- A new task has an identifier of its own, for which a verification answers NOT_EXECUTED.
pub new_task_not_executed :
    (s : Tasks) (m : Message)
    → IsValid s
    → tasks_get_result (tasks_add_task (some m) s).1 (tasks_add_task (some m) s).0 ≡ not_executed
new_task_not_executed s m v =
    let (valid, id, kept) = tasks_add_task-IsValid s m v in
    rw id (tasks_get_result_exact _ _ valid ∙ rw kept (not_yet s.results _ v.done (omega arith)))

executed : (r : TaskResult) → r ≢ not_executed → is_not_executed r ≡ false
unfolding is_not_executed
executed not_executed h = absurd (h refl)
executed successful h = refl
executed failed h = refl

-- What a step of the worker leaves: the code, the queue and the answer to a verification.
abbrev pub IsServed : Tasks → Task → TaskResult → Tasks × ℤ → Type 0
IsServed s task r (s', code) =
    (code ≡ pos 0) × (s.queue ≡ task ∷ s'.queue) × (tasks_get_result task.task_id s' ≡ r)

served :
    (last : ℤ) (q : List Task) (rs : List ResultNode) (d : Bool) (task : Task) (r : TaskResult)
    → tasks_get_next (tasks last q rs d) ≡ next_task task
    → r ≢ not_executed
    → IsServed (tasks last q rs d) task r (tasks_set_result task.task_id r (tasks last q rs d))
unfolding tasks_get_next tasks_set_result tasks_get_result
served last [] rs d task r g h = ground arith
served last (x ∷ rest) rs d task r g h = ground (arith, executed r h, eqb_ℤ_refl task.task_id)

-- The task that the worker is given is the head of the queue; setting its result, SUCCESSFUL or
-- FAILED, answers 0 and takes it off the queue, and a verification of it answers that result.
pub worker_cycle :
    (s : Tasks) (task : Task) (r : TaskResult)
    → tasks_get_next s ≡ next_task task
    → r ≢ not_executed
    → IsServed s task r (tasks_set_result task.task_id r s)
worker_cycle s task r g h = served s.last_task_id_assigned s.queue s.results s.destroyed task r g h
