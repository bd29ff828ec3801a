-- ===== src/Tasks/Invariant.antt =====
-- The order of the task identifiers in source/server/tasks-private.c: the results are those of the
-- oldest tasks, the queue holds the others, oldest first, and no identifier is missing or repeated.
use sdistr2020_group.Prelude.{
  ℕ, zero, suc, ◌+◌, ◌≡◌, some, List, [], ◌∷◌, refl, ap, sym, ◌∙◌, arith, ℤ, pos, ◌+ℤ◌, sub_ℕ,
  length, Bool, Bool-cases, inl, inr, eqb_ℤ→eq, eqb_ℤ,
}
use native.Mathlib.Numerals.{add-one}
use sdistr2020_group.Message.{Message, Message_dup}
use sdistr2020_group.Tasks.{
  Tasks, Task, ResultNode, TaskResult, enqueue, tasks_add_task, tasks_set_result, record_result,
  tasks_init, not_executed,
}

-- The results of the tasks 0, …, newest first.
abbrev pub Done : List ResultNode → Type 0
Done [] = Unit
Done (node ∷ previous) = (node.task_id ≡ pos (length previous)) × Done previous

-- The tasks `n`, `n + 1`, …
abbrev pub Queued : ℕ → List Task → Type 0
Queued n [] = Unit
Queued n (task ∷ rest) = (task.task_id ≡ pos n) × Queued (n + 1) rest

pub record IsValid (s : Tasks) : Type 0 where
  pub done : Done s.results
  pub queued : Queued (length s.results) s.queue
  pub last : s.last_task_id_assigned ≡ sub_ℕ (length s.results + length s.queue) 1

pub tasks_init-IsValid : IsValid tasks_init
unfolding tasks_init
tasks_init-IsValid = record { done = tt; queued = tt; last = refl }

pub length-enqueue : (q : List Task) (t : Task) → length (enqueue q t) ≡ suc (length q)
unfolding enqueue
length-enqueue [] t = refl
length-enqueue (x ∷ q) t = ap suc (length-enqueue q t)

enqueue-Queued :
    (n : ℕ) (q : List Task) (t : Task)
    → Queued n q
    → t.task_id ≡ pos (n + length q)
    → Queued n (enqueue q t)
unfolding enqueue
enqueue-Queued n [] t h e = ground arith
enqueue-Queued n (x ∷ q) t h e = (h.0, enqueue-Queued (n + 1) q t h.1 (ground arith))

next_id : (n : ℕ) → sub_ℕ n 1 +ℤ pos 1 ≡ pos n
unfolding ◌+ℤ◌
next_id zero = refl
next_id (suc n) = ground arith

grow : (a b c : ℕ) → c ≡ suc b → pos (a + b) ≡ sub_ℕ (a + c) 1
grow a b c h = ground arith

-- Queueing a task gives it the next identifier, keeps the order and answers the identifier.
pub tasks_add_task-IsValid :
    (s : Tasks) (m : Message)
    → IsValid s
    → IsValid (tasks_add_task (some m) s).0
      × ((tasks_add_task (some m) s).1 ≡ pos (length s.results + length s.queue))
      × ((tasks_add_task (some m) s).0.results ≡ s.results)
unfolding tasks_add_task Message_dup
tasks_add_task-IsValid s m v =
    let id : s.last_task_id_assigned +ℤ pos 1 ≡ pos (length s.results + length s.queue) =
      ap (λ z. z +ℤ pos 1) v.last ∙ next_id (length s.results + length s.queue) in
    (
      record {
        done = v.done;
        queued = enqueue-Queued (length s.results) s.queue _ v.queued id;
        last = id ∙ grow (length s.results) (length s.queue) _ (length-enqueue s.queue _);
      },
      id,
      refl,
    )

shift : (a b : ℕ) → sub_ℕ (a + suc b) 1 ≡ sub_ℕ (suc a + b) 1
shift a b = ground arith

abbrev pub tasks : ℤ → List Task → List ResultNode → Bool → Tasks
tasks last queue results destroyed = record {
  last_task_id_assigned = last;
  queue = queue;
  results = results;
  destroyed = destroyed;
}

record_result-IsValid :
    (last : ℤ) (task : Task) (rest : List Task) (rs : List ResultNode) (d : Bool)
    → (id : ℤ) (r : TaskResult) → IsValid (tasks last (task ∷ rest) rs d)
    → task.task_id ≡ id
    → IsValid (record_result (tasks last (task ∷ rest) rs d) rest id r)
unfolding record_result
record_result-IsValid last task rest rs d id r v e = record {
  done = (sym e ∙ v.queued.0, v.done);
  queued = rw (← add-one) v.queued.1;
  last = v.last ∙ shift (length rs) (length rest);
}

set_result_cases :
    (last : ℤ) (q : List Task) (rs : List ResultNode) (d : Bool) (id : ℤ) (r : TaskResult)
    → IsValid (tasks last q rs d)
    → IsValid (tasks_set_result id r (tasks last q rs d)).0
unfolding tasks_set_result
set_result_cases last [] rs d id r v = v
set_result_cases last (task ∷ rest) rs d id not_executed v =
    elim (Bool-cases (eqb_ℤ task.task_id id)) [ inl same ↦ rw same v | inr other ↦ rw other v ]
set_result_cases last (task ∷ rest) rs d id r v = elim (Bool-cases (eqb_ℤ task.task_id id)) [
  | inl same ↦
      rw same (record_result-IsValid last task rest rs d id r v (eqb_ℤ→eq task.task_id id same))
  | inr other ↦ rw other v
]

-- A result that is set, or refused, keeps the order of the identifiers.
pub tasks_set_result-IsValid :
    (s : Tasks) (id : ℤ) (r : TaskResult) → IsValid s → IsValid (tasks_set_result id r s).0
tasks_set_result-IsValid s id r v =
    set_result_cases s.last_task_id_assigned s.queue s.results s.destroyed id r v
