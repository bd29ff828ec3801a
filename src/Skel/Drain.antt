-- ===== src/Skel/Drain.antt =====
-- The worker of source/server/tree_skel.c over a whole queue.
use mathlib.Core.Path.{subst}
use sdistr2020_group.Prelude.{
  ◌≡◌, Bool, false, Option, List, [], ◌∷◌, length, refl, ap, ◌∙◌, sym, arith, ℤ,
}
use sdistr2020_group.Tree.{Tree}
use sdistr2020_group.Tasks.{Task, ResultNode, tasks_get_next}
use sdistr2020_group.Tasks.Invariant.{tasks}
use sdistr2020_group.Skel.{
  Server, Network, Outcome, runs, idle, ended, exited, process_task, process_next,
}
use sdistr2020_group.Skel.Worker.{perform, result_node, Served, Ensures, process_task-Served}

-- The next iteration follows one after which the server runs.
unfoldable pub after : (Server → Outcome) → Outcome → Outcome
after next (runs s) = next s
after next idle = idle
after next ended = ended
after next exited = exited

-- The iterations of the loop of `process_tasks`, each with the network that it meets.
unfoldable pub process_all : List Network → Server → Outcome
unfolding after
process_all [] s = runs s
process_all (net ∷ nets) s = after (process_all nets) (process_next net s).0

-- The messages of the queue, performed in the order in which they were queued.
unfoldable pub perform_all : List Task → Option Tree → Option Tree
perform_all [] t = t
perform_all (task ∷ rest) t = perform_all rest (perform task.op_code_and_args t)

-- The results of the queue in front of the others, the newest first.
unfoldable pub recorded : List Task → List ResultNode → List ResultNode
recorded [] rs = rs
recorded (task ∷ rest) rs = recorded rest (result_node task ∷ rs)

-- The end of a run that started with the queue `q` and the results `rs`.
abbrev pub Drained : Option Tree → List Task → List ResultNode → Server → Type 0
Drained p q rs s' =
    (s'.tree ≡ perform_all q p) × (s'.tasks.queue ≡ []) × (s'.tasks.results ≡ recorded q rs)

after-Ensures :
    (P Q : Server → Type 0) (next : Server → Outcome) (o : Outcome)
    → Ensures P o
    → ((s : Server) → P s → Ensures Q (next s))
    → Ensures Q (after next o)
unfolding after
after-Ensures P Q next (runs s) h k = k s h
after-Ensures P Q next idle h k = absurd h
after-Ensures P Q next ended h k = absurd h
after-Ensures P Q next exited h k = tt

pub next_head :
    (net : Network) (p : Option Tree) (last : ℤ) (q : List Task) (rs : List ResultNode) (d : Bool)
    → (task : Task) (rest : List Task) → q ≡ task ∷ rest
    → d ≡ false
    → process_next net (record { tree = p; tasks = tasks last q rs d })
      ≡ process_task net (record { tree = p; tasks = tasks last q rs d }) task
unfolding process_next tasks_get_next
next_head net p last [] rs d task rest e f = cc
next_head net p last (x ∷ q) rs d task rest e f = ground (arith, e, f)

pub process_task-Served_at :
    (net : Network) (p : Option Tree) (last : ℤ) (q : List Task) (rs : List ResultNode) (d : Bool)
    → (task : Task) (rest : List Task) → q ≡ task ∷ rest
    → Ensures
        (Served (record { tree = p; tasks = tasks last q rs d }) task rest)
        (process_task net (record { tree = p; tasks = tasks last q rs d }) task).0
process_task-Served_at net p last q rs d task rest e =
    subst
      (λ x.
        Ensures (Served (record { tree = p; tasks = tasks last x rs d }) task rest)
          (process_task net (record { tree = p; tasks = tasks last x rs d }) task).0)
      (sym e) (process_task-Served net p last task rest rs d)

Drained-Served :
    (s s' : Server) (task : Task) (rest : List Task) (o : Outcome)
    → Served s task rest s'
    → Ensures (Drained s'.tree rest s'.tasks.results) o
    → Ensures (Drained s.tree (task ∷ rest) s.tasks.results) o
unfolding perform_all recorded
Drained-Served s s' task rest (runs t) v h =
    (h.0 ∙ ap (perform_all rest) v.0, h.1, h.2 ∙ ap (recorded rest) v.4)
Drained-Served s s' task rest idle v h = h
Drained-Served s s' task rest ended v h = h
Drained-Served s s' task rest exited v h = tt

-- Whatever the network does, the worker that takes as many tasks as are queued ends in one of two
-- ways: it has called `exit`, or the queue is empty, the result of each task is stored with its number,
-- in the order of the queue and SUCCESSFUL for a deletion and a put, FAILED for any other, and the
-- tree is what the queued messages leave when they are performed in the order of the queue.
pub process_all-Drained :
    (nets : List Network) (s : Server) (q : List Task)
    → s.tasks.queue ≡ q
    → s.tasks.destroyed ≡ false
    → length nets ≡ length q
    → Ensures (Drained s.tree q s.tasks.results) (process_all nets s)
unfolding process_all
process_all-Drained [] s [] e d h = unfold perform_all recorded in (refl, e, refl)
process_all-Drained [] s (task ∷ q) e d h = absurd (omega arith)
process_all-Drained (net ∷ nets) s [] e d h = absurd (omega arith)
process_all-Drained (net ∷ nets) s (task ∷ rest) e d h =
    let served =
      process_task-Served_at net s.tree s.tasks.last_task_id_assigned s.tasks.queue s.tasks.results
        s.tasks.destroyed task rest e in
    let first =
      next_head net s.tree s.tasks.last_task_id_assigned s.tasks.queue s.tasks.results
        s.tasks.destroyed task rest e d in
    after-Ensures (Served s task rest) (Drained s.tree (task ∷ rest) s.tasks.results)
      (process_all nets) (process_next net s).0
      (subst (λ o. Ensures (Served s task rest) o.0) (sym first) served)
      (λ s' v.
        Drained-Served s s' task rest (process_all nets s') v
          (process_all-Drained nets s' rest v.1 (v.3 ∙ d) (omega arith)))
