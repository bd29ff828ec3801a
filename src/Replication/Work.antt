-- ===== src/Replication/Work.antt =====
-- An iteration of the worker of source/server/tree_skel.c moves the oldest write of the queue to
-- the end of the history.
use sdistr2020_group.Replication.Sends.{due, Succeeds, Replicated, write-Replicated}
use mathlib.Core.Path.{subst}
use sdistr2020_group.Prelude.{
  ◌≡◌, Bool, false, Option, List, [], ◌∷◌, ◌++◌, length-append, refl, ap, ◌∙◌, sym, arith, ℤ,
  eqb_ℤ_refl,
}
use sdistr2020_group.Tree.{Tree}
use sdistr2020_group.Message.{Message}
use sdistr2020_group.Tasks.{
  Tasks, Task, ResultNode, tasks_set_result, tasks_get_next, successful, is_not_executed,
}
use sdistr2020_group.Tasks.Invariant
use sdistr2020_group.Tasks.Invariant.{tasks, tasks_set_result-IsValid}
use sdistr2020_group.Skel.{Outcome}
use sdistr2020_group.Skel.{Server, Network, runs, idle, process_task, process_next}
use sdistr2020_group.Skel.Worker.{perform, Served, Ensures}
use sdistr2020_group.Skel.Drain.{next_head, process_task-Served_at}
use sdistr2020_group.Replication.Writes.{
  messages, AllWrites, AllSuccessful, Performed, perform_writes-append,
}

-- The result that is set for the head of the queue.
success-results :
    (last : ℤ) (task : Task) (rest : List Task) (rs : List ResultNode) (d : Bool)
    → (tasks_set_result task.task_id successful (tasks last (task ∷ rest) rs d)).0.results
      ≡ record { task_id = task.task_id; task_result = successful } ∷ rs
unfolding tasks_set_result is_not_executed
success-results last task rest rs d = ground (arith, eqb_ℤ_refl task.task_id)

-- The head of the queue moved to the end of the history, and was sent by a server that is not the
-- backup.
unfoldable pub Moved :
    Network → Option Tree → List Message → List Message → Server → List Message → Type 0
Moved net t0 done rest s' sent =
    (m : Message) × (rest' : List Message) × (rest ≡ m ∷ rest')
    × (sent ≡ due net.role m)
    × Performed t0 (done ++ (m ∷ [])) rest' s'

empty_at :
    (net : Network) (p : Option Tree) (last : ℤ) (q : List Task) (rs : List ResultNode) (d : Bool)
    → q ≡ []
    → d ≡ false
    → process_next net (record { tree = p; tasks = tasks last q rs d }) ≡ (idle, [])
unfolding process_next tasks_get_next
empty_at net p last [] rs d e f = ground (arith, f)
empty_at net p last (x ∷ q) rs d e f = cc

empty_idle :
    (net : Network) (s : Server)
    → s.tasks.queue ≡ []
    → s.tasks.destroyed ≡ false
    → process_next net s ≡ (idle, [])
empty_idle net s e f =
    empty_at net s.tree s.tasks.last_task_id_assigned s.tasks.queue s.tasks.results
      s.tasks.destroyed e f

not_idle :
    {s : Server} {sent : List Message} (o : Outcome × List Message)
    → o ≡ (idle, [])
    → o ≡ (runs s, sent)
    → ⊥
not_idle {s} o e f = runs_differs (ap (λ x. x.0) (sym e) ∙ ap (λ x. x.0) f)
  where
    runs_differs : idle ≡ runs s → ⊥
    runs_differs e = cc

moved :
    (net : Network) (t0 : Option Tree) (done rest : List Message) (s s' : Server)
    (sent : List Message) (task : Task) (q : List Task)
    → s.tasks.queue ≡ task ∷ q
    → Performed t0 done rest s
    → process_next net s ≡ (runs s', sent)
    → Moved net t0 done rest s' sent
unfolding Moved
moved net t0 done rest s s' sent task q e v r =
    let st = s.tasks in
    let first =
      next_head net s.tree st.last_task_id_assigned st.queue st.results st.destroyed task q e
        v.alive in
    let out : process_task net s task ≡ (runs s', sent) = sym first ∙ r in
    let served : Served s task q s' =
      subst (λ o. Ensures (Served s task q) o.0) out
        (process_task-Served_at net s.tree st.last_task_id_assigned st.queue st.results st.destroyed
          task q e) in
    let split : rest ≡ task.op_code_and_args ∷ messages q = sym v.queue ∙ ap messages e in
    let writes = subst AllWrites split v.writes in
    let (succeeds, sends) : Succeeds s task s' × (sent ≡ due net.role task.op_code_and_args) =
      subst (Replicated net s task) out (write-Replicated net s task writes.0) in
    let results : s'.tasks.results
        ≡ record { task_id = task.task_id; task_result = successful } ∷ st.results =
      ap (λ (z : Tasks). z.results) succeeds
      ∙ ap
          (λ x.
            (tasks_set_result task.task_id successful
              (tasks st.last_task_id_assigned x st.results st.destroyed)).0.results)
          e
      ∙ success-results st.last_task_id_assigned task q st.results st.destroyed in
    (
      task.op_code_and_args,
      messages q,
      split,
      sends,
      record {
        tree =
            served.0
            ∙ ap (perform task.op_code_and_args) v.tree
            ∙ sym (perform_writes-append done (task.op_code_and_args ∷ []) t0);
        queue = ap messages served.1;
        writes = writes.2;
        results =
            omega (arith, served.2, v.results, length-append done (task.op_code_and_args ∷ []));
        successes = subst AllSuccessful (sym results) (refl, v.successes);
        alive = served.3 ∙ v.alive;
        valid =
            subst Invariant.IsValid (sym succeeds)
              (tasks_set_result-IsValid st task.task_id successful v.valid);
      },
    )

-- An iteration of the worker that goes on performs the oldest write of the queue.
pub work-Moved :
    (net : Network) (t0 : Option Tree) (done rest : List Message) (s s' : Server)
    (sent : List Message)
    → Performed t0 done rest s
    → process_next net s ≡ (runs s', sent)
    → Moved net t0 done rest s' sent
work-Moved net t0 done rest s s' sent v r = go s.tasks.queue refl
  where
    go : (q : List Task) → s.tasks.queue ≡ q → Moved net t0 done rest s' sent
    go [] e = absurd (not_idle (process_next net s) (empty_idle net s e v.alive) r)
    go (task ∷ q) e = moved net t0 done rest s s' sent task q e v r
