-- ===== src/Replication/Consistency.antt =====
-- What the backup server of source/server/tree_skel.c answers, against the primary server.
use sdistr2020_group.Replication.Trees.{empty_tree}
use mathlib.Core.Path.{subst}
use mathlib.Core.List.{append-nil}
use mathlib.Core.Path.{ap₂}
use mathlib.Core.List.{append_assoc}
use sdistr2020_group.Replication.Agreement.{InStep}
use sdistr2020_group.Prelude.{◌<◌, zero, suc, negsuc, refl}
use sdistr2020_group.Prelude.{
  ℕ, ◌≡◌, ◌≢◌, Option, List, [], ◌∷◌, ◌++◌, length, length-append, ap, ◌∙◌, sym, arith, ℤ, pos,
  ltb_ℤ, if◌then◌else◌, Bool-cases, inl, inr,
}
use sdistr2020_group.Entry.{Str}
use sdistr2020_group.Tree.{Tree}
use sdistr2020_group.Message.{Message}
use sdistr2020_group.Tasks.{
  Task, ResultNode, TaskResult, tasks_get_result, successful, not_executed,
}
use sdistr2020_group.Tasks.Invariant.{Done}
use sdistr2020_group.Tasks.Results.{tasks_get_result_exact, result_of}
use sdistr2020_group.Skel.{Server}
use sdistr2020_group.Replication.{Pair, Reach}
use sdistr2020_group.Replication.Writes.{AllSuccessful, Performed, perform_writes, messages}
use sdistr2020_group.Replication.Agreement.{Reach-InStep}

-- The answer for a task when the first `n` tasks are done, all with success.
abbrev pub verdict : ℕ → ℤ → TaskResult
verdict n id =
    if ltb_ℤ id (pos 0) then not_executed else if ltb_ℤ id (pos n) then successful else not_executed

result-verdict :
    (rs : List ResultNode) (id : ℤ)
    → Done rs
    → AllSuccessful rs
    → result_of rs id ≡ verdict (length rs) id
unfolding result_of
result-verdict [] id d a = ground arith
result-verdict (r ∷ rs) id d a = ground (arith, result-verdict rs id d.1 a.1, d.0, a.0)

performed-verdict :
    (t0 : Option Tree) (done rest : List Message) (s : Server) (id : ℤ)
    → Performed t0 done rest s
    → tasks_get_result id s.tasks ≡ verdict (length done) id
performed-verdict t0 done rest s id v =
    tasks_get_result_exact s.tasks id v.valid
    ∙ result-verdict s.tasks.results id v.valid.done v.successes
    ∙ ap (λ n. verdict n id) v.results

-- A task that is done has a number below that of the tasks.
verdict_position : (n : ℕ) (id : ℤ) → verdict n id ≢ not_executed → (k : ℕ) × (id ≡ pos k) × (k < n)
verdict_position n (negsuc k) h = absurd (h (ground arith))
verdict_position n (pos k) h = elim (Bool-cases (ltb_ℤ (pos k) (pos n))) [
  | inl low ↦ (k, refl, ground (arith, low))
  | inr high ↦ absurd (h (ground (arith, high)))
]

verdict_below : (n k : ℕ) → k < n → verdict n (pos k) ≡ successful
verdict_below n k h = ground (arith, h)

-- The element at a position, and what stands before and after it.
split_at :
    (ms : List Message) (k : ℕ)
    → k < length ms
    → (before : List Message) × (m : Message) × (after : List Message) × (ms
        ≡ before ++ (m ∷ after))
      × (length before ≡ k)
split_at [] k h = absurd (omega arith)
split_at (x ∷ ms) zero h = ([], x, ms, refl, refl)
split_at (x ∷ ms) (suc k) h =
    let (before, m, after, e, n) = split_at ms k (omega arith) in
    (x ∷ before, m, after, ap (λ xs. x ∷ xs) e, ap suc n)

no_messages : (q : List Task) (ms : List Message) → messages q ≡ ms → q ≡ [] → ms ≡ []
no_messages [] ms e h = sym e
no_messages (x ∷ q) ms e h = cc

-- The parts of the writes, by the queues of the two servers.
requests :
    {s : Pair} (v : InStep s)
    → s.requested
      ≡ v.done ++ ((messages s.backup.tasks.queue ++ s.sent) ++ messages s.primary.tasks.queue)
requests {s} v =
    v.whole
    ∙ ap (λ xs. v.done ++ xs) (sym (append_assoc v.waiting s.sent v.pending))
    ∙ ap₂ (λ w p. v.done ++ ((w ++ s.sent) ++ p)) (sym v.behind.queue) (sym v.ahead.queue)

performed_ahead :
    {s : Pair} (v : InStep s)
    → s.primary.tree
      ≡ perform_writes (v.done ++ (messages s.backup.tasks.queue ++ s.sent)) empty_tree
performed_ahead {s} v =
    v.ahead.tree
    ∙ ap (λ w. perform_writes (v.done ++ (w ++ s.sent)) empty_tree) (sym v.behind.queue)

-- The writes that clients sent to the primary server, in their order, are those that the backup
-- server performed, then those in its queue, those that are under way to it, and those in the queue
-- of the primary server. The backup server's tree is what the first part leaves of an empty tree,
-- and it has a result for each of that part; the primary server's tree is what all but the last part
-- leave of it. This holds of every state that the two servers reach from their start: a client that
-- reads from the backup server sees no other order of the writes, and none left out.
pub backup_behind :
    {junk : Option Str} {s : Pair}
    → Reach junk s
    → let under_way : List Message = messages s.backup.tasks.queue ++ s.sent in
      (done : List Message) × (s.requested ≡ done ++ (under_way ++ messages s.primary.tasks.queue))
      × (s.primary.tree ≡ perform_writes (done ++ under_way) empty_tree)
      × (s.backup.tree ≡ perform_writes done empty_tree)
      × (length s.backup.tasks.results ≡ length done)
backup_behind {junk} {s} r =
    let v = Reach-InStep r in
    (v.done, requests v, performed_ahead v, v.behind.tree, v.behind.results)

-- When no message to the backup server is under way and its queue is empty, it holds the same tree
-- as the primary server, and answers the same to every verification. The two servers are the same
-- since their start: none of them was replaced.
pub backup_agrees :
    {junk : Option Str} {s : Pair}
    → Reach junk s
    → s.sent ≡ []
    → s.backup.tasks.queue ≡ []
    → (s.backup.tree ≡ s.primary.tree)
      × ((id : ℤ) → tasks_get_result id s.backup.tasks ≡ tasks_get_result id s.primary.tasks)
backup_agrees {junk} {s} r e q =
    let v = Reach-InStep r in
    let all : v.done ++ (v.waiting ++ s.sent) ≡ v.done =
      ap (λ x. v.done ++ (x ++ s.sent))
        (no_messages s.backup.tasks.queue v.waiting v.behind.queue q)
      ∙ ap (λ x. v.done ++ x) e
      ∙ append-nil v.done in
    let ahead = subst (λ x. Performed empty_tree x v.pending s.primary) all v.ahead in
    (
      v.behind.tree ∙ sym ahead.tree,
      λ id.
          performed-verdict empty_tree v.done v.waiting s.backup id v.behind
          ∙ sym (performed-verdict empty_tree v.done v.pending s.primary id ahead),
    )

-- An operation for which the backup server has a result was performed with success on both servers:
-- its number is a position among the writes that clients sent, and both trees are what the writes up
-- to that position, the one at it, and then later ones leave of an empty tree, each write once and in
-- the order in which clients sent them.
pub verified_done :
    {junk : Option Str} {s : Pair} (id : ℤ)
    → Reach junk s
    → tasks_get_result id s.backup.tasks ≢ not_executed
    → let under_way : List Message = messages s.backup.tasks.queue ++ s.sent in
      (tasks_get_result id s.backup.tasks ≡ successful)
      × (tasks_get_result id s.primary.tasks ≡ successful)
      × (before : List Message) × (m : Message) × (after : List Message) × (id
          ≡ pos (length before))
      × (s.requested ≡ (before ++ (m ∷ after)) ++ (under_way ++ messages s.primary.tasks.queue))
      × (s.backup.tree ≡ perform_writes (before ++ (m ∷ after)) empty_tree)
      × (s.primary.tree ≡ perform_writes ((before ++ (m ∷ after)) ++ under_way) empty_tree)
verified_done {junk} {s} id r h =
    let v = Reach-InStep r in
    let all = v.done ++ (v.waiting ++ s.sent) in
    let under_way : List Message = messages s.backup.tasks.queue ++ s.sent in
    let b = performed-verdict empty_tree v.done v.waiting s.backup id v.behind in
    let p = performed-verdict empty_tree all v.pending s.primary id v.ahead in
    let (k, at, low) = verdict_position (length v.done) id (λ n. h (b ∙ n)) in
    let (before, m, after, split, n) = split_at v.done k low in
    (
      b ∙ ap (verdict (length v.done)) at ∙ verdict_below (length v.done) k low,
      p
          ∙ ap (verdict (length all)) at
          ∙ verdict_below (length all) k
              (omega (arith, low, length-append v.done (v.waiting ++ s.sent))),
      before,
      m,
      after,
      at ∙ ap pos (sym n),
      requests v ∙ ap (λ xs. xs ++ (under_way ++ messages s.primary.tasks.queue)) split,
      v.behind.tree ∙ ap (λ xs. perform_writes xs empty_tree) split,
      performed_ahead v ∙ ap (λ xs. perform_writes (xs ++ under_way) empty_tree) split,
    )
