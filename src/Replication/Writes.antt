-- ===== src/Replication/Writes.antt =====
-- What a request and an iteration of the worker of source/server/tree_skel.c do to the history of
-- the writes.
use mathlib.Core.Path.{subst, subst₂, ap₂}
use mathlib.Core.List.{append-nil}
use sdistr2020_group.Prelude.{
  suc, ◌≡◌, Bool, true, false, Option, some, is_null, List, [], ◌∷◌, ◌++◌, length, refl, ap, ◌∙◌,
  sym, ℤ, ◌==◌, if◌then◌else◌, Bool-cases, inl, inr,
}
use sdistr2020_group.Entry.{Str}
use sdistr2020_group.Tree.{Tree}
use sdistr2020_group.Message.{Content, content_dup, Message, Message_dup, op_del, op_put}
use sdistr2020_group.Message.Recopied.{copied, IsCopied, copied-IsCopied}
use sdistr2020_group.Tasks.{Tasks, Task, ResultNode, enqueue, tasks_add_task, successful}
use sdistr2020_group.Tasks.Invariant
use sdistr2020_group.Tasks.Invariant.{
  tasks, tasks_add_task-IsValid, tasks_set_result-IsValid, length-enqueue,
}
use sdistr2020_group.Skel.{is_key, is_entry}
use sdistr2020_group.Skel.{Server, invoke}
use sdistr2020_group.Skel.Requests.{is_write, invoke_state}
use sdistr2020_group.Skel.Worker.{perform}

-- The writes, performed one after the other.
abbrev pub perform_writes : List Message → Option Tree → Option Tree
perform_writes [] t = t
perform_writes (m ∷ ms) t = perform_writes ms (perform m t)

pub perform_writes-append :
    (xs ys : List Message) (t : Option Tree)
    → perform_writes (xs ++ ys) t ≡ perform_writes ys (perform_writes xs t)
perform_writes-append [] ys t = refl
perform_writes-append (x ∷ xs) ys t = perform_writes-append xs ys (perform x t)

-- The messages of a queue.
abbrev pub messages : List Task → List Message
messages [] = []
messages (task ∷ rest) = task.op_code_and_args ∷ messages rest

pub messages-enqueue :
    (q : List Task) (t : Task) → messages (enqueue q t) ≡ messages q ++ (t.op_code_and_args ∷ [])
unfolding enqueue
messages-enqueue [] t = refl
messages-enqueue (x ∷ q) t = ap (λ ms. x.op_code_and_args ∷ ms) (messages-enqueue q t)

pub length-messages : (q : List Task) → length (messages q) ≡ length q
length-messages [] = refl
length-messages (x ∷ q) = ap suc (length-messages q)

-- Writes, each its own copy.
abbrev pub AllWrites : List Message → Type 0
AllWrites [] = Unit
AllWrites (m ∷ ms) = (is_write m ≡ true) × IsCopied m × AllWrites ms

pub AllWrites-append : (xs ys : List Message) → AllWrites xs → AllWrites ys → AllWrites (xs ++ ys)
AllWrites-append [] ys a b = b
AllWrites-append (x ∷ xs) ys a b = (a.0, a.1, AllWrites-append xs ys a.2 b)

abbrev pub AllSuccessful : List ResultNode → Type 0
AllSuccessful [] = Unit
AllSuccessful (r ∷ rs) = (r.task_result ≡ successful) × AllSuccessful rs

-- A server that performed `done` in this order, on an empty tree, and has `rest` in its queue.
pub record Performed (t0 : Option Tree) (done rest : List Message) (s : Server) : Type 0 where
  pub tree : s.tree ≡ perform_writes done t0
  pub queue : messages s.tasks.queue ≡ rest
  pub writes : AllWrites rest
  pub results : length s.tasks.results ≡ length done
  pub successes : AllSuccessful s.tasks.results
  pub alive : s.tasks.destroyed ≡ false
  pub valid : Invariant.IsValid s.tasks

-- What a request adds to the queue.
abbrev pub queued_by : Message → List Message
queued_by m = if is_write m then copied m ∷ [] else []

case_kept :
    (c : Content) → (is_key (content_dup c) ≡ is_key c) × (is_entry (content_dup c) ≡ is_entry c)
unfolding content_dup is_key is_entry
case_kept Content.not_set = (refl, refl)
case_kept (Content.key k) = (refl, refl)
case_kept (Content.value m) = (refl, refl)
case_kept (Content.entry m) = (refl, refl)
case_kept (Content.keys m) = (refl, refl)
case_kept (Content.int_result n) = (refl, refl)
case_kept (Content.op_id n) = (refl, refl)

is_write-copied : (m : Message) → is_write (copied m) ≡ is_write m
unfolding is_write
is_write-copied m =
    ap₂ (λ k e. if m.op_code == op_del then k else if m.op_code == op_put then e else false)
      (case_kept m.content).0 (case_kept m.content).1

-- A write that is queued is performed last.
add-Performed :
    (t0 p : Option Tree) (done rest : List Message) (q : Tasks) (m : Message)
    → is_write m ≡ true
    → Performed t0 done rest (record { tree = p; tasks = q })
    → Performed t0 done
        (rest ++ (copied m ∷ []))
        (record { tree = p; tasks = (tasks_add_task (some m) q).0 })
unfolding tasks_add_task Message_dup
add-Performed t0 p done rest q m w v =
    let (valid, id, kept) = tasks_add_task-IsValid q m v.valid in
    record {
      tree = v.tree;
      queue =
          added q.last_task_id_assigned q.queue q.results q.destroyed m
          ∙ ap (λ ms. ms ++ (copied m ∷ [])) v.queue;
      writes =
          AllWrites-append rest (copied m ∷ []) v.writes
            (is_write-copied m ∙ w, copied-IsCopied m, tt);
      results = ap length kept ∙ v.results;
      successes = subst AllSuccessful (sym kept) v.successes;
      alive = still q.last_task_id_assigned q.queue q.results q.destroyed m ∙ v.alive;
      valid = valid;
    }
  where
    added :
        (last : ℤ) (q : List Task) (rs : List ResultNode) (d : Bool) (m : Message)
        → messages (tasks_add_task (some m) (tasks last q rs d)).0.queue
          ≡ messages q ++ (copied m ∷ [])
    added last q rs d m = messages-enqueue q _

    still :
        (last : ℤ) (q : List Task) (rs : List ResultNode) (d : Bool) (m : Message)
        → (tasks_add_task (some m) (tasks last q rs d)).0.destroyed ≡ d
    still last q rs d m = refl

keep-Performed :
    (t0 : Option Tree) (done rest rest' : List Message) (s s' : Server)
    → rest' ≡ rest
    → s' ≡ s
    → Performed t0 done rest s
    → Performed t0 done rest' s'
keep-Performed t0 done rest rest' s s' e f v = subst₂ (Performed t0 done) (sym e) (sym f) v

-- A request that a server with a tree handles adds itself to the queue if it is a write, and
-- changes nothing otherwise.
pub request-Performed :
    (junk : Option Str) (t0 : Option Tree) (done rest : List Message) (s : Server) (m : Message)
    → is_null s.tree ≡ false
    → Performed t0 done rest s
    → Performed t0 done (rest ++ queued_by m) (invoke junk s (some m)).0
request-Performed junk t0 done rest s m h v =
    let (same, tasks') = invoke_state junk s.tree s.tasks m in
    let whole : (b : Bool)
        → is_write m ≡ b
        → (invoke junk s (some m)).0 ≡ record {
          tree = s.tree;
          tasks = if b then (tasks_add_task (some m) s.tasks).0 else s.tasks;
        } =
      λ b e i. record {
        tree = same i;
        tasks =
            (tasks'
                ∙ ap
                    (λ x.
                      if x
                      then s.tasks
                      else if is_write m
                      then (tasks_add_task (some m) s.tasks).0
                      else s.tasks)
                    h
                ∙ ap (λ x. if x then (tasks_add_task (some m) s.tasks).0 else s.tasks) e)
              i;
      } in
    elim (Bool-cases (is_write m)) [
      | inl w ↦
          keep-Performed t0 done (rest ++ (copied m ∷ [])) (rest ++ queued_by m) _ _
            (ap (λ b. rest ++ (if b then copied m ∷ [] else [])) w) (whole true w)
            (add-Performed t0 s.tree done rest s.tasks m w v)
      | inr n ↦
          keep-Performed t0 done rest (rest ++ queued_by m) _ _
            (ap (λ b. rest ++ (if b then copied m ∷ [] else [])) n ∙ append-nil rest)
            (whole false n) v
    ]
