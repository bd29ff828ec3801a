-- ===== src/Skel/Exit.antt =====
-- When the worker of source/server/tree_skel.c goes on, and when it kills the server.
use mathlib.Core.Path.{subst}
use sdistr2020_group.Prelude.{
  ◌≡◌, true, false, Option, some, List, [], ◌∷◌, length, refl, ap, ◌∙◌, arith, pos,
}
use sdistr2020_group.Data.{Data}
use sdistr2020_group.Entry.{Str}
use sdistr2020_group.Tree.{Tree, tree_put, tree_del}
use sdistr2020_group.Message.{Message, Content, msg_to_entry, op_del, Message_dup}
use sdistr2020_group.Tasks.{
  Tasks, Task, tasks_get_next, tasks_add_task, tasks_set_result, successful,
}
use sdistr2020_group.Skel.{
  Server, Network, runs, exited, process_task, process_next, process_tree_del, tree_skel_init,
  invoke, invoke2, invoke_write_operation, replicate_to_backup_server, entry_of, finish, fill_error,
}
use sdistr2020_group.Skel.Worker.{Served, Ensures, is_put, is_del, put_accepted}
use sdistr2020_group.Skel.Drain.{process_all, after, next_head, process_task-Served_at}

-- A queued put of a key and a value, neither of which is `NULL`.
pub record IsGoodPut (task : Task) : Type 0 where
  pub not_del : is_del task.op_code_and_args ≡ false
  pub put : is_put task.op_code_and_args ≡ true
  pub key : Str
  pub value : Data
  pub entry :
      msg_to_entry (entry_of task.op_code_and_args.content)
      ≡ some (record { key = some key; value = some value })

abbrev pub AllGoodPuts : List Task → Type 0
AllGoodPuts [] = Unit
AllGoodPuts (task ∷ rest) = IsGoodPut task × AllGoodPuts rest

-- The network of a backup server, or one over which the backup server is reached.
abbrev pub Replicates : Network → Type 0
Replicates net = (task : Task) → (replicate_to_backup_server net task).0 ≡ pos 0

abbrev pub AllReplicate : List Network → Type 0
AllReplicate [] = Unit
AllReplicate (net ∷ nets) = Replicates net × AllReplicate nets

-- A server whose tree pointer is not `NULL`.
abbrev pub HasTree : Server → Type 0
HasTree s = (t : Tree) × (s.tree ≡ some t)

put_runs :
    (net : Network) (t : Tree) (q : Tasks) (task : Task)
    → Replicates net
    → IsGoodPut task
    → (s' : Server) × ((process_task net (record { tree = some t; tasks = q }) task).0 ≡ runs s')
      × HasTree s'
unfolding process_task tree_put finish
put_runs net t q task r g = (
  record {
    tree = (tree_put (some t) (some g.key) (some g.value)).0;
    tasks = (tasks_set_result task.task_id successful q).0;
  },
  rw g.not_del (
      rw g.put (
        ap (λ o. o.0) (put_accepted net (record { tree = some t; tasks = q }) task _ g.entry)
        ∙ rw (r task) refl)),
  (_, refl),
)

-- A server with a tree, whose network replicates, performs any queue of whole puts to the end: it
-- neither exits nor stops, whatever the keys and values.
pub puts_run :
    (nets : List Network) (s : Server) (q : List Task)
    → HasTree s
    → s.tasks.queue ≡ q
    → s.tasks.destroyed ≡ false
    → length nets ≡ length q
    → AllReplicate nets
    → AllGoodPuts q
    → (s' : Server) × (process_all nets s ≡ runs s')
unfolding process_all
puts_run [] s q tree e d h rs gs = (s, refl)
puts_run (net ∷ nets) s [] tree e d h rs gs = absurd (omega arith)
puts_run (net ∷ nets) s (task ∷ rest) (t, et) e d h (r, rs) (g, gs) =
    let (s1, step, tree1) = put_runs net t s.tasks task r g in
    let whole : s ≡ record { tree = some t; tasks = s.tasks } =
      (λ i. record { tree = et i; tasks = s.tasks }) in
    let first : (process_next net s).0 ≡ runs s1 =
      ap (λ o. o.0)
        (next_head net s.tree s.tasks.last_task_id_assigned s.tasks.queue s.tasks.results
          s.tasks.destroyed task rest e d)
      ∙ ap (λ z. (process_task net z task).0) whole
      ∙ step in
    let v : Served s task rest s1 =
      subst (Ensures (Served s task rest)) (ap (λ z. (process_task net z task).0) whole ∙ step) (
        process_task-Served_at net s.tree s.tasks.last_task_id_assigned s.tasks.queue
          s.tasks.results s.tasks.destroyed task rest e) in
    let (s2, end) = puts_run nets s1 rest tree1 v.1 (v.3 ∙ d) (omega arith) rs gs in
    (s2, ap (after (process_all nets)) first ∙ end)

-- The request by which a client deletes a key.
abbrev pub del_request : Str → Message
del_request key = record { op_code = op_del; content = Content.key (some key) }

-- A fresh server that a client asks to delete a key, whatever the key and the network, exits when
-- its worker takes the task, and sends nothing: `tree_del` answers -1 for a tree with no root.
pub delete_on_empty_exits :
    (junk : Option Str) (net : Network) (key : Str)
    → process_next net (invoke junk tree_skel_init (some (del_request key))).0 ≡ (exited, [])
unfolding process_next process_task process_tree_del finish tree_del invoke invoke2
    invoke_write_operation tree_skel_init tasks_get_next tasks_add_task fill_error Message_dup
delete_on_empty_exits junk net key = refl
