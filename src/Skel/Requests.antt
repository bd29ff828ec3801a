-- ===== src/Skel/Requests.antt =====
-- What the requests of clients do to the state of source/server/tree_skel.c.
use sdistr2020_group.Prelude.{
  ◌+◌, ◌≡◌, Bool, true, false, is_null, Option, none, some, refl, ap, sym, arith, negsuc, ◌==◌,
  ◌&&◌, ◌||◌, ◌⊎◌, if◌then◌else◌, Bool-cases, inl, inr,
}
use mathlib.Core.Path.{subst}
use sdistr2020_group.Entry.{Str}
use sdistr2020_group.Tree.{Tree}
use sdistr2020_group.Tree.Invariant.{IsValidPointer}
use sdistr2020_group.Message.{
  Message, Content, op_error, op_del, op_put, op_get, op_size, op_height, op_getkeys, op_verify,
  Message_create,
}
use sdistr2020_group.Tasks.{Tasks, tasks_add_task}
use sdistr2020_group.Tasks.Invariant
use sdistr2020_group.Tasks.Invariant.{tasks_add_task-IsValid}
use sdistr2020_group.Skel.{
  Server, invoke, invoke2, invoke_write_operation, fill_error, invoke_tree_size, invoke_tree_height,
  invoke_tree_get, invoke_tree_get_keys, invoke_verify, is_key, is_entry, is_op_id,
}

pub record IsValid (s : Server) : Type 0 where
  pub whole : IsValidPointer s.tree
  pub ordered : Invariant.IsValid s.tasks

-- The requests that are queued for the worker.
unfoldable pub is_write : Message → Bool
unfolding is_key is_entry
is_write request =
    if request.op_code == op_del
    then is_key request.content
    else if request.op_code == op_put
    then is_entry request.content
    else false

write-IsValid :
    (s : Server) (request : Message) → IsValid s → IsValid (invoke_write_operation s request).0
unfolding invoke_write_operation
write-IsValid s request v = record {
  whole = v.whole;
  ordered = (tasks_add_task-IsValid s.tasks request v.ordered).0;
}

-- Which of the two a request does to the server: it queues itself, or it changes nothing.
invoke2_server :
    (junk : Option Str) (s : Server) (request response : Message)
    → (invoke2 junk s request response).0
      ≡ (if is_write request then (invoke_write_operation s request).0 else s)
unfolding invoke2 is_write
invoke2_server junk s request response = ground arith

-- A request leaves the tree as it is, and changes the tasks only if it is a write.
pub invoke_state :
    (junk : Option Str) (p : Option Tree) (q : Tasks) (request : Message)
    → let s' = (invoke junk (record { tree = p; tasks = q }) (some request)).0 in
      (s'.tree ≡ p)
      × (s'.tasks ≡ (
          if is_null p
          then q
          else if is_write request
          then (tasks_add_task (some request) q).0
          else q))
unfolding invoke invoke_write_operation
invoke_state junk none q request = (refl, refl)
invoke_state junk (some t) q request =
    let s : Server = record { tree = some t; tasks = q } in
    let e = invoke2_server junk s request Message_create in
    elim (Bool-cases (is_write request)) [
      | inl write ↦
          let e' = rw write at e in
          (ap (λ (z : Server). z.tree) e', rw write (ap (λ (z : Server). z.tasks) e'))
      | inr other ↦
          let e' = rw other at e in
          (ap (λ (z : Server). z.tree) e', rw other (ap (λ (z : Server). z.tasks) e'))
    ]

tasks_IsValid :
    (b c : Bool) (q : Tasks) (request : Message)
    → Invariant.IsValid q
    → Invariant.IsValid (if b then q else if c then (tasks_add_task (some request) q).0 else q)
tasks_IsValid true c q request v = v
tasks_IsValid false true q request v = (tasks_add_task-IsValid q request v).0
tasks_IsValid false false q request v = v

-- Every request, well formed or not, keeps the invariants of the tree and of the tasks.
pub invoke-IsValid :
    (junk : Option Str) (s : Server) (request : Option Message)
    → IsValid s
    → IsValid (invoke junk s request).0
invoke-IsValid junk s none v = unfold invoke in v
invoke-IsValid junk s (some request) v =
    let (e, f) = invoke_state junk s.tree s.tasks request in
    record {
      whole = subst IsValidPointer (sym e) v.whole;
      ordered =
          subst Invariant.IsValid (sym f)
            (tasks_IsValid (is_null s.tree) (is_write request) s.tasks request v.ordered);
    }

-- The response carries the code of the request and 1 more, or the code of an error.
abbrev pub Answers : Message → Option Message → Type 0
Answers request none = ⊥
Answers request (some response) =
    (response.op_code ≡ request.op_code + 1) ⊎ (response.op_code ≡ op_error)

-- The requests that the server knows how to serve.
unfoldable pub is_served : Message → Bool
unfolding is_write is_key is_op_id
is_served request =
    is_write request
    || (request.op_code == op_size
        || (request.op_code == op_height
            || (request.op_code == op_getkeys
                || (request.op_code == op_get && is_key request.content
                    || request.op_code == op_verify && is_op_id request.content))))

-- A request of an unknown code, or with a content that is not the one of its code, is answered by
-- an error with the result -1, and changes nothing.
pub invoke_unserved :
    (junk : Option Str) (t : Tree) (q : Tasks) (request : Message)
    → is_served request ≡ false
    → invoke junk (record { tree = some t; tasks = q }) (some request) ≡ (
      record { tree = some t; tasks = q },
      some (record { op_code = op_error; content = Content.int_result (negsuc 0) }),
    )
unfolding invoke invoke2 is_served fill_error Message_create
invoke_unserved junk t q request h = ground arith

-- A server with a tree answers every request, by the code of the request and 1 more or by an error.
pub invoke-Answers :
    (junk : Option Str) (t : Tree) (q : Tasks) (request : Message)
    → Answers request (invoke junk (record { tree = some t; tasks = q }) (some request)).1
unfolding invoke invoke2 fill_error Message_create invoke_tree_size invoke_tree_height
    invoke_tree_get invoke_tree_get_keys invoke_write_operation invoke_verify
invoke-Answers junk t q request = ground arith

write_answered :
    (junk : Option Str) (t : Tree) (q : Tasks) (request : Message)
    → is_write request ≡ true
    → (invoke junk (record { tree = some t; tasks = q }) (some request)).1
      ≡ some (record {
        op_code = request.op_code + 1;
        content = Content.op_id (tasks_add_task (some request) q).1;
      })
unfolding invoke invoke2 is_write fill_error invoke_write_operation
write_answered junk t q request w = ground (arith, w)

-- The response of a server that has no tree, to a write, and to any other request.
abbrev pub Responds : Bool → Bool → Tasks → Message → Option Message → Type 0
Responds true write q request response = response ≡ none
Responds false true q request response =
    response
    ≡ some (record {
      op_code = request.op_code + 1;
      content = Content.op_id (tasks_add_task (some request) q).1;
    })
Responds false false q request response = Answers request response

responded :
    (junk : Option Str) (t : Tree) (q : Tasks) (request : Message) (write : Bool)
    → is_write request ≡ write
    → Responds false write q request
        (invoke junk (record { tree = some t; tasks = q }) (some request)).1
responded junk t q request true w = write_answered junk t q request w
responded junk t q request false w = invoke-Answers junk t q request

-- Whatever a client sends, the tree stays as it is: a write is only queued, as the last task, and is
-- answered with the identifier of that task. Any other request leaves the tasks as they are too, and
-- is answered by its code and 1 more, or by an error. A server with no tree does nothing and has no
-- answer.
pub invoke_server :
    (junk : Option Str) (p : Option Tree) (q : Tasks) (request : Message)
    → let (s', response) = invoke junk (record { tree = p; tasks = q }) (some request) in
      (s'.tree ≡ p)
      × (s'.tasks ≡ (
          if is_null p
          then q
          else if is_write request
          then (tasks_add_task (some request) q).0
          else q))
      × Responds (is_null p) (is_write request) q request response
invoke_server junk none q request = unfold invoke in (refl, refl, refl)
invoke_server junk (some t) q request =
    let (same, tasks') = invoke_state junk (some t) q request in
    (same, tasks', responded junk t q request (is_write request) refl)
