-- ===== src/TreeClient/Shown.antt =====
-- What source/client/tree_client.c prints, against the servers of source/server/tree_skel.c.
use sdistr2020_group.Prelude.{
  ℕ, ◌+◌, ◌<◌, ◌^◌, ◌≡◌, ◌≢◌, refl, sym, ap, ◌∙◌, false, Option, none, some, List, [], ◌∷◌, ◌++◌,
  length, arith, ℤ, pos, negsuc, ltb_ℤ, eqb_ℤ, length-append,
}
use mathlib.Core.Path.{subst}
use sdistr2020_group.Prelude.{Bool, ◌+ℤ◌}
use sdistr2020_group.Message.{Message_dup}
use sdistr2020_group.Tasks.{ResultNode}
use sdistr2020_group.Tasks.Invariant.{tasks}
use sdistr2020_group.ClientStub.Calls.{write_put}
use sdistr2020_group.TreeClient.{operation_queued}
use sdistr2020_group.Data.{Data, data_create2, data_dup}
use sdistr2020_group.Data.Copies.{data_dup-IsValid}
use sdistr2020_group.Entry.{Str, Entry, entry_create, strdup, strcmp}
use sdistr2020_group.Message.{Message, Content, entry_to_msg, op_put}
use sdistr2020_group.Message.Copies.{IsStorable, msg_to_entry-entry_to_msg}
use sdistr2020_group.Tree.{Tree, tree_put, tree_get}
use sdistr2020_group.Tree.Invariant.{IsValid}
use sdistr2020_group.Tree.Map.{view, answer, tree_get-view, put_stored}
use sdistr2020_group.Tasks.{Tasks, Task, tasks_add_task, tasks_set_result, successful}
use sdistr2020_group.Skel.{Server, Network, runs, process_task, finish, entry_of, is_key, is_entry}
use sdistr2020_group.Skel.Worker.{put_accepted}
use sdistr2020_group.Skel.Exit.{Replicates}
use sdistr2020_group.Inet.Address.{Every}
use sdistr2020_group.ClientStub.{Rtree, Transport, rtree_put, rtree_get}
use sdistr2020_group.ClientStub.Calls.{Servers, servers, direct, read_get}
use sdistr2020_group.TreeClient.{
  c_string, entry_create_from_args, Output, key_not_found, value_is, show_value, show_op_id,
  run_command, run_get, run_put, get_command, put_command, same_string, prints, may_print,
}

abbrev NotNul : ℕ → Type 0
NotNul c = c ≢ 0

-- A string that fits a block, as its bytes with the terminator.
abbrev pub block_of : Str → Data
block_of text = record { datasize = pos (length text + 1); block = some (text ++ (0 ∷ [])) }

abbrev pub typed_entry : Str → Str → Entry
typed_entry key text = record { key = some key; value = some (block_of text) }

-- The request of a put.
abbrev pub put_request : Str → Str → Message
put_request key text = record {
  op_code = op_put;
  content = Content.entry (entry_to_msg (some (typed_entry key text)));
}

c_string-terminated : (text : Str) → Every NotNul text → c_string (text ++ (0 ∷ [])) ≡ some text
unfolding c_string
c_string-terminated [] h = refl
c_string-terminated (c ∷ text) h = let ih = c_string-terminated text h.1 in ground (arith, ih, h.0)

args-entry :
    (key text : Str) → entry_create_from_args (some key) (some text) ≡ some (typed_entry key text)
unfolding entry_create_from_args data_create2 entry_create strdup
args-entry key text = ground arith

block_of-IsStorable : (text : Str) → length text + 1 < 2 ^ 31 → IsStorable (some (block_of text))
block_of-IsStorable text h =
    (record { fits = ap pos (omega (arith, length-append text (0 ∷ []))) }, h)

pub command_get :
    {S : Type 0}
    → (net : Transport S) (s : S) (rtree : Option Rtree) (key : Str) (arg : Option Str)
    → run_command net s rtree (some get_command, some key, arg)
      ≡ may_print show_value (rtree_get net s rtree (some key))
unfolding run_command run_get same_string strcmp
command_get net s rtree key arg = refl

pub command_put :
    {S : Type 0}
    → (net : Transport S) (s : S) (rtree : Option Rtree) (key text : Str)
    → run_command net s rtree (some put_command, some key, some text)
      ≡ prints show_op_id (rtree_put net s rtree (some (typed_entry key text)))
unfolding run_command run_put same_string strcmp
command_put net s rtree key text = ap (run_put net s rtree) (args-entry key text)

show_block :
    (text : Str) → Every NotNul text → show_value (some (block_of text)) ≡ some (value_is text)
unfolding show_value
show_block text h = ground (arith, c_string-terminated text h)

-- The servers once the primary server has queued a message.
abbrev pub with_task : Tree → Tasks → Server → Message → Servers
with_task t q back m = record {
  primary = record { tree = some t; tasks = (tasks_add_task (some m) q).0 };
  backup = back;
}

-- A message that is queued gets the next identifier.
show_queued :
    (last : ℤ) (queue : List Task) (rs : List ResultNode) (d : Bool) (m : Message)
    → ltb_ℤ last (negsuc 0) ≡ false
    → show_op_id (tasks_add_task (some m) (tasks last queue rs d)).1
      ≡ operation_queued (last +ℤ pos 1)
unfolding show_op_id tasks_add_task Message_dup ◌+ℤ◌
show_queued (pos n) queue rs d m h = ground arith
show_queued (negsuc n) queue rs d m h = ground arith

module _ (rtree : Rtree) (junk : Option Str)
    (apart : eqb_ℤ rtree.backup_sockfd rtree.primary_sockfd ≡ false) where
  abbrev net : Transport Servers
  net = direct rtree.primary_sockfd junk

  get_shows :
      (p : Server) (t : Tree) (q : Tasks) (key : Str) (v : Option Data) (output : Output)
      → tree_get (some t) (some key) ≡ v
      → IsStorable v
      → show_value v ≡ some output
      → run_command net (servers p t q) (some rtree) (some get_command, some key, none)
        ≡ some (servers p t q, output)
  get_shows p t q key v output e h s =
      command_get net (servers p t q) (some rtree) key none
      ∙ ap (may_print show_value) (
          read_get rtree junk apart p t q key (subst IsStorable (sym e) h)
          ∙ ap (λ w. (servers p t q, w)) e)
      ∙ ap (λ shown. elim shown [ none ↦ none | some o ↦ some (servers p t q, o) ]) s

  -- A get of a key that the backup server does not hold says so, and changes nothing.
  pub get_missing :
      (p : Server) (t : Tree) (q : Tasks) (key : Str)
      → view t (some key) ≡ none
      → run_command net (servers p t q) (some rtree) (some get_command, some key, none)
        ≡ some (servers p t q, key_not_found)
  get_missing p t q key h =
      get_shows p t q key (answer none) key_not_found (tree_get-view t (some key) ∙ ap answer h)
        (record { fits = refl }, omega arith) (unfold show_value in refl)

  -- The task of a put on a server whose tree is valid.
  process_typed :
      (out : Network) (b : Tree) (q : Tasks) (id : ℤ) (key text : Str)
      → Replicates out
      → length text + 1 < 2 ^ 31
      → let task : Task = record { task_id = id; op_code_and_args = put_request key text } in
        (process_task out (record { tree = some b; tasks = q }) task).0
        ≡ runs (record {
          tree = (tree_put (some b) (some key) (some (block_of text))).0;
          tasks = (tasks_set_result id successful q).0;
        })
  unfolding process_task finish is_key is_entry entry_of tree_put
  process_typed out b q id key text r h =
      ap (λ o. o.0)
        (put_accepted out (record { tree = some b; tasks = q }) _ (typed_entry key text)
          (msg_to_entry-entry_to_msg (typed_entry key text) (block_of-IsStorable text h)))
      ∙ rw (r (record { task_id = id; op_code_and_args = put_request key text })) refl

  -- What a user puts is what a get shows. The put is queued at the primary server as the next task;
  -- every server with a valid tree that performs its message, the backup server say, goes on with a
  -- tree in which the key holds the text; and a get of the key then shows the text. The text has no
  -- byte 0, it fits a block, and the network replicates.
  pub put_shown :
      (t b : Tree) (q qb q' : Tasks) (p : Server) (back : Server) (out : Network) (id : ℤ)
      (key text : Str)
      → IsValid b
      → Every NotNul text
      → length text + 1 < 2 ^ 31
      → ltb_ℤ q.last_task_id_assigned (negsuc 0) ≡ false
      → Replicates out
      → let s : Servers = record { primary = record { tree = some t; tasks = q }; backup = back } in
        let task : Task = record { task_id = id; op_code_and_args = put_request key text } in
        (run_command net s (some rtree) (some put_command, some key, some text)
          ≡ some (
            with_task t q back (put_request key text),
            operation_queued (q.last_task_id_assigned +ℤ pos 1),
          ))
        × (b' : Tree) × ((process_task out (record { tree = some b; tasks = qb }) task).0
            ≡ runs (record { tree = some b'; tasks = (tasks_set_result id successful qb).0 }))
        × IsValid b'
        × (run_command net (servers p b' q') (some rtree) (some get_command, some key, none)
            ≡ some (servers p b' q', value_is text))
  put_shown t b q qb q' p back out id key text v nul h last r =
      let s : Servers = record { primary = record { tree = some t; tasks = q }; backup = back } in
      let (b', e, v', got) = put_stored b key (block_of text) v in
      (
        command_put net s (some rtree) key text
            ∙ ap (prints show_op_id) (write_put rtree junk apart t q back (typed_entry key text))
            ∙ ap (λ output. some (with_task t q back (put_request key text), output))
                (show_queued q.last_task_id_assigned q.queue q.results q.destroyed
                  (put_request key text) last),
        b',
        process_typed out b qb id key text r h
            ∙ ap (λ x. runs (record { tree = x; tasks = (tasks_set_result id successful qb).0 })) e,
        v',
        get_shows p b' q' key (some (block_of text)) (value_is text)
            (got
              ∙ ap data_dup (data_dup-IsValid (block_of text) (block_of-IsStorable text h).0)
              ∙ data_dup-IsValid (block_of text) (block_of-IsStorable text h).0)
            (block_of-IsStorable text h) (show_block text nul),
      )
