-- ===== src/TreeClient/Queries.antt =====
-- The queries of source/client/tree_client.c, against the backup server of
-- source/server/tree_skel.c.
use sdistr2020_group.Prelude.{◌^◌}
use sdistr2020_group.Prelude.{◌<◌}
use sdistr2020_group.Prelude.{
  ℕ, suc, ◌≡◌, refl, ap, ◌∙◌, false, Option, none, some, List, [], ◌∷◌, map, arith, ℤ, pos, negsuc,
  eqb_ℤ,
}
use sdistr2020_group.Entry.{Str, strcmp}
use sdistr2020_group.Message.Copies.{terminated}
use sdistr2020_group.Tree.{Tree, tree_size, tree_height}
use sdistr2020_group.Tree.Keys.{keys}
use sdistr2020_group.Tree.Invariant.{IsValid, IsShaped, tree-IsShaped}
use sdistr2020_group.Tasks.{
  Tasks, TaskResult, successful, failed, not_executed, tasks_get_result, task_result_code,
}
use sdistr2020_group.Skel.{Server}
use sdistr2020_group.Inet.{atoi}
use sdistr2020_group.Inet.Address.{print_digits, atoi-print}
use sdistr2020_group.ClientStub.{
  Rtree, Transport, rtree_size, rtree_height, rtree_get_keys, rtree_verify,
}
use sdistr2020_group.ClientStub.Calls.{
  Servers, servers, direct, read_size, read_height, read_keys, read_verify, key_array,
}
use sdistr2020_group.TreeClient.{
  Output, size_is, height_is, keys_are, operation_failed, operation_done, not_yet_executed,
  print_keys, show_size, show_height, show_keys, show_result, run_command, run_verify, size_command,
  height_command, getkeys_command, verify_command, same_string, prints, may_print,
}

print_keys-terminated : (ks : List Str) → print_keys (terminated ks) ≡ some ks
unfolding print_keys terminated
print_keys-terminated [] = refl
print_keys-terminated (k ∷ ks) = let ih = print_keys-terminated ks in ground (arith, ih)

-- What the program prints of the result of an operation.
abbrev pub result_line : TaskResult → Output
result_line successful = operation_done
result_line failed = operation_failed
result_line not_executed = not_yet_executed

show_result-code : (r : TaskResult) → show_result (task_result_code r) ≡ result_line r
unfolding show_result task_result_code
show_result-code successful = refl
show_result-code failed = refl
show_result-code not_executed = refl

shown :
    (size height : ℤ)
    → IsShaped size height
    → (show_size size ≡ size_is size) × (show_height height ≡ height_is height)
unfolding show_size show_height
shown (pos n) (pos m) h = (ground arith, ground arith)
shown (pos n) (negsuc m) h = (ground arith, ground (arith, h.1))
shown (negsuc n) height h = absurd h

pub command_size :
    {S : Type 0}
    → (net : Transport S) (s : S) (rtree : Option Rtree)
    → run_command net s rtree (some size_command, none, none)
      ≡ prints show_size (rtree_size net s rtree)
unfolding run_command same_string strcmp
command_size net s rtree = refl

pub command_height :
    {S : Type 0}
    → (net : Transport S) (s : S) (rtree : Option Rtree)
    → run_command net s rtree (some height_command, none, none)
      ≡ prints show_height (rtree_height net s rtree)
unfolding run_command same_string strcmp
command_height net s rtree = refl

pub command_getkeys :
    {S : Type 0}
    → (net : Transport S) (s : S) (rtree : Option Rtree)
    → run_command net s rtree (some getkeys_command, none, none)
      ≡ may_print show_keys (rtree_get_keys net s rtree)
unfolding run_command same_string strcmp
command_getkeys net s rtree = refl

verify_number :
    {S : Type 0}
    → (net : Transport S) (s : S) (rtree : Option Rtree) (arg : Str) (n : ℕ) → atoi arg ≡ pos n
    → run_verify net s rtree (some arg) ≡ prints show_result (rtree_verify net s rtree (pos n))
unfolding run_verify
verify_number net s rtree arg n e = ground (arith, e)

pub command_verify :
    {S : Type 0}
    → (net : Transport S) (s : S) (rtree : Option Rtree) (n : ℕ) → n < 2 ^ 31
    → run_command net s rtree (some verify_command, some (print_digits (suc n) n []), none)
      ≡ prints show_result (rtree_verify net s rtree (pos n))
unfolding run_command same_string strcmp
command_verify net s rtree n lt =
    verify_number net s rtree (print_digits (suc n) n []) n (atoi-print n lt)

shown_keys :
    (array : Option (List (Option Str))) (ks : List Str)
    → array ≡ some (terminated ks)
    → show_keys array ≡ some (keys_are ks)
unfolding show_keys
shown_keys array ks e = ground (arith, e, print_keys-terminated ks)

module _ (rtree : Rtree) (junk : Option Str)
    (apart : eqb_ℤ rtree.backup_sockfd rtree.primary_sockfd ≡ false) where
  abbrev net : Transport Servers
  net = direct rtree.primary_sockfd junk

  -- The queries show what the tree and the tasks of the backup server hold, and change nothing: the
  -- size, the height, which is -1 of an empty tree, the keys in the order of the tree, and whether
  -- the operation of a number is done, failed or is not executed. The tree is valid, the number
  -- is one that an `int` holds, and the client is connected to two different sockets.
  pub queries_shown :
      (p : Server) (t : Tree) (q : Tasks) (n : ℕ)
      → IsValid t
      → n < 2 ^ 31
      → let s : Servers = servers p t q in
        (run_command net s (some rtree) (some size_command, none, none) ≡ some (s, size_is t.size))
        × (run_command net s (some rtree) (some height_command, none, none)
            ≡ some (s, height_is t.height))
        × ((ks : List Str) × (keys t.root ≡ map some ks)
            × (run_command net s (some rtree) (some getkeys_command, none, none)
                ≡ some (s, keys_are ks)))
        × (run_command net s
              (some rtree)
              (some verify_command, some (print_digits (suc n) n []), none)
            ≡ some (s, result_line (tasks_get_result (pos n) q)))
  unfolding tree_size tree_height
  queries_shown p t q n v lt =
      let s : Servers = servers p t q in
      let (fits, tall) = shown (tree_size (some t)) (tree_height (some t)) (tree-IsShaped t v) in
      let (ks, named, array) = key_array rtree junk apart t v in
      (
        command_size net s (some rtree)
            ∙ ap (prints show_size) (read_size rtree junk apart p t q)
            ∙ ap (λ output. some (s, output)) fits,
        command_height net s (some rtree)
            ∙ ap (prints show_height) (read_height rtree junk apart p t q)
            ∙ ap (λ output. some (s, output)) tall,
        (
          ks,
          named,
          command_getkeys net s (some rtree)
              ∙ ap (may_print show_keys) (read_keys rtree junk apart p t q ks array)
              ∙ ap (λ shown. elim shown [ none ↦ none | some o ↦ some (s, o) ])
                  (shown_keys _ ks array),
        ),
        command_verify net s (some rtree) n lt
            ∙ ap (prints show_result) (read_verify rtree junk apart p t q (pos n))
            ∙ ap (λ output. some (s, output)) (show_result-code (tasks_get_result (pos n) q)),
      )
