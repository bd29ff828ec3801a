-- ===== src/TreeClient/Failures.antt =====
-- source/client/tree_client.c when the servers do not answer, and when a line holds no command.
use sdistr2020_group.Prelude.{◌^◌}
use sdistr2020_group.Prelude.{◌<◌}
use sdistr2020_group.Prelude.{
  ℕ, suc, ◌≡◌, refl, ap, ◌∙◌, true, false, Option, none, some, [], ◌∷◌, arith, ℤ, pos, negsuc,
  Bool-cases, inl, inr,
}
use sdistr2020_group.Entry.{Str, strcmp}
use sdistr2020_group.Message.{
  Message, Content, op_size, op_height, op_getkeys, op_get, op_del, op_verify,
}
use sdistr2020_group.Inet.{skip, strtok}
use sdistr2020_group.Inet.Address.{Every, print_digits}
use sdistr2020_group.ClientStub.{
  Rtree, Transport, network_send_receive, rtree_put, rtree_get, rtree_del, rtree_size, rtree_height,
  rtree_get_keys, rtree_verify, int_result_of, response_op_id, response_value, response_keys,
}
use sdistr2020_group.TreeClient.{
  Output, query_failed, operation_failed, run_command, run_del, show_size, show_height, show_keys,
  show_result, show_value, show_op_id, size_command, height_command, getkeys_command,
  verify_command, put_command, get_command, del_command, same_string, undefined, Directory,
  client_turn, run_input, parse_command, notice,
}
use sdistr2020_group.TreeClient.{quit_command, retry_command, goes_on, prints, may_print}
use sdistr2020_group.ClientStub.{is_read, is_write}
use sdistr2020_group.Entry.{strdup}
use sdistr2020_group.TreeClient.Shown.{command_get, command_put, put_request}
use sdistr2020_group.TreeClient.Queries.{
  command_size, command_height, command_getkeys, command_verify,
}

command_del :
    {S : Type 0}
    → (net : Transport S) (s : S) (rtree : Option Rtree) (key : Str)
    → run_command net s rtree (some del_command, some key, none)
      ≡ prints show_op_id (rtree_del net s rtree (some key))
unfolding run_command run_del same_string strcmp
command_del net s rtree key = refl

-- The line that a run prints.
abbrev pub line_of : {S : Type 0} → Option (S × Output) → Option Output
line_of none = none
line_of (some (s, output)) = some output

line_of_shown :
    {S : Type 0}
    → (s : S) (o : Option Output)
    → line_of (elim o [ none ↦ none | some output ↦ some (s, output) ]) ≡ o
line_of_shown s none = refl
line_of_shown s (some output) = refl

line_of-may_print :
    {S A : Type 0} → (show : A → Option Output) (x : S × A) → line_of (may_print show x) ≡ show x.1
line_of-may_print show (s, a) = line_of_shown s (show a)

abbrev request : ℕ → Content → Message
request op_code content = record { op_code = op_code; content = content }

-- No request is answered.
abbrev pub IsSilent : {S : Type 0} → Transport S → Type 0
IsSilent net = (s : _) (sockfd : ℤ) (m : Message) → (net.exchange s sockfd m).1 ≡ none

abbrev IsSpace : ℕ → Type 0
IsSpace c = c ≡ b' '

skip-spaces : (blank : Str) → Every IsSpace blank → skip b' ' blank ≡ []
unfolding skip
skip-spaces [] h = refl
skip-spaces (c ∷ blank) h = let ih = skip-spaces blank h.1 in ground (arith, ih, h.0)

parse_blank : (blank : Str) → Every IsSpace blank → parse_command blank ≡ (none, none, none)
unfolding parse_command strtok
parse_blank blank h = ground (arith, skip-spaces blank h)

blank_differs :
    (blank : Str)
    → Every IsSpace blank
    → (same_string blank quit_command ≡ false) × (same_string blank retry_command ≡ false)
unfolding same_string strcmp
blank_differs [] h = (refl, refl)
blank_differs (c ∷ blank) h = (ground (arith, h.0), ground (arith, h.0))

null_command :
    {S : Type 0}
    → (net : Transport S) (s : S) (rtree : Option Rtree)
    → run_command net s rtree (none, none, none) ≡ none
unfolding run_command
null_command net s rtree = refl

run_blank :
    {S : Type 0}
    → (net : Transport S) (s : S) (rtree : Option Rtree) (blank : Str) → Every IsSpace blank
    → run_input net s (record { rtree = rtree; are_servers_connected = true }) blank ≡ undefined
unfolding run_input
run_blank net s rtree blank h =
    ap
      (λ o. elim o [
        | none ↦ undefined
        | some (s', output) ↦
            goes_on s' (record { rtree = rtree; are_servers_connected = true }) (output ∷ [])
      ])
      (ap (run_command net s rtree) (parse_blank blank h) ∙ null_command net s rtree)

-- A connected client that reads a line with no bytes but spaces, an empty line say, hands a `NULL`
-- to `strcmp`, which has no defined behaviour, whatever the servers and Zookeeper do.
pub blank_undefined :
    {S : Type 0}
    → (net : Transport S) (dir : Directory) (s : S) (rtree : Option Rtree) (blank : Str)
    → Every IsSpace blank
    → client_turn net dir s (record { rtree = rtree; are_servers_connected = true }) (some blank)
      ≡ ([], undefined)
unfolding client_turn notice
blank_undefined net dir s rtree blank h =
    let (not_quit, not_retry) = blank_differs blank h in
    rw not_quit (rw not_retry (ap (λ turn. ([], turn)) (run_blank net s rtree blank h)))

module _ {S : Type 0} (net : Transport S) (rtree : Rtree) (silent : IsSilent net) where
  send_silent : (s : S) (m : Message) → (network_send_receive net s (some rtree) m).1 ≡ none
  unfolding network_send_receive
  send_silent s m = elim (Bool-cases (is_read m.op_code)) [
    | inl r ↦ rw r (silent s rtree.backup_sockfd m)
    | inr r ↦ elim (Bool-cases (is_write m.op_code)) [
      | inl w ↦ rw (r, w) (silent s rtree.primary_sockfd m)
      | inr w ↦ rw (r, w) refl
    ]
  ]

  abbrev pub Says : S → Option Str × Option Str × Option Str → Output → Type 0
  Says s words output = line_of (run_command net s (some rtree) words) ≡ some output

  -- When no request is answered, every command with its arguments says so: the queries and a get that
  -- the query failed, a put, a deletion and a verify that the operation failed. The
  -- number to verify is one that an `int` holds.
  pub silent_shown :
      (s : S) (key text : Str) (n : ℕ)
      → n < 2 ^ 31
      → Says s (some size_command, none, none) query_failed
        × Says s (some height_command, none, none) query_failed
        × Says s (some getkeys_command, none, none) query_failed
        × Says s (some get_command, some key, none) query_failed
        × Says s (some put_command, some key, some text) operation_failed
        × Says s (some del_command, some key, none) operation_failed
        × Says s (some verify_command, some (print_digits (suc n) n []), none) operation_failed
  unfolding rtree_size rtree_height rtree_get_keys rtree_get rtree_put rtree_del rtree_verify
      int_result_of response_keys response_value response_op_id show_size show_height show_keys
      show_value show_op_id show_result strdup
  silent_shown s key text n lt = (
    ap line_of (command_size net s (some rtree))
        ∙ ap (λ r. some (show_size (int_result_of (negsuc 0) r)))
            (send_silent s (request op_size Content.not_set)),
    ap line_of (command_height net s (some rtree))
        ∙ ap (λ r. some (show_height (int_result_of (negsuc 1) r)))
            (send_silent s (request op_height Content.not_set)),
    ap line_of (command_getkeys net s (some rtree))
        ∙ line_of-may_print show_keys (rtree_get_keys net s (some rtree))
        ∙ ap (λ r. show_keys (response_keys r))
            (send_silent s (request op_getkeys Content.not_set)),
    ap line_of (command_get net s (some rtree) key none)
        ∙ line_of-may_print show_value (rtree_get net s (some rtree) (some key))
        ∙ ap (λ r. show_value (response_value r))
            (send_silent s (request op_get (Content.key (some key)))),
    ap line_of (command_put net s (some rtree) key text)
        ∙ ap (λ r. some (show_op_id (response_op_id r))) (send_silent s (put_request key text)),
    ap line_of (command_del net s (some rtree) key)
        ∙ ap (λ r. some (show_op_id (response_op_id r)))
            (send_silent s (request op_del (Content.key (some key)))),
    ap line_of (command_verify net s (some rtree) n lt)
        ∙ ap (λ r. some (show_result (int_result_of (negsuc 0) r)))
            (send_silent s (request op_verify (Content.op_id (pos n)))),
  )
