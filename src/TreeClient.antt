-- ===== src/TreeClient.antt =====
-- source/client/tree_client.c: the commands that a user types, and what the program prints. An
-- output is a line that is printed, without its fixed text. A result `none` stands for a run with
-- no defined behaviour.
pub mod Words
pub mod Shown
pub mod Queries
pub mod Failures
pub mod Session
pub mod Ready
use sdistr2020_group.Prelude.{
  ℕ, ◌+◌, ◌-◌, zero, suc, Bool, true, false, Option, none, some, List, [], ◌∷◌, ◌++◌, ℤ, pos,
  negsuc, length, ltb_ℤ, eqb_ℤ, ◌==◌, ◌&&◌, not, if◌then◌else◌,
}
use sdistr2020_group.Data.{Data, data_create2}
use sdistr2020_group.Entry.{Str, Entry, entry_create, strdup, strcmp}
use sdistr2020_group.Inet.{strtok, atoi}
use sdistr2020_group.ClientStub.{
  Rtree, Stub, Transport, rtree_put, rtree_get, rtree_del, rtree_size, rtree_height, rtree_get_keys,
  rtree_verify, rtree_connect, rtree_disconnect, servers_retry_connect,
}

-- The string that starts a block of bytes; `none` if no byte of it is 0.
unfoldable pub c_string : List ℕ → Option Str
c_string [] = none
c_string (c ∷ s) =
    let rest = c_string s in
    if c == 0 then some [] else elim rest [ none ↦ none | some r ↦ some (c ∷ r) ]

unfoldable pub max_input_len : ℕ
max_input_len = 5000

-- `fgets` of the C library: at most `room` bytes, up to a line feed, which is kept, and the input
-- that is left.
unfoldable pub fgets : ℕ → List ℕ → List ℕ × List ℕ
fgets zero stdin = ([], stdin)
fgets (suc room) [] = ([], [])
fgets (suc room) (c ∷ stdin) =
    let (line, rest) = fgets room stdin in if c == 10 then (c ∷ [], stdin) else (c ∷ line, rest)

-- The string without a line feed at its end.
unfoldable pub drop_line_feed : Str → Str
drop_line_feed [] = []
drop_line_feed (c ∷ []) = if c == 10 then [] else c ∷ []
drop_line_feed (c ∷ d ∷ s) = c ∷ drop_line_feed (d ∷ s)

-- The last byte of an empty string is read before the buffer.
unfoldable pub prune_input : Option Str → Option Str
unfolding drop_line_feed
prune_input none = none
prune_input (some []) = none
prune_input (some (c ∷ s)) = some (drop_line_feed (c ∷ s))

-- At the end of the input the buffer stays as `malloc` returned it.
unfoldable pub collect_input : List ℕ → List ℕ → Option Str × List ℕ
unfolding max_input_len prune_input
collect_input junk [] = (prune_input (c_string junk), [])
collect_input junk (c ∷ stdin) =
    let (line, rest) = fgets (max_input_len - 1) (c ∷ stdin) in
    (prune_input (c_string (line ++ (0 ∷ []))), rest)

-- The block of an entry is the string with its terminator.
unfoldable pub entry_create_from_args : Option Str → Option Str → Option Entry
unfolding data_create2 entry_create strdup
entry_create_from_args none text = none
entry_create_from_args (some key) none = none
entry_create_from_args (some key) (some text) =
    elim (data_create2 (pos (length text + 1)) (some (text ++ (0 ∷ [])))) [
      | none ↦ none
      | some value ↦ some (entry_create (strdup (some key)) (some value))
    ]

-- The lines that the program prints.
pub data Output : Type 0 where
  query_failed operation_failed invalid_args unknown_command : Output
  key_not_found not_yet_executed operation_done : Output
  size_is height_is operation_queued : ℤ → Output
  value_is : Str → Output
  keys_are : List Str → Output
  server_not_available already_connected : Output

-- The keys up to the first `NULL`; `none` if there is no `NULL`.
unfoldable pub print_keys : List (Option Str) → Option (List Str)
print_keys [] = none
print_keys (none ∷ keys) = some []
print_keys (some key ∷ keys) = elim (print_keys keys) [ none ↦ none | some ks ↦ some (key ∷ ks) ]

abbrev pub size_command : Str
size_command = b's' ∷ b'i' ∷ b'z' ∷ b'e' ∷ []

abbrev pub height_command : Str
height_command = b'h' ∷ b'e' ∷ b'i' ∷ b'g' ∷ b'h' ∷ b't' ∷ []

abbrev pub del_command : Str
del_command = b'd' ∷ b'e' ∷ b'l' ∷ []

abbrev pub get_command : Str
get_command = b'g' ∷ b'e' ∷ b't' ∷ []

abbrev pub put_command : Str
put_command = b'p' ∷ b'u' ∷ b't' ∷ []

abbrev pub getkeys_command : Str
getkeys_command = b'g' ∷ b'e' ∷ b't' ∷ b'k' ∷ b'e' ∷ b'y' ∷ b's' ∷ []

abbrev pub verify_command : Str
verify_command = b'v' ∷ b'e' ∷ b'r' ∷ b'i' ∷ b'f' ∷ b'y' ∷ []

abbrev pub quit_command : Str
quit_command = b'q' ∷ b'u' ∷ b'i' ∷ b't' ∷ []

abbrev pub retry_command : Str
retry_command = b'r' ∷ b'e' ∷ b't' ∷ b'r' ∷ b'y' ∷ []

-- `strcmp(…) == 0`
unfoldable pub same_string : Str → Str → Bool
same_string a b = eqb_ℤ (strcmp a b) (pos 0)

unfoldable pub show_size : ℤ → Output
show_size size = if ltb_ℤ size (pos 0) then query_failed else size_is size

unfoldable pub show_height : ℤ → Output
show_height height = if ltb_ℤ height (negsuc 0) then query_failed else height_is height

unfoldable pub show_op_id : ℤ → Output
show_op_id op_id = if ltb_ℤ op_id (pos 0) then operation_failed else operation_queued op_id

unfoldable pub show_value : Option Data → Option Output
unfolding c_string
show_value none = some query_failed
show_value (some value) = elim value.block [
  | none ↦ some key_not_found
  | some block ↦ elim (c_string block) [ none ↦ none | some text ↦ some (value_is text) ]
]

unfoldable pub show_keys : Option (List (Option Str)) → Option Output
unfolding print_keys
show_keys none = some query_failed
show_keys (some keys) = elim (print_keys keys) [ none ↦ none | some ks ↦ some (keys_are ks) ]

unfoldable pub show_result : ℤ → Output
show_result op_result =
    if ltb_ℤ op_result (pos 0)
    then operation_failed
    else if eqb_ℤ op_result (pos 0)
    then not_yet_executed
    else operation_done

-- What comes back from a call, and what is printed.
abbrev pub prints : {S A : Type 0} → (A → Output) → S × A → Option (S × Output)
prints show (s, a) = some (s, show a)

abbrev pub may_print : {S A : Type 0} → (A → Option Output) → S × A → Option (S × Output)
may_print show (s, a) = elim (show a) [ none ↦ none | some output ↦ some (s, output) ]

module _ {S : Type 0} (net : Transport S) where
  unfoldable pub run_del : S → Option Rtree → Option Str → Option (S × Output)
  run_del s rtree none = some (s, invalid_args)
  run_del s rtree (some key) = prints show_op_id (rtree_del net s rtree (some key))

  unfoldable pub run_get : S → Option Rtree → Option Str → Option (S × Output)
  run_get s rtree none = some (s, invalid_args)
  run_get s rtree (some key) = may_print show_value (rtree_get net s rtree (some key))

  unfoldable pub run_put : S → Option Rtree → Option Entry → Option (S × Output)
  run_put s rtree none = some (s, invalid_args)
  run_put s rtree (some entry) = prints show_op_id (rtree_put net s rtree (some entry))

  unfoldable pub run_verify : S → Option Rtree → Option Str → Option (S × Output)
  unfolding atoi
  run_verify s rtree none = some (s, invalid_args)
  run_verify s rtree (some arg) =
      if ltb_ℤ (atoi arg) (pos 0)
      then some (s, invalid_args)
      else prints show_result (rtree_verify net s rtree (atoi arg))

  -- A command that is `NULL` is handed to `strcmp`.
  unfoldable pub run_command :
      S → Option Rtree → Option Str × Option Str × Option Str → Option (S × Output)
  unfolding same_string strcmp entry_create_from_args
  run_command s rtree (none, arg1, arg2) = none
  run_command s rtree (some command, arg1, arg2) =
      if same_string command size_command
      then prints show_size (rtree_size net s rtree)
      else if same_string command height_command
      then prints show_height (rtree_height net s rtree)
      else if same_string command del_command
      then run_del s rtree arg1
      else if same_string command get_command
      then run_get s rtree arg1
      else if same_string command put_command
      then run_put s rtree (entry_create_from_args arg1 arg2)
      else if same_string command getkeys_command
      then may_print show_keys (rtree_get_keys net s rtree)
      else if same_string command verify_command
      then run_verify s rtree arg1
      else some (s, unknown_command)

-- `strlen(rest) == 0 ? NULL : rest`
unfoldable pub rest_of : Str → Option Str
rest_of [] = none
rest_of (c ∷ s) = some (c ∷ s)

-- The two calls of `strtok_r`, which leaves `rest` empty when it finds no token: the command and
-- its arguments, or `NULL`s.
unfoldable pub parse_command : Str → Option Str × Option Str × Option Str
unfolding rest_of
parse_command input = elim (strtok b' ' input) [
  | none ↦ (none, none, none)
  | some (command, rest) ↦ elim (strtok b' ' rest) [
    | none ↦ (some command, none, none)
    | some (arg1, rest') ↦ (some command, some arg1, rest_of rest')
  ]
]

-- What a round of the loop of `main` ends in: the program quits, has no defined behaviour, or goes
-- on with what it printed.
pub data Turn (S : Type 0) : Type 0 where
  quits : Turn S
  undefined : Turn S
  goes_on : S → Stub → List Output → Turn S

-- The addresses that Zookeeper has for the two servers, and the connections to them.
pub record Directory : Type 0 where
  pub server_connect : Str → ℤ → ℤ
  pub primary_server : Option Str
  pub backup_server : Option Str

-- The listener of the servers may run between the test of the connection and the attempt, which
-- does not read it.
unfoldable pub retry : {S : Type 0} → Directory → S → Stub → Turn S
retry dir s stub =
    if stub.are_servers_connected
    then goes_on s stub (already_connected ∷ [])
    else elim stub.rtree [
      | none ↦ undefined
      | some rtree ↦
          elim (servers_retry_connect dir.server_connect dir.primary_server dir.backup_server rtree
            false) [ none ↦ undefined | some (stub', closed, result) ↦ goes_on s stub' [] ]
    ]

unfoldable pub run_input : {S : Type 0} → Transport S → S → Stub → Str → Turn S
unfolding run_command parse_command
run_input net s stub input =
    if stub.are_servers_connected
    then elim (run_command net s stub.rtree (parse_command input)) [
      | none ↦ undefined
      | some (s', output) ↦ goes_on s' stub (output ∷ [])
    ]
    else goes_on s stub []

-- What is printed before the input is read, by the state of the connection.
unfoldable pub notice : Bool → List Output
notice true = []
notice false = server_not_available ∷ []

-- A round of the loop on what `_collect_input` returns.
unfoldable pub client_turn :
    {S : Type 0} → Transport S → Directory → S → Stub → Option Str → List Output × Turn S
unfolding retry run_input same_string notice
client_turn net dir s stub none = (notice stub.are_servers_connected, undefined)
client_turn net dir s stub (some input) = (
  notice stub.are_servers_connected,
  if same_string input quit_command
      then quits
      else if same_string input retry_command
      then retry dir s stub
      else run_input net s stub input,
)
