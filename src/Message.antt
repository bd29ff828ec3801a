-- ===== src/Message.antt =====
-- source/message-private.c and the messages of sdmessage.proto: their C structures hold copies of
-- the data, entries and keys that they are made from.
pub mod Copies
pub mod Recopied
use sdistr2020_group.Prelude.{
  ℕ, zero, suc, ◌+◌, ◌-◌, ◌%◌, ◌^◌, Option, none, some, List, [], ◌∷◌, ◌++◌, map, ℤ, pos, negsuc,
  ltb, ◌==◌, take, if◌then◌else◌,
}
use mathlib.Core.Option
use sdistr2020_group.Data.{Data, data_create2, copy}
use sdistr2020_group.Entry.{Str, Entry, entry_create, strdup}

-- The conversions of `int` to `size_t` and back, on a 64-bit machine with 32-bit `int`s.
unfoldable pub to_size : ℤ → ℕ
to_size (pos n) = n
to_size (negsuc n) = 2 ^ 64 - 1 - n

unfoldable pub to_int : ℕ → ℤ
to_int n = let m = n % 2 ^ 32 in if ltb m (2 ^ 31) then pos m else negsuc (2 ^ 32 - 1 - m)

-- A number cut to the 32 bits of an `int`.
unfoldable pub wrap_int : ℤ → ℤ
unfolding to_int
wrap_int (pos n) = to_int n
wrap_int (negsuc n) = to_int (2 ^ 32 - 1 - n % 2 ^ 32)

-- `DataMessage`: the field `data`, a length and a buffer.
pub record DataMessage : Type 0 where
  pub len : ℕ
  pub block : Option (List ℕ)

pub record NullableString : Type 0 where
  pub str : Str

pub record EntryMessage : Type 0 where
  pub key : Option NullableString
  pub value : Option DataMessage

pub record KeysMessage : Type 0 where
  pub n_keys : ℕ
  pub keys : List (Option Str)

-- The field `content_case` and the union that it selects from.
pub data Content : Type 0 where
  not_set : Content
  key : Option Str → Content
  value : Option DataMessage → Content
  entry : Option EntryMessage → Content
  keys : Option KeysMessage → Content
  int_result : ℤ → Content
  op_id : ℤ → Content

pub record Message : Type 0 where
  pub op_code : ℕ
  pub content : Content

-- `Message__OperationCode`; a response carries the code of its request and 1 more.
abbrev pub op_bad : ℕ
op_bad = 0

abbrev pub op_size : ℕ
op_size = 10

abbrev pub op_del : ℕ
op_del = 20

abbrev pub op_get : ℕ
op_get = 30

abbrev pub op_put : ℕ
op_put = 40

abbrev pub op_getkeys : ℕ
op_getkeys = 50

abbrev pub op_height : ℕ
op_height = 60

abbrev pub op_verify : ℕ
op_verify = 70

abbrev pub op_error : ℕ
op_error = 99

unfoldable pub data_to_msg : Option Data → Option DataMessage
unfolding to_size
data_to_msg none = none
data_to_msg (some d) = some (record { len = to_size d.datasize; block = copy d.block d.datasize })

unfoldable pub DataMessage_dup : Option DataMessage → Option DataMessage
unfolding to_int
DataMessage_dup none = none
DataMessage_dup (some msg) =
    some (record { len = msg.len; block = copy msg.block (to_int msg.len) })

unfoldable pub msg_to_data : Option DataMessage → Option Data
unfolding to_int
msg_to_data none = none
msg_to_data (some msg) =
    let datasize = to_int msg.len in data_create2 datasize (copy msg.block datasize)

unfoldable pub string_to_msg : Option Str → Option NullableString
string_to_msg none = none
string_to_msg (some string) = some (record { str = string })

unfoldable pub msg_to_string : Option NullableString → Option Str
unfolding strdup
msg_to_string none = none
msg_to_string (some msg) = strdup (some msg.str)

unfoldable pub entry_to_msg : Option Entry → Option EntryMessage
unfolding string_to_msg data_to_msg
entry_to_msg none = none
entry_to_msg (some e) = some (record { key = string_to_msg e.key; value = data_to_msg e.value })

unfoldable pub EntryMessage_dup : Option EntryMessage → Option EntryMessage
unfolding string_to_msg DataMessage_dup
EntryMessage_dup none = none
EntryMessage_dup (some msg) = some (record {
  key = elim msg.key [ none ↦ none | some s ↦ string_to_msg (some s.str) ];
  value = DataMessage_dup msg.value;
})

unfoldable pub msg_to_entry : Option EntryMessage → Option Entry
unfolding msg_to_string msg_to_data entry_create
msg_to_entry none = none
msg_to_entry (some msg) = some (entry_create (msg_to_string msg.key) (msg_to_data msg.value))

-- The cells before the first `NULL`.
unfoldable pub keys_count : List (Option Str) → ℕ
keys_count [] = 0
keys_count (none ∷ rest) = 0
keys_count (some k ∷ rest) = suc (keys_count rest)

unfoldable pub str_arr_copy : List (Option Str) → ℕ → List (Option Str)
unfolding strdup
str_arr_copy str_arr arr_len = map strdup (take arr_len str_arr)

-- An array of no keys is `NULL`, as `keys_message__init` leaves it.
unfoldable pub keys_to_msg : Option (List (Option Str)) → Option KeysMessage
unfolding keys_count str_arr_copy
keys_to_msg none = none
keys_to_msg (some ks) =
    let n = keys_count ks in
    some (record { n_keys = n; keys = if n == 0 then [] else str_arr_copy ks n })

unfoldable pub KeysMessage_dup : Option KeysMessage → Option KeysMessage
unfolding str_arr_copy
KeysMessage_dup none = none
KeysMessage_dup (some msg) = some (record {
  n_keys = msg.n_keys;
  keys = if msg.n_keys == 0 then [] else str_arr_copy msg.keys msg.n_keys;
})

-- The array of the copies, with the terminator.
unfoldable pub msg_to_keys : Option KeysMessage → Option (List (Option Str))
unfolding str_arr_copy
msg_to_keys none = none
msg_to_keys (some msg) = some (str_arr_copy msg.keys msg.n_keys ++ (none ∷ []))

-- `message__init`
unfoldable pub Message_create : Message
Message_create = record { op_code = op_bad; content = not_set }

unfoldable pub content_dup : Content → Content
unfolding strdup DataMessage_dup EntryMessage_dup KeysMessage_dup
content_dup not_set = not_set
content_dup (key k) = key (strdup k)
content_dup (value m) = value (DataMessage_dup m)
content_dup (entry m) = entry (EntryMessage_dup m)
content_dup (keys m) = keys (KeysMessage_dup m)
content_dup (int_result n) = int_result n
content_dup (op_id n) = op_id n

-- The cases of `Content` are those of the `switch`, so its `default`, which returns `NULL`, is out
-- of reach.
unfoldable pub Message_dup : Message → Option Message
unfolding content_dup
Message_dup msg = some (record { op_code = msg.op_code; content = content_dup msg.content })
