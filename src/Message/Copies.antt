-- ===== src/Message/Copies.antt =====
-- The messages of source/message-private.c carry what they are made from, and their copies are equal.
use mathlib.Core.Path.{ap₂}
use sdistr2020_group.Prelude.{
  ℕ, sym, length-map, ◌∙◌, suc, ◌^◌, ◌<◌, ◌≡◌, Option, none, some, List, [], ◌∷◌, ◌++◌, map, refl,
  ap, arith, ℤ, pos, negsuc, ◌==◌, take, length, take-length, if◌then◌else◌,
}
use sdistr2020_group.Data.{Data, data_create2, copy}
use sdistr2020_group.Data.{IsValid}
use sdistr2020_group.Data.Copies.{copy_lem, params-Fits}
use sdistr2020_group.Entry.{Str, Entry, strdup}
use sdistr2020_group.Message.{
  Message, DataMessage, EntryMessage, KeysMessage, NullableString, Content, not_set, key, value,
  entry, keys, int_result, op_id, to_size, to_int, data_to_msg, DataMessage_dup, msg_to_data,
  string_to_msg, msg_to_string, entry_to_msg, EntryMessage_dup, msg_to_entry, keys_count,
  str_arr_copy, keys_to_msg, KeysMessage_dup, msg_to_keys, content_dup, Message_dup,
}

-- A size that an `int` can hold.
abbrev pub IsInt : ℤ → Type 0
IsInt (pos n) = n < 2 ^ 31
IsInt (negsuc n) = n < 2 ^ 31

-- Through `size_t` an `int` comes back, negative ones too.
pub to_int-to_size : (n : ℤ) → IsInt n → to_int (to_size n) ≡ n
unfolding to_int to_size
to_int-to_size (pos n) h = ground arith
to_int-to_size (negsuc n) h = ground arith

-- A value whose size fits its block.
abbrev pub IsStorable : Option Data → Type 0
IsStorable none = Unit
IsStorable (some d) = IsValid d × IsInt d.datasize

pub msg_to_data-data_to_msg : (d : Option Data) → IsStorable d → msg_to_data (data_to_msg d) ≡ d
unfolding msg_to_data data_to_msg
msg_to_data-data_to_msg none h = refl
msg_to_data-data_to_msg (some d) h =
    rw
      (
        to_int-to_size d.datasize h.1,
        copy_lem d.datasize d.block h.0.fits,
        copy_lem d.datasize d.block h.0.fits,
      )
      (unfold data_create2 in rw (params-Fits d.datasize d.block h.0.fits) refl)

msg_to_string-string_to_msg : (k : Option Str) → msg_to_string (string_to_msg k) ≡ k
unfolding msg_to_string string_to_msg
msg_to_string-string_to_msg none = refl
msg_to_string-string_to_msg (some k) = refl

-- An entry comes back from its message whole, a `NULL` key or value included.
pub msg_to_entry-entry_to_msg :
    (e : Entry) → IsStorable e.value → msg_to_entry (entry_to_msg (some e)) ≡ some e
unfolding msg_to_entry entry_to_msg
msg_to_entry-entry_to_msg e h =
    let k = msg_to_string-string_to_msg e.key in
    let v = msg_to_data-data_to_msg e.value h in λ i. some (record { key = k i; value = v i })

-- A buffer of the length that the message states, which is no more than an `int` holds.
abbrev pub IsFilled : Option DataMessage → Type 0
IsFilled none = Unit
IsFilled (some m) = elim m.block [ none ↦ Unit | some b ↦ (m.len ≡ length b) × (length b < 2 ^ 31) ]

abbrev pub IsWhole : Content → Type 0
IsWhole (value m) = IsFilled m
IsWhole (entry none) = Unit
IsWhole (entry (some m)) = IsFilled m.value
IsWhole (keys none) = Unit
IsWhole (keys (some m)) = m.n_keys ≡ length m.keys
IsWhole other = Unit

filled_copy :
    (len : ℕ) (b : List ℕ)
    → len ≡ length b
    → length b < 2 ^ 31
    → copy (some b) (to_int len) ≡ some b
unfolding copy to_int
filled_copy len b h lt = ground (arith, take-length b)

DataMessage_dup_lem : (m : Option DataMessage) → IsFilled m → DataMessage_dup m ≡ m
unfolding DataMessage_dup copy
DataMessage_dup_lem none h = refl
DataMessage_dup_lem (some m) h = go m.len m.block h
  where
    go :
        (len : ℕ) (b : Option (List ℕ))
        → IsFilled (some (record { len = len; block = b }))
        → DataMessage_dup (some (record { len = len; block = b }))
          ≡ some (record { len = len; block = b })
    go len none f = refl
    go len (some b) f = ap (λ c. some (record { len = len; block = c })) (filled_copy len b f.0 f.1)

pub map-strdup : (ks : List (Option Str)) → map strdup ks ≡ ks
unfolding strdup
map-strdup [] = refl
map-strdup (k ∷ ks) = ap (λ xs. k ∷ xs) (map-strdup ks)

str_arr_copy-whole : (ks : List (Option Str)) (n : ℕ) → n ≡ length ks → str_arr_copy ks n ≡ ks
unfolding str_arr_copy
str_arr_copy-whole ks n h = rw (h, take-length) (map-strdup ks)

-- The guard for no keys changes nothing.
guarded_copy :
    (ks : List (Option Str)) (n : ℕ)
    → n ≡ length ks
    → (if n == 0 then [] else str_arr_copy ks n) ≡ ks
guarded_copy [] n h = ground arith
guarded_copy (k ∷ ks) n h = ground (arith, str_arr_copy-whole (k ∷ ks) n h)

KeysMessage_dup_lem :
    (m : KeysMessage) → m.n_keys ≡ length m.keys → KeysMessage_dup (some m) ≡ some m
unfolding KeysMessage_dup
KeysMessage_dup_lem m h =
    λ i. some (record { n_keys = m.n_keys; keys = guarded_copy m.keys m.n_keys h i })

EntryMessage_dup_lem : (m : EntryMessage) → IsFilled m.value → EntryMessage_dup (some m) ≡ some m
unfolding EntryMessage_dup string_to_msg
EntryMessage_dup_lem m h = go m.key
  where
    go :
        (k : Option NullableString)
        → EntryMessage_dup (some (record { key = k; value = m.value }))
          ≡ some (record { key = k; value = m.value })
    go none = λ i. some (record { key = none; value = DataMessage_dup_lem m.value h i })
    go (some s) = λ i. some (record { key = some s; value = DataMessage_dup_lem m.value h i })

content_dup_lem : (c : Content) → IsWhole c → content_dup c ≡ c
unfolding content_dup
content_dup_lem not_set h = refl
content_dup_lem (key k) h = refl
content_dup_lem (value m) h = ap value (DataMessage_dup_lem m h)
content_dup_lem (entry none) h = refl
content_dup_lem (entry (some m)) h = ap entry (EntryMessage_dup_lem m h)
content_dup_lem (keys none) h = refl
content_dup_lem (keys (some m)) h = ap keys (KeysMessage_dup_lem m h)
content_dup_lem (int_result n) h = refl
content_dup_lem (op_id n) h = refl

-- The copy of a message that the queue of tasks stores is equal to the message.
pub Message_dup_lem : (m : Message) → IsWhole m.content → Message_dup m ≡ some m
unfolding Message_dup
Message_dup_lem m h =
    λ i. some (record { op_code = m.op_code; content = content_dup_lem m.content h i })

unfoldable pub terminated : List Str → List (Option Str)
terminated ks = map some ks ++ (none ∷ [])

keys_count-terminated : (ks : List Str) → keys_count (terminated ks) ≡ length ks
unfolding keys_count terminated
keys_count-terminated [] = refl
keys_count-terminated (k ∷ ks) = ap suc (keys_count-terminated ks)

take-terminated : (ks : List Str) → take (length ks) (terminated ks) ≡ map some ks
unfolding terminated
take-terminated [] = refl
take-terminated (k ∷ ks) = ap (λ xs. some k ∷ xs) (take-terminated ks)

copied_twice :
    (ks : List Str)
    → str_arr_copy
        (if length ks == 0 then [] else str_arr_copy (terminated ks) (length ks))
        (length ks)
      ≡ map some ks
unfolding str_arr_copy
copied_twice [] = refl
copied_twice (k ∷ ks) =
    let once = ap (map strdup) (take-terminated (k ∷ ks)) ∙ map-strdup (map some (k ∷ ks)) in
    let whole =
      str_arr_copy-whole (map some (k ∷ ks)) (suc (length ks)) (sym (length-map some (k ∷ ks))) in
    ground (arith, once, whole)

-- A terminated array of keys, none of them `NULL`, comes back from its message whole.
pub msg_to_keys-keys_to_msg :
    (ks : List Str) → msg_to_keys (keys_to_msg (some (terminated ks))) ≡ some (terminated ks)
unfolding msg_to_keys keys_to_msg terminated
msg_to_keys-keys_to_msg ks =
    ap (λ xs. some (xs ++ (none ∷ [])))
      (ap₂ (λ (n : ℕ) m. str_arr_copy (if n == 0 then [] else str_arr_copy (terminated ks) n) m)
          (keys_count-terminated ks) (keys_count-terminated ks)
        ∙ copied_twice ks)
