-- ===== src/Message/Recopied.antt =====
-- A copy of a message of source/message-private.c is copied as it is, whatever the message was.
use sdistr2020_group.Prelude.{
  ℕ, zero, suc, ◌≡◌, Option, none, some, List, [], ◌∷◌, refl, ap, ◌∙◌, arith, ℤ, pos, negsuc, ◌==◌,
  take, if◌then◌else◌, map,
}
use sdistr2020_group.Data.{copy}
use sdistr2020_group.Entry.{Str, strdup}
use sdistr2020_group.Message.{
  Message, DataMessage, EntryMessage, KeysMessage, NullableString, Content, not_set, key, value,
  entry, keys, int_result, op_id, to_int, DataMessage_dup, string_to_msg, EntryMessage_dup,
  str_arr_copy, KeysMessage_dup, content_dup, Message_dup,
}
use sdistr2020_group.Message.Copies.{map-strdup}

take-take : {A : Type 0} (n : ℕ) (xs : List A) → take n (take n xs) ≡ take n xs
take-take zero xs = refl
take-take (suc n) [] = refl
take-take (suc n) (x ∷ xs) = ap (λ ys. x ∷ ys) (take-take n xs)

copy_twice : (b : Option (List ℕ)) (n : ℤ) → copy (copy b n) n ≡ copy b n
unfolding copy
copy_twice none n = refl
copy_twice (some b) (negsuc n) = refl
copy_twice (some b) (pos n) = ap some (take-take n b)

data_twice : (m : Option DataMessage) → DataMessage_dup (DataMessage_dup m) ≡ DataMessage_dup m
unfolding DataMessage_dup
data_twice none = refl
data_twice (some m) =
    ap (λ b. some (record { len = m.len; block = b })) (copy_twice m.block (to_int m.len))

entry_twice : (m : Option EntryMessage) → EntryMessage_dup (EntryMessage_dup m) ≡ EntryMessage_dup m
unfolding EntryMessage_dup string_to_msg
entry_twice none = refl
entry_twice (some m) = go m.key m.value
  where
    go :
        (k : Option NullableString) (v : Option DataMessage)
        → EntryMessage_dup (EntryMessage_dup (some (record { key = k; value = v })))
          ≡ EntryMessage_dup (some (record { key = k; value = v }))
    go none v = λ i. some (record { key = none; value = data_twice v i })
    go (some s) v =
        λ i. some (record { key = some (record { str = s.str }); value = data_twice v i })

array_twice :
    (ks : List (Option Str)) (n : ℕ) → str_arr_copy (str_arr_copy ks n) n ≡ str_arr_copy ks n
unfolding str_arr_copy
array_twice ks n =
    ap (λ xs. map strdup (take n xs)) (map-strdup (take n ks)) ∙ ap (map strdup) (take-take n ks)

guarded_twice :
    (ks : List (Option Str)) (n : ℕ)
    → (if n == 0 then [] else str_arr_copy (if n == 0 then [] else str_arr_copy ks n) n)
      ≡ (if n == 0 then [] else str_arr_copy ks n)
guarded_twice ks n = ground (arith, array_twice ks n)

keys_twice : (m : Option KeysMessage) → KeysMessage_dup (KeysMessage_dup m) ≡ KeysMessage_dup m
unfolding KeysMessage_dup
keys_twice none = refl
keys_twice (some m) =
    ap (λ ks. some (record { n_keys = m.n_keys; keys = ks })) (guarded_twice m.keys m.n_keys)

content_twice : (c : Content) → content_dup (content_dup c) ≡ content_dup c
unfolding content_dup strdup
content_twice not_set = refl
content_twice (key k) = refl
content_twice (value m) = ap value (data_twice m)
content_twice (entry m) = ap entry (entry_twice m)
content_twice (keys m) = ap keys (keys_twice m)
content_twice (int_result n) = refl
content_twice (op_id n) = refl

-- The copy that `Message_dup` makes; it makes one of every message.
abbrev pub copied : Message → Message
copied m = record { op_code = m.op_code; content = content_dup m.content }

-- A message that is its own copy, as every copy is.
abbrev pub IsCopied : Message → Type 0
IsCopied m = copied m ≡ m

pub copied-IsCopied : (m : Message) → IsCopied (copied m)
copied-IsCopied m = λ i. record { op_code = m.op_code; content = content_twice m.content i }

pub Message_dup-copied : (m : Message) → Message_dup m ≡ some (copied m)
unfolding Message_dup
Message_dup-copied m = refl
