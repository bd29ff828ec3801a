-- ===== src/Serialization/Frames.antt =====
-- The bytes of one entry in a buffer of source/serialization.c, and the turn of `buffer_to_tree` that
-- reads them.
use sdistr2020_group.Serialization.{crashed, undefined, ends_inside}
use sdistr2020_group.Prelude.{◌≤◌}
use mathlib.Core.List.{append_assoc}
use sdistr2020_group.Prelude.{
  if◌then◌else◌, Bool, true, ℕ, suc, ◌+◌, ◌^◌, ◌<◌, ◌≡◌, Option, none, some, List, ◌∷◌, ◌++◌, map,
  refl, ap, ◌∙◌, arith, ℤ, pos, pos_part, ltb, drop, length, length-append, drop-append,
  take-append, take-length,
}
use sdistr2020_group.Entry.{Entry}
use sdistr2020_group.Message.{
  EntryMessage, to_int, string_to_msg, data_to_msg, entry_to_msg, msg_to_entry,
}
use sdistr2020_group.Message.Copies.{IsStorable, msg_to_entry-entry_to_msg}
use sdistr2020_group.Tree.{Tree, tree_put}
use sdistr2020_group.Tree.Rebuild.{IsPut}
use sdistr2020_group.Serialization.{
  Codec, IsCodec, Buffer, to_buffer, from_buffer, entry_to_buffer, buffer_to_entry, store_int,
  load_int, frame, frames, loaded, load_entries,
}

-- An `int` that is stored is loaded again.
load-store_int :
    (n : ℕ) (rest : List ℕ) → n < 2 ^ 31 → load_int (store_int (pos n) ++ rest) ≡ some (pos n)
unfolding load_int store_int to_int
load-store_int n rest h = ground arith

length-store_int : (n : ℤ) → length (store_int n) ≡ 4
unfolding store_int
length-store_int n = refl

module _ (codec : Codec EntryMessage) (Wire : EntryMessage → Type 0)
    (law : IsCodec codec Wire) where
  abbrev pub buf : Entry → Buffer
  buf e = entry_to_buffer codec (some e)

  -- The message of an entry.
  abbrev pub message_of : Entry → EntryMessage
  message_of e = record { key = string_to_msg e.key; value = data_to_msg e.value }

  -- An entry that a put accepts, whose message the format can state, in as many bytes as an `int`
  -- counts.
  pub record IsCarried (e : Entry) : Type 0 where
    pub put : IsPut e
    pub storable : IsStorable e.value
    pub wire : Wire (message_of e)
    pub small : length (codec.pack (message_of e)) < 2 ^ 31

  small_int : (n m : ℕ) → n ≡ m → m < 2 ^ 31 → to_int n ≡ pos m
  unfolding to_int
  small_int n m h lt = ground arith

  pub buf_lem :
      (e : Entry)
      → IsCarried e
      → buf e ≡ (some (codec.pack (message_of e)), pos (length (codec.pack (message_of e))))
  unfolding entry_to_buffer to_buffer entry_to_msg
  buf_lem e c = rw (small_int _ _ (law.sized (message_of e)) c.small) (ground arith)

  -- The bytes of an entry: the length, then its packed message.
  pub framed : Entry → List ℕ
  framed e = store_int (pos (length (codec.pack (message_of e)))) ++ codec.pack (message_of e)

  frame_lem : (e : Entry) → IsCarried e → frame (buf e) ≡ framed e
  unfolding frame framed
  frame_lem e c = rw (buf_lem e c, take-length) refl

  unpacked_lem :
      (e : Entry) (rest : List ℕ)
      → IsCarried e
      → buffer_to_entry codec
          (some (codec.pack (message_of e) ++ rest))
          (pos (length (codec.pack (message_of e))))
        ≡ some e
  unfolding buffer_to_entry from_buffer
  unpacked_lem e rest c =
      ap msg_to_entry (
        ap codec.unpack (take-append (codec.pack (message_of e)) rest _ refl)
        ∙ law.unpacked (message_of e) c.wire)
      ∙ msg_to_entry_lem e c.storable
    where
      msg_to_entry_lem :
          (e : Entry) → IsStorable e.value → msg_to_entry (some (message_of e)) ≡ some e
      msg_to_entry_lem e s = unfold entry_to_msg in msg_to_entry-entry_to_msg e s

  inside_lem :
      (buffer : List ℕ) (end : ℕ)
      → end ≤ length buffer
      → length buffer < 2 ^ 31
      → ends_inside buffer end ≡ true
  unfolding ends_inside
  inside_lem buffer end le small = ground arith

  pub load_step :
      (fuel size i : ℕ) (buffer rest : List ℕ) (tree : Option Tree) (e : Entry)
      → IsCarried e
      → drop i buffer ≡ framed e ++ rest
      → drop (i + 4) buffer ≡ codec.pack (message_of e) ++ rest
      → i < size
      → i + 4 + length (codec.pack (message_of e)) ≤ length buffer
      → length buffer < 2 ^ 31
      → load_entries codec (suc fuel) buffer size tree i
        ≡ load_entries codec fuel buffer size
            (tree_put tree e.key e.value).0
            (i + 4 + length (codec.pack (message_of e)))
  unfolding load_entries framed
  load_step fuel size i buffer rest tree e c at_len at_entry lt le small =
      let len : load_int (drop i buffer) ≡ some (pos (length (codec.pack (message_of e)))) =
        ap load_int (at_len ∙ append_assoc (store_int _) (codec.pack (message_of e)) rest)
        ∙ load-store_int _ (codec.pack (message_of e) ++ rest) c.small in
      let size_e = length (codec.pack (message_of e)) in
      let put = λ (n : ℤ) (b : Bool) (o : Option Entry).
        if b
        then elim o [
          | none ↦ crashed
          | some x ↦
              load_entries codec fuel buffer size (tree_put tree x.key x.value).0
                (i + 4 + pos_part n)
        ]
        else undefined in
      let turn = λ (more : Bool) (len : Option ℤ).
        if more
        then elim len [
          | none ↦ undefined
          | some n ↦
              put n (ends_inside buffer (i + 4 + pos_part n))
                (buffer_to_entry codec (some (drop (i + 4) buffer)) n)
        ]
        else loaded tree in
      let more : ltb i size ≡ true = ground arith in
      ap (λ b. turn b (load_int (drop i buffer))) more
      ∙ ap (turn true) len
      ∙ ap
          (λ b.
            put (pos size_e) b (buffer_to_entry codec (some (drop (i + 4) buffer)) (pos size_e)))
          (inside_lem buffer (i + 4 + size_e) le small)
      ∙ ap (λ xs. put (pos size_e) true (buffer_to_entry codec (some xs) (pos size_e))) at_entry
      ∙ ap (put (pos size_e) true) (unpacked_lem e rest c)

  pub length-framed : (e : Entry) → length (framed e) ≡ 4 + length (codec.pack (message_of e))
  unfolding framed store_int
  length-framed e = omega arith

  pub frames_lem :
      (e : Entry) (es : List Entry)
      → IsCarried e
      → frames (map buf (e ∷ es)) ≡ framed e ++ frames (map buf es)
  unfolding frames
  frames_lem e es c = ap (λ xs. xs ++ frames (map buf es)) (frame_lem e c)

  -- Behind the length stands the message.
  pub behind_length :
      (done rest : List ℕ) (e : Entry) (i : ℕ)
      → i ≡ length done
      → drop (i + 4) (done ++ (framed e ++ rest)) ≡ codec.pack (message_of e) ++ rest
  unfolding framed
  behind_length done rest e i at =
      let len = store_int (pos (length (codec.pack (message_of e)))) in
      let cut : done ++ (framed e ++ rest) ≡ (done ++ len) ++ (codec.pack (message_of e) ++ rest) =
        simp append_assoc in
      ap (drop (i + 4)) cut
      ∙ drop-append (done ++ len) _ (i + 4) (
          omega (
            arith,
            at,
            length-append done len,
            length-store_int (pos (length (codec.pack (message_of e)))),
          ))
