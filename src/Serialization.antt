-- ===== src/Serialization.antt =====
-- source/serialization.c: data, entries, trees and messages as buffers of bytes. The pointer that
-- receives the buffer is not `NULL`: a function returns the buffer with the length.
pub mod Buffers
pub mod Collected
pub mod Frames
pub mod RoundTrip
use sdistr2020_group.Prelude.{
  ℕ, zero, suc, ◌+◌, ◌-◌, ◌*◌, ◌/◌, ◌%◌, ◌^◌, ◌≡◌, Option, none, some, List, [], ◌∷◌, ◌++◌, ℤ, pos,
  negsuc, ◌+ℤ◌, pos_part, ltb, ltb_ℤ, leb, take, drop, set, replicate, length, if◌then◌else◌,
}
use sdistr2020_group.Prelude.{Bool, ◌&&◌}
use sdistr2020_group.Message.{wrap_int}
use sdistr2020_group.Data.{Data}
use sdistr2020_group.Entry.{Entry}
use sdistr2020_group.Message.{
  Message, DataMessage, EntryMessage, to_int, data_to_msg, msg_to_data, entry_to_msg, msg_to_entry,
}
use sdistr2020_group.Tree.{Node, null, node, Tree, tree_create, tree_put}

-- What protobuf-c generates for a type of messages: the size, the bytes that packing writes, and
-- the message that unpacking reads, `NULL` if the bytes do not hold one.
pub record Codec (A : Type 0) : Type 0 where
  pub packed_size : A → ℕ
  pub pack : A → List ℕ
  pub unpack : List ℕ → Option A

-- The documentation of protobuf-c: packing writes as many bytes as the size says, and unpacking
-- them gives the message, for the messages of `Wire`, whose fields hold what the format can state.
pub record IsCodec {A : Type 0} (codec : Codec A) (Wire : A → Type 0) : Type 0 where
  pub sized : (m : A) → codec.packed_size m ≡ length (codec.pack m)
  pub unpacked : (m : A) → Wire m → codec.unpack (codec.pack m) ≡ some m

-- A buffer, `NULL` if there is none, and the result, its length.
abbrev pub Buffer : Type 0
Buffer = Option (List ℕ) × ℤ

abbrev pub no_buffer : Buffer
no_buffer = (none, negsuc 0)

-- `malloc(buffer_size)` fails for a negative size only.
unfoldable pub to_buffer : {A : Type 0} → Codec A → Option A → Buffer
unfolding to_int
to_buffer codec none = no_buffer
to_buffer codec (some msg) =
    let buffer_size = to_int (codec.packed_size msg) in
    if ltb_ℤ buffer_size (pos 0) then no_buffer else (some (codec.pack msg), buffer_size)

unfoldable pub from_buffer : {A : Type 0} → Codec A → Option (List ℕ) → ℤ → Option A
from_buffer codec none buffer_size = none
from_buffer codec (some buffer) (negsuc n) = none
from_buffer codec (some buffer) (pos n) = codec.unpack (take n buffer)

unfoldable pub data_to_buffer : Codec DataMessage → Option Data → Buffer
unfolding to_buffer
data_to_buffer codec data_struct = to_buffer codec (data_to_msg data_struct)

unfoldable pub buffer_to_data : Codec DataMessage → Option (List ℕ) → ℤ → Option Data
unfolding from_buffer
buffer_to_data codec buffer buffer_size = msg_to_data (from_buffer codec buffer buffer_size)

unfoldable pub entry_to_buffer : Codec EntryMessage → Option Entry → Buffer
unfolding to_buffer
entry_to_buffer codec entry = to_buffer codec (entry_to_msg entry)

unfoldable pub buffer_to_entry : Codec EntryMessage → Option (List ℕ) → ℤ → Option Entry
unfolding from_buffer
buffer_to_entry codec buffer buffer_size = msg_to_entry (from_buffer codec buffer buffer_size)

-- A `struct message_t` that is `NULL` or holds no message is `none`.
unfoldable pub message_to_buffer : Codec Message → Option Message → Buffer
unfolding to_buffer
message_to_buffer codec message = to_buffer codec message

-- The structure, `NULL` for the first `none`, and the message in it, `NULL` for the second.
unfoldable pub buffer_to_message : Codec Message → Option (List ℕ) → ℤ → Option (Option Message)
buffer_to_message codec none buffer_size = none
buffer_to_message codec (some buffer) (negsuc n) = none
buffer_to_message codec (some buffer) (pos n) = some (codec.unpack (take n buffer))

-- `entries_bufs` and `len_entries_bufs` as one array, and the next index.
unfoldable pub collect_entry_bufs : Codec EntryMessage → Node → List Buffer → ℕ → List Buffer × ℕ
collect_entry_bufs codec null bufs next_index = (bufs, next_index)
collect_entry_bufs codec (node entry l r) bufs next_index =
    let written = set bufs next_index (entry_to_buffer codec (some entry)) in
    let (bufs', index) = collect_entry_bufs codec l written (next_index + 1) in
    collect_entry_bufs codec r bufs' index

-- The 4 bytes of an `int` in memory, the lowest first.
unfoldable pub store_int : ℤ → List ℕ
store_int n = let w = bits n in w % 256 ∷ w / 256 % 256 ∷ w / 65536 % 256 ∷ w / 16777216 % 256 ∷ []
  where
    bits : ℤ → ℕ
    bits (pos m) = m % 2 ^ 32
    bits (negsuc m) = 2 ^ 32 - 1 - m % 2 ^ 32

-- `none` for a read beyond the end of the buffer, which is undefined in C.
unfoldable pub load_int : List ℕ → Option ℤ
unfolding to_int
load_int (b0 ∷ b1 ∷ b2 ∷ b3 ∷ rest) = some (to_int (b0 + 256 * b1 + 65536 * b2 + 16777216 * b3))
load_int _ = none

-- What the two `memcpy`s write. An entry that has no buffer has the length -1, for which the
-- second one is undefined in C; here it writes nothing.
unfoldable pub frame : Buffer → List ℕ
unfolding store_int
frame (none, len) = store_int len
frame (some buffer, len) = store_int len ++ take (pos_part len) buffer

unfoldable pub frames : List Buffer → List ℕ
unfolding frame
frames [] = []
frames (buf ∷ bufs) = frame buf ++ frames bufs

-- The sum is an `int`, which wraps around at 2^31.
unfoldable pub len_buffer : List Buffer → ℤ
unfolding ◌+ℤ◌ wrap_int
len_buffer [] = pos 0
len_buffer (buf ∷ bufs) = wrap_int ((pos 4 +ℤ buf.1) +ℤ len_buffer bufs)

-- What stands in the arrays before is not known: `junk`. After a sum that wrapped around to a number
-- that is not negative, C writes beyond the buffer, which is undefined; here the buffer holds all.
unfoldable pub tree_to_buffer : Codec EntryMessage → Buffer → Option Tree → Buffer
unfolding collect_entry_bufs frames len_buffer
tree_to_buffer codec junk none = no_buffer
tree_to_buffer codec junk (some tree) =
    let bufs = (collect_entry_bufs codec tree.root (replicate (pos_part tree.size) junk) 0).0 in
    let len = len_buffer bufs in if ltb_ℤ len (pos 0) then no_buffer else (some (frames bufs), len)

-- How `buffer_to_tree` ends: it reads beyond the buffer or counts beyond an `int`, which is
-- undefined; it reads a field of a `NULL` entry; it returns `NULL` or a tree; or the fuel is not
-- enough.
pub data Loaded : Type 0 where
  out_of_fuel : Loaded
  undefined : Loaded
  crashed : Loaded
  no_tree : Loaded
  loaded : Option Tree → Loaded

-- The entry ends at an index that an `int` holds, and in the buffer.
unfoldable pub ends_inside : List ℕ → ℕ → Bool
ends_inside buffer end = leb end (length buffer) && ltb end (2 ^ 31)

-- The loop, on fuel.
unfoldable pub load_entries : Codec EntryMessage → ℕ → List ℕ → ℕ → Option Tree → ℕ → Loaded
unfolding load_int buffer_to_entry ends_inside
load_entries codec zero buffer buffer_size tree current_index = out_of_fuel
load_entries codec (suc fuel) buffer buffer_size tree current_index =
    let rest = drop (current_index + 4) buffer in
    let go = λ (len_entry : ℤ) (e : Entry).
      load_entries codec fuel buffer buffer_size (tree_put tree e.key e.value).0
        (current_index + 4 + pos_part len_entry) in
    if ltb current_index buffer_size
    then elim (load_int (drop current_index buffer)) [
      | none ↦ undefined
      | some len_entry ↦
          if ends_inside buffer (current_index + 4 + pos_part len_entry)
          then elim (buffer_to_entry codec (some rest) len_entry) [
            | none ↦ crashed
            | some e ↦ go len_entry e
          ]
          else undefined
    ]
    else loaded tree

-- Each turn moves on by 4 bytes at least, so the size of the buffer and 1 more is enough fuel.
unfoldable pub buffer_to_tree : Codec EntryMessage → Option (List ℕ) → ℤ → Loaded
unfolding load_entries
buffer_to_tree codec none buffer_size = no_tree
buffer_to_tree codec (some buffer) (negsuc n) = no_tree
buffer_to_tree codec (some buffer) (pos zero) = no_tree
buffer_to_tree codec (some buffer) (pos (suc n)) =
    load_entries codec (suc (suc n)) buffer (suc n) (some tree_create) 0
