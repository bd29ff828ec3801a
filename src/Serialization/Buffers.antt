-- ===== src/Serialization/Buffers.antt =====
-- Single messages through the buffers of source/serialization.c, and what `buffer_to_tree` does
-- with any buffer.
use sdistr2020_group.Prelude.{
  ℕ, zero, suc, ◌+◌, ◌^◌, ◌<◌, ◌≤◌, ◌≡◌, ◌≢◌, Option, none, some, List, refl, sym, ap, ◌∙◌, arith,
  ℤ, pos, negsuc, pos_part, ltb, Bool, true, false, drop, length, take-length, if◌then◌else◌,
}
use sdistr2020_group.Serialization.{ends_inside, undefined}
use sdistr2020_group.Data.{Data}
use sdistr2020_group.Entry.{Entry}
use sdistr2020_group.Message.{Message, DataMessage, EntryMessage, to_int, data_to_msg, msg_to_data}
use sdistr2020_group.Message.Copies.{IsStorable, msg_to_data-data_to_msg}
use sdistr2020_group.Tree.{Tree, tree_create, tree_put}
use sdistr2020_group.Serialization.{
  Codec, IsCodec, Buffer, to_buffer, from_buffer, data_to_buffer, buffer_to_data, buffer_to_entry,
  message_to_buffer, buffer_to_message, load_int, tree_to_buffer, Loaded, loaded, crashed, no_tree,
  out_of_fuel, load_entries, buffer_to_tree,
}

small_int : (n m : ℕ) → n ≡ m → m < 2 ^ 31 → to_int n ≡ pos m
unfolding to_int
small_int n m h lt = ground arith

module _ {A : Type 0} (codec : Codec A) (Wire : A → Type 0) (law : IsCodec codec Wire) where
  pub to_buffer_lem :
      (m : A)
      → length (codec.pack m) < 2 ^ 31
      → to_buffer codec (some m) ≡ (some (codec.pack m), pos (length (codec.pack m)))
  unfolding to_buffer
  to_buffer_lem m h = rw (small_int _ _ (law.sized m) h) (ground arith)

  from_buffer-to_buffer :
      (m : A)
      → Wire m
      → length (codec.pack m) < 2 ^ 31
      → from_buffer codec (to_buffer codec (some m)).0 (to_buffer codec (some m)).1 ≡ some m
  unfolding from_buffer
  from_buffer-to_buffer m w h =
      ap (λ (b : Buffer). from_buffer codec b.0 b.1) (to_buffer_lem m h)
      ∙ ap codec.unpack (take-length (codec.pack m))
      ∙ law.unpacked m w

-- A message that keeps to the format, and whose bytes an `int` counts, comes back from its buffer.
pub buffer_to_message-message_to_buffer :
    (codec : Codec Message) (Wire : Message → Type 0)
    → IsCodec codec Wire
    → (m : Message) → Wire m
    → length (codec.pack m) < 2 ^ 31
    → let (buffer, size) = message_to_buffer codec (some m) in
      buffer_to_message codec buffer size ≡ some (some m)
unfolding message_to_buffer buffer_to_message
buffer_to_message-message_to_buffer codec Wire law m w h =
    ap (λ (b : Buffer). buffer_to_message codec b.0 b.1) (to_buffer_lem codec Wire law m h)
    ∙ ap some (ap codec.unpack (take-length (codec.pack m)) ∙ law.unpacked m w)

-- A value comes back from its buffer, when its size is that of its block, and its message keeps to
-- the format and is no longer than an `int` counts.
pub buffer_to_data-data_to_buffer :
    (codec : Codec DataMessage) (Wire : DataMessage → Type 0)
    → IsCodec codec Wire
    → (d : Data) (m : DataMessage) → IsStorable (some d)
    → data_to_msg (some d) ≡ some m
    → Wire m
    → length (codec.pack m) < 2 ^ 31
    → let (buffer, size) = data_to_buffer codec (some d) in
      buffer_to_data codec buffer size ≡ some d
unfolding data_to_buffer buffer_to_data
buffer_to_data-data_to_buffer codec Wire law d m s e w h =
    ap (λ x. msg_to_data (from_buffer codec (to_buffer codec x).0 (to_buffer codec x).1)) e
    ∙ ap msg_to_data (from_buffer-to_buffer codec Wire law m w h ∙ sym e)
    ∙ msg_to_data-data_to_msg (some d) s

-- An entry that is inside the buffer or not, with the rest of the loop as an argument.
entry_ends :
    (inside : Bool) (o : Option Entry) (go : Entry → Loaded)
    → ((e : Entry) → go e ≢ out_of_fuel)
    → (if inside then elim o [ none ↦ crashed | some e ↦ go e ] else undefined) ≢ out_of_fuel
entry_ends false o go h = λ e. ground (arith, e)
entry_ends true none go h = λ e. ground (arith, e)
entry_ends true (some e) go h = h e

-- One turn of the loop.
turn_ends :
    (more : Bool) (len : Option ℤ) (inside : ℤ → Bool) (o : ℤ → Option Entry)
    (go : ℤ → Entry → Loaded) (tree : Option Tree)
    → (more ≡ true → (n : ℤ) (e : Entry) → go n e ≢ out_of_fuel)
    → (if more
        then elim len [
          | none ↦ undefined
          | some n ↦ if inside n then elim (o n) [ none ↦ crashed | some e ↦ go n e ] else undefined
        ]
        else loaded tree)
      ≢ out_of_fuel
turn_ends false len inside o go tree h = λ e. ground (arith, e)
turn_ends true none inside o go tree h = λ e. ground (arith, e)
turn_ends true (some n) inside o go tree h = entry_ends (inside n) (o n) (go n) (h refl n)

-- A loop that has as much fuel as there are bytes behind the index, and 1 more, ends.
load_entries_ends :
    (codec : Codec EntryMessage) (fuel : ℕ) (buffer : List ℕ) (size i : ℕ) (tree : Option Tree)
    → size ≤ i + fuel
    → load_entries codec (suc fuel) buffer size tree i ≢ out_of_fuel
unfolding load_entries
load_entries_ends codec zero buffer size i tree le =
    turn_ends (ltb i size) (load_int (drop i buffer)) (λ n. ends_inside buffer (i + 4 + pos_part n))
      (buffer_to_entry codec (some (drop (i + 4) buffer))) (λ n x. out_of_fuel) tree
      (λ h n e. absurd (ground (arith, h, le)))
load_entries_ends codec (suc fuel) buffer size i tree le =
    turn_ends (ltb i size) (load_int (drop i buffer)) (λ n. ends_inside buffer (i + 4 + pos_part n))
      (buffer_to_entry codec (some (drop (i + 4) buffer))) _ tree
      (λ h n e.
        load_entries_ends codec fuel buffer size (i + 4 + pos_part n)
          (tree_put tree e.key e.value).0 (omega arith))

-- For every buffer and every size, the loop of `buffer_to_tree` ends within its fuel: with a tree,
-- at a `NULL` entry, or at the first length or entry that is not inside the buffer, for which the
-- code has no defined behaviour.
pub buffer_to_tree_ends :
    (codec : Codec EntryMessage) (buffer : Option (List ℕ)) (size : ℤ)
    → buffer_to_tree codec buffer size ≢ out_of_fuel
unfolding buffer_to_tree
buffer_to_tree_ends codec none size = λ e. ground (arith, e)
buffer_to_tree_ends codec (some buffer) (negsuc n) = λ e. ground (arith, e)
buffer_to_tree_ends codec (some buffer) (pos zero) = λ e. ground (arith, e)
buffer_to_tree_ends codec (some buffer) (pos (suc n)) =
    load_entries_ends codec (suc n) buffer (suc n) 0 (some tree_create) (omega arith)

-- An empty tree has a buffer of length 0, from which no tree comes back.
pub empty_tree_lost :
    (codec : Codec EntryMessage) (junk : Buffer)
    → let (buffer, size) = tree_to_buffer codec junk (some tree_create) in
      (size ≡ pos 0) × (buffer_to_tree codec buffer size ≡ no_tree)
unfolding tree_to_buffer buffer_to_tree tree_create
empty_tree_lost codec junk = (refl, refl)
