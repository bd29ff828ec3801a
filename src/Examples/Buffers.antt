-- ===== src/Examples/Buffers.antt =====
-- source/serialization.c with a packing that writes a key of one byte and a value of one byte.
use sdistr2020_group.Prelude.{
  sym, ℕ, ◌≡◌, ◌≢◌, refl, Option, none, some, List, [], ◌∷◌, pos, length, arith,
}
use sdistr2020_group.Data.{copy}
use sdistr2020_group.Prelude.{◌<◌, ◌^◌, map}
use sdistr2020_group.Message.{to_int}
use sdistr2020_group.Tree.Rebuild.{preorder}
use sdistr2020_group.Serialization.{frames, frame, to_buffer, store_int}
use sdistr2020_group.Entry.{Entry, key_order, key_compare, strcmp}
use sdistr2020_group.Message.{
  Message, Content, EntryMessage, op_size, entry_to_msg, data_to_msg, string_to_msg,
}
use sdistr2020_group.Tree.{null, node, Tree, tree_compute_height}
use sdistr2020_group.Tree.Invariant.{IsValid}
use sdistr2020_group.Serialization.{
  Codec, IsCodec, tree_to_buffer, entry_to_buffer, buffer_to_tree, loaded, out_of_fuel,
}
use sdistr2020_group.Serialization.Buffers.{buffer_to_tree_ends}
use sdistr2020_group.Serialization.Frames.{buf, IsCarried}
use sdistr2020_group.Serialization.RoundTrip.{buffer_to_tree-tree_to_buffer}

-- An entry of a key and a value of 1 byte each.
abbrev short : ℕ → ℕ → EntryMessage
short k v = record {
  key = some (record { str = k ∷ [] });
  value = some (record { len = 1; block = some (v ∷ []) });
}

abbrev pack_short : EntryMessage → List ℕ
pack_short m = elim m.key [
  | none ↦ []
  | some s ↦ elim s.str [
    | [] ↦ []
    | k ∷ rest ↦ elim m.value [
      | none ↦ []
      | some d ↦ elim d.block [ none ↦ [] | some b ↦ elim b [ [] ↦ [] | v ∷ more ↦ k ∷ v ∷ [] ] ]
    ]
  ]
]

abbrev unpack_short : List ℕ → Option EntryMessage
unpack_short (k ∷ v ∷ []) = some (short k v)
unpack_short _ = none

abbrev codec : Codec EntryMessage
codec = record {
  packed_size = λ m. length (pack_short m);
  pack = pack_short;
  unpack = unpack_short;
}

abbrev IsShort : EntryMessage → Type 0
IsShort m = (k : ℕ) × (v : ℕ) × (m ≡ short k v)

codec_law : IsCodec codec IsShort
codec_law = record { sized = λ m. refl; unpacked = λ m (k, v, e). rw e refl }

abbrev pub short_entry : ℕ → ℕ → Entry
short_entry k v = record {
  key = some (k ∷ []);
  value = some (record { datasize = pos 1; block = some (v ∷ []) });
}

abbrev pub three : Tree
three = record {
  root =
      node (short_entry b'm' 1) (node (short_entry b'c' 2) null null)
        (node (short_entry b't' 3) null null);
  size = pos 3;
  height = pos 1;
}

pub three-IsValid : IsValid three
unfolding tree_compute_height key_order key_compare strcmp
three-IsValid = record {
  ordered = ((tt, refl, tt), (tt, refl, tt), (tt, tt, tt, tt), (tt, tt, tt, tt));
  named = ((tt, refl, tt), refl, (tt, refl, tt));
  counted = refl;
  tall = refl;
}

carried : (k v : ℕ) → IsCarried codec IsShort codec_law (short_entry k v)
unfolding string_to_msg data_to_msg copy
carried k v = record {
  put = (refl, record { fits = refl });
  storable = (record { fits = refl }, omega arith);
  wire = (k, v, refl);
  small = omega arith;
}

three_small : length (frames (map (buf codec IsShort codec_law) (preorder three.root))) < 2 ^ 31
unfolding frames frame entry_to_buffer entry_to_msg copy to_buffer to_int store_int string_to_msg
    data_to_msg
three_small = omega arith

buffer_to_tree-tree_to_buffer_example :
    buffer_to_tree codec
      (tree_to_buffer codec (none, pos 0) (some three)).0
      (tree_to_buffer codec (none, pos 0) (some three)).1
    ≡ loaded (some three)
buffer_to_tree-tree_to_buffer_example =
    buffer_to_tree-tree_to_buffer codec IsShort codec_law three (short_entry b'm' 1)
      (node (short_entry b'c' 2) null null) (node (short_entry b't' 3) null null) (none, pos 0)
      three-IsValid refl (carried b'm' 1, (carried b'c' 2, (carried b't' 3, tt))) three_small

-- The bytes of a tree of one node.
one_node :
    tree_to_buffer codec
      (none, pos 0)
      (some (record { root = node (short_entry b'm' 1) null null; size = pos 1; height = pos 0 }))
    ≡ (some (2 ∷ 0 ∷ 0 ∷ 0 ∷ b'm' ∷ 1 ∷ []), pos 6)
unfolding tree_to_buffer entry_to_buffer entry_to_msg copy
one_node = refl

-- A buffer that is cut off: the entry ends beyond it.
buffer_to_tree_ends_example :
    buffer_to_tree codec (some (2 ∷ 0 ∷ 0 ∷ 0 ∷ b'm' ∷ [])) (pos 5) ≢ out_of_fuel
buffer_to_tree_ends_example = buffer_to_tree_ends codec (some (2 ∷ 0 ∷ 0 ∷ 0 ∷ b'm' ∷ [])) (pos 5)

-- A packing of requests for the size, as their code alone.
abbrev pub codes : Codec Message
codes = record {
  packed_size = λ m. 1;
  pack = λ m. m.op_code ∷ [];
  unpack = λ bytes. elim bytes [
    | [] ↦ none
    | c ∷ rest ↦ some (record { op_code = c; content = Content.not_set })
  ];
}

abbrev pub IsBare : Message → Type 0
IsBare m = m.content ≡ Content.not_set

pub codes_law : IsCodec codes IsBare
codes_law = record {
  sized = λ m. refl;
  unpacked = λ m w i. some (record { op_code = m.op_code; content = sym w i });
}

abbrev pub size_request : Message
size_request = record { op_code = op_size; content = Content.not_set }
