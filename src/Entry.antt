-- ===== src/Entry.antt =====
-- source/entry.c: pairs of a key and a value. A key is the list of its bytes, none of which is 0,
-- without the terminator; two pointers that are equal point to equal strings, on which `strcmp`
-- answers what the test of the pointers answers.
pub mod Order
use sdistr2020_group.Prelude.{
  ℕ, Option, none, some, List, [], ◌∷◌, ℤ, pos, negsuc, zero, suc, compare, Ordering, lt, eq, gt,
}
use sdistr2020_group.Data.{Data, data_dup}

abbrev pub Str : Type 0
Str = List ℕ

-- `struct entry_t`
pub record Entry : Type 0 where
  pub key : Option Str
  pub value : Option Data

unfoldable pub entry_create : Option Str → Option Data → Entry
entry_create key value = record { key = key; value = value }

pub entry_initialize : Option Entry → Option Entry
entry_initialize none = none
entry_initialize (some entry) = some (record { key = none; value = none })

-- `strdup` of the C library; a call with `NULL` does not return, and no caller makes one.
unfoldable pub strdup : Option Str → Option Str
strdup key = key

pub entry_dup : Option Entry → Option Entry
unfolding strdup entry_create
entry_dup none = none
entry_dup (some entry) = some (entry_create (strdup entry.key) (data_dup entry.value))

pub entry_replace : Option Entry → Option Str → Option Data → Option Entry
entry_replace none new_key new_value = none
entry_replace (some entry) new_key new_value = some (record { key = new_key; value = new_value })

-- `strcmp` of the C library, of which only the sign is fixed: bytes compare as unsigned numbers.
unfoldable pub strcmp : Str → Str → ℤ
strcmp [] [] = pos 0
strcmp [] (b ∷ bs) = negsuc 0
strcmp (a ∷ s) [] = pos 1
strcmp (a ∷ s) (b ∷ bs) = elim (compare a b) [ lt ↦ negsuc 0 | gt ↦ pos 1 | eq ↦ strcmp s bs ]

-- How the callers read a comparison: by the tests `comparison == 0` and `comparison < 0`.
unfoldable pub sign : ℤ → Ordering
sign (pos zero) = eq
sign (pos (suc n)) = gt
sign (negsuc n) = lt

-- `comparison < 0 ? -1 : (comparison == 0 ? 0 : +1)`
normalize : Ordering → ℤ
normalize lt = negsuc 0
normalize eq = pos 0
normalize gt = pos 1

unfoldable pub key_compare : Option Str → Option Str → ℤ
unfolding normalize sign
key_compare none none = pos 0
key_compare none (some key2) = negsuc 0
key_compare (some key1) none = pos 1
key_compare (some key1) (some key2) = normalize (sign (strcmp key1 key2))

pub entry_compare : Option Entry → Option Entry → ℤ
entry_compare none none = pos 0
entry_compare none (some entry2) = negsuc 0
entry_compare (some entry1) none = pos 1
entry_compare (some entry1) (some entry2) = key_compare entry1.key entry2.key

-- The branch that the walks of tree.c take on a comparison of two keys.
unfoldable pub key_order : Option Str → Option Str → Ordering
unfolding sign
key_order key1 key2 = sign (key_compare key1 key2)
