-- ===== src/Data.antt =====
-- source/data.c: blocks of bytes. A block is the list of its bytes, and a pointer that may be
-- `NULL` is an `Option`.
pub mod Copies
use sdistr2020_group.Prelude.{
  ℕ, ◌≡◌, Bool, Option, none, some, List, ◌&&◌, ◌||◌, not, ℤ, pos, negsuc, pos_part, ltb_ℤ, eqb_ℤ,
  is_null, take, length, if◌then◌else◌,
}

-- `struct data_t`
pub record Data : Type 0 where
  pub datasize : ℤ
  pub block : Option (List ℕ)

pub are_params_invalid : ℤ → Option (List ℕ) → Bool
are_params_invalid size block = ltb_ℤ size (pos 0) || (not (eqb_ℤ size (pos 0)) && is_null block)

unfoldable pub data_create2 : ℤ → Option (List ℕ) → Option Data
unfolding are_params_invalid
data_create2 size block =
    if are_params_invalid size block then none else some (record { datasize = size; block = block })

-- `fresh` is the block, not initialised, that `malloc(size)` returns.
unfoldable pub data_create : List ℕ → ℤ → Option Data
unfolding data_create2
data_create fresh size =
    if ltb_ℤ size (pos 0)
    then none
    else if eqb_ℤ size (pos 0)
    then data_create2 (pos 0) none
    else data_create2 size (some fresh)

-- `malloc` of a negative size is a request for more than 2^63 bytes and returns `NULL`.
unfoldable pub copy : Option (List ℕ) → ℤ → Option (List ℕ)
copy none size = none
copy (some block) (negsuc n) = none
copy (some block) (pos size) = some (take size block)

unfoldable pub data_dup : Option Data → Option Data
unfolding are_params_invalid data_create2 copy
data_dup none = none
data_dup (some d) =
    if are_params_invalid d.datasize d.block
    then none
    else data_create2 d.datasize (copy d.block d.datasize)

-- The structure after the call; the old block is freed.
pub data_replace : Option Data → ℤ → Option (List ℕ) → Option Data
unfolding are_params_invalid
data_replace none new_size new_block = none
data_replace (some d) new_size new_block =
    if not (are_params_invalid new_size new_block)
    then some (record { datasize = new_size; block = new_block })
    else some d

-- The size field is the length of the block, or the block is `NULL` and empty.
abbrev pub Fits : ℤ → Option (List ℕ) → Type 0
Fits size none = size ≡ pos 0
Fits size (some block) = size ≡ pos (length block)

pub record IsValid (d : Data) : Type 0 where
  pub fits : Fits d.datasize d.block
