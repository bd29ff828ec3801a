-- ===== src/Data/Copies.antt =====
-- What the constructors and the copies of data.c return.
use sdistr2020_group.Prelude.{
  ℕ, ◌≡◌, refl, Option, none, some, false, List, ℤ, pos, negsuc, length, take-length, arith,
}
use sdistr2020_group.Data.{Data, IsValid, Fits, data_create2, data_dup, copy, are_params_invalid}

pub copy_lem : (size : ℤ) (b : Option (List ℕ)) → Fits size b → copy b size ≡ b
unfolding copy
copy_lem size none h = refl
copy_lem (pos n) (some b) h = ground (arith, take-length b)
copy_lem (negsuc n) (some b) h = ground arith

pub params-Fits : (size : ℤ) (b : Option (List ℕ)) → Fits size b → are_params_invalid size b ≡ false
unfolding are_params_invalid
params-Fits size none h = ground arith
params-Fits size (some b) h = ground arith

-- The copy of a valid block has the size and the bytes of the block.
pub data_dup-IsValid : (d : Data) → IsValid d → data_dup (some d) ≡ some d
unfolding data_dup data_create2
data_dup-IsValid d h =
    ground (arith, params-Fits d.datasize d.block h.fits, copy_lem d.datasize d.block h.fits)

-- A block that data_create2 accepts, with a buffer of the size that it is told, is valid.
pub data_create2-IsValid :
    (size : ℤ) (b : Option (List ℕ)) (d : Data)
    → ((xs : List ℕ) → b ≡ some xs → size ≡ pos (length xs))
    → data_create2 size b ≡ some d
    → IsValid d × (d.datasize ≡ size) × (d.block ≡ b)
unfolding data_create2 are_params_invalid
data_create2-IsValid size none d h e = ground arith
data_create2-IsValid size (some xs) d h e = ground (arith, h xs)
