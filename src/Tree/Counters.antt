-- ===== src/Tree/Counters.antt =====
-- The number of nodes and the height, which source/tree.c keeps beside the root.
use Prim.Native.Nat.{max}
use native.Mathlib.Nat.{two-pow-succ, pow-le-pow_right}
use sdistr2020_group.Prelude.{
  ℕ, zero, suc, ◌+◌, ◌^◌, ◌≤◌, ◌≡◌, Option, none, some, refl, arith, pos, ◌+ℤ◌, max_ℤ, sub_ℕ,
}
use sdistr2020_group.Data.{Data}
use sdistr2020_group.Entry.{Str, Entry}
use sdistr2020_group.Tree.{
  Node, null, node, Walk, replaced, inserted, tree_put_walk, pop_lowest, replacement_of,
  tree_compute_height,
}
use sdistr2020_group.Tree.Order.{delete}
use sdistr2020_group.Tree.Lookup.{lookup}

abbrev pub count : Node → ℕ
count null = 0
count (node e l r) = suc (count l + count r)

-- One more than the height.
abbrev pub levels : Node → ℕ
levels null = 0
levels (node e l r) = suc (max (levels l) (levels r))

height_of_levels : (a b : ℕ) → pos 1 +ℤ max_ℤ (sub_ℕ a 1) (sub_ℕ b 1) ≡ sub_ℕ (suc (max a b)) 1
unfolding ◌+ℤ◌ max_ℤ
height_of_levels zero zero = refl
height_of_levels zero (suc b) = ground arith
height_of_levels (suc a) zero = ground arith
height_of_levels (suc a) (suc b) = ground arith

pub compute_height-levels : (t : Node) → tree_compute_height t ≡ sub_ℕ (levels t) 1
unfolding tree_compute_height
compute_height-levels null = refl
compute_height-levels (node e l r) =
    rw (compute_height-levels l, compute_height-levels r) (height_of_levels (levels l) (levels r))

-- 1 for a hit and 0 for a miss.
abbrev pub found {ℓ} : {A : Type ℓ} → Option A → ℕ
found none = 0
found (some _) = 1

-- What the walk reports about the tree `t'` that it leaves.
abbrev pub Reports : Node → Node → ℕ → Option (Option Data) → Walk → Type 0
Reports t t' d old replaced = (count t' ≡ count t) × (levels t' ≡ levels t) × (found old ≡ 1)
Reports t t' d old (inserted depth) =
    (count t' ≡ count t + 1)
    × (levels t' + d ≡ max (levels t + d) (depth + 1))
    × (found old ≡ 0)
    × (d ≤ depth)

pub put-Reports :
    (t : Node) (d : ℕ) (key : Option Str) (value : Option Data)
    → Reports t (tree_put_walk t d key value).0 d (lookup t key) (tree_put_walk t d key value).1
unfolding tree_put_walk lookup
put-Reports null d key value = omega arith
put-Reports (node e l r) d key value =
    ground (arith, put-Reports l (d + 1) key value, put-Reports r (d + 1) key value)

count-pop_lowest : (e : Entry) (l r : Node) → count (pop_lowest e l r).1 ≡ count l + count r
unfolding pop_lowest
count-pop_lowest e null r = omega arith
count-pop_lowest e (node e' l' r') r = omega (arith, count-pop_lowest e' l' r')

count-replacement : (l r : Node) → count (replacement_of l r) ≡ count l + count r
unfolding replacement_of
count-replacement null null = omega arith
count-replacement null (node e l r) = omega arith
count-replacement (node e l r) null = omega arith
count-replacement (node e l r) (node e' l' r') = omega (arith, count-pop_lowest e' l' r')

pub count-delete :
    (t : Node) (key : Option Str) → count (delete t key) + found (lookup t key) ≡ count t
unfolding delete lookup
count-delete null key = refl
count-delete (node e l r) key =
    ground (arith, count-delete l key, count-delete r key, count-replacement l r)

pub levels-le-count : (t : Node) → levels t ≤ count t
levels-le-count null = omega arith
levels-le-count (node e l r) = omega (arith, levels-le-count l, levels-le-count r)

pub count-lt-pow : (t : Node) → count t + 1 ≤ 2 ^ levels t
count-lt-pow null = omega arith
count-lt-pow (node e l r) = omega (
  arith,
  two-pow-succ (max (levels l) (levels r)),
  pow-le-pow_right {n = 2} (omega arith) {i = levels l} {j = max (levels l) (levels r)}
      (omega arith),
  pow-le-pow_right {n = 2} (omega arith) {i = levels r} {j = max (levels l) (levels r)}
      (omega arith),
  count-lt-pow l,
  count-lt-pow r,
)
