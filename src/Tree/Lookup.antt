-- ===== src/Tree/Lookup.antt =====
-- What a search of the nodes of source/tree.c finds after an insertion and after a deletion.
use sdistr2020_group.Prelude.{ℕ, ◌+◌, ◌≡◌, ◌≢◌, Option, none, some, lt, gt, eq, refl, arith}
use sdistr2020_group.Data.{Data}
use sdistr2020_group.Entry.{Str, Entry, key_order, entry_create}
use sdistr2020_group.Entry.Order.{key_order_refl, eq_of_key_order, lt_of_gt, gt_of_lt, lt_trans}
use sdistr2020_group.Tree.{
  Node, null, node, tree_put_walk, pop_lowest, replacement_of, tree_node_pointer_get, deref,
  value_of,
}
use sdistr2020_group.Tree.Order.{All, All-imp, All-pop_lowest, IsOrdered, ◌≺◌, delete}

-- The value that stands at a key, which may be `NULL`; `none` if the key is not in the tree.
unfoldable pub lookup : Node → Option Str → Option (Option Data)
lookup null key = none
lookup (node e l r) key = elim (key_order key e.key) [
  | eq ↦ some e.value
  | lt ↦ lookup l key
  | gt ↦ lookup r key
]

-- The pointer search of the code finds what `lookup` reads.
pub lookup-pointer :
    (t : Node) (key : Option Str)
    → lookup t key
      ≡ elim (tree_node_pointer_get t key) [ none ↦ none | some p ↦ some (value_of (deref t p)) ]
unfolding lookup tree_node_pointer_get deref value_of
lookup-pointer null key = refl
lookup-pointer (node e l r) key = ground (arith, lookup-pointer l key, lookup-pointer r key)

pub lookup-put_self :
    (t : Node) (d : ℕ) (key : Option Str) (value : Option Data)
    → lookup (tree_put_walk t d key value).0 key ≡ some value
unfolding lookup tree_put_walk entry_create
lookup-put_self null d key value = ground (arith, key_order_refl key)
lookup-put_self (node e l r) d key value = ground (
  arith,
  key_order_refl key,
  lookup-put_self l (d + 1) key value,
  lookup-put_self r (d + 1) key value,
)

pub lookup-put_ne :
    (t : Node) (d : ℕ) (key k : Option Str) (value : Option Data)
    → k ≢ key
    → lookup (tree_put_walk t d key value).0 k ≡ lookup t k
unfolding lookup tree_put_walk entry_create
lookup-put_ne null d key k value n = ground (arith, eq_of_key_order k key)
lookup-put_ne (node e l r) d key k value n = ground (
  arith,
  lookup-put_ne l (d + 1) key k value,
  lookup-put_ne r (d + 1) key k value,
  eq_of_key_order k e.key,
  eq_of_key_order key e.key,
  eq_of_key_order k key,
)

lookup_below : (t : Node) (k : Option Str) → All (λ x. x ≺ k) t → lookup t k ≡ none
unfolding lookup
lookup_below null k b = refl
lookup_below (node e l r) k b = ground (arith, gt_of_lt e.key k b.1, lookup_below r k b.2)

lookup_above : (t : Node) (k : Option Str) → All (λ x. k ≺ x) t → lookup t k ≡ none
unfolding lookup
lookup_above null k b = refl
lookup_above (node e l r) k b = ground (arith, b.1, lookup_above l k b.0)

-- Past a bound of the whole tree there is nothing.
lookup_beyond : (t : Node) (k p : Option Str) → All (λ x. x ≺ k) t → k ≺ p → lookup t p ≡ none
lookup_beyond t k p b h = lookup_below t p (All-imp (λ x c. lt_trans x k p c h) t b)

lookup_before : (t : Node) (k p : Option Str) → All (λ x. k ≺ x) t → p ≺ k → lookup t p ≡ none
lookup_before t k p b h = lookup_above t p (All-imp (λ x c. lt_trans p k x h c) t b)

-- A tree reads like its lowest entry with the rest on its right.
lookup-pop_lowest :
    (e : Entry) (l r : Node) (k : Option Str)
    → IsOrdered (node e l r)
    → lookup (node (pop_lowest e l r).0 null (pop_lowest e l r).1) k ≡ lookup (node e l r) k
unfolding lookup pop_lowest
lookup-pop_lowest e null r k s = refl
lookup-pop_lowest e (node e' l' r') r k s =
    let m = (pop_lowest e' l' r').0.key in
    ground (
      arith,
      lookup-pop_lowest e' l' r' k s.2,
      (All-pop_lowest (λ x. x ≺ e.key) e' l' r' s.0).0,
      lt_trans k m e.key,
      eq_of_key_order k m,
    )

lookup-replacement_ne :
    (e : Entry) (l r : Node) (k : Option Str)
    → IsOrdered (node e l r)
    → k ≢ e.key
    → lookup (replacement_of l r) k ≡ lookup (node e l r) k
unfolding lookup replacement_of
lookup-replacement_ne e null null k s n = ground (arith, eq_of_key_order k e.key)
lookup-replacement_ne e null (node e2 l2 r2) k s n =
    ground (arith, eq_of_key_order k e.key, lookup_before (node e2 l2 r2) e.key k s.1)
lookup-replacement_ne e (node e1 l1 r1) null k s n =
    ground
      (arith, eq_of_key_order k e.key, lt_of_gt k e.key, lookup_beyond (node e1 l1 r1) e.key k s.0)
lookup-replacement_ne e (node e1 l1 r1) (node e2 l2 r2) k s n =
    let m = (pop_lowest e2 l2 r2).0.key in
    ground (
      arith,
      eq_of_key_order k e.key,
      lt_of_gt k e.key,
      lookup_beyond (node e1 l1 r1) e.key k s.0,
      lookup-pop_lowest e2 l2 r2 k s.3,
      (All-pop_lowest (λ x. e.key ≺ x) e2 l2 r2 s.1).0,
      lt_trans k e.key m,
    )

lookup-replacement_self :
    (e : Entry) (l r : Node) → IsOrdered (node e l r) → lookup (replacement_of l r) e.key ≡ none
unfolding lookup replacement_of
lookup-replacement_self e null null s = refl
lookup-replacement_self e null (node e2 l2 r2) s = lookup_above (node e2 l2 r2) e.key s.1
lookup-replacement_self e (node e1 l1 r1) null s = lookup_below (node e1 l1 r1) e.key s.0
lookup-replacement_self e (node e1 l1 r1) (node e2 l2 r2) s = ground (
  arith,
  (All-pop_lowest (λ x. e.key ≺ x) e2 l2 r2 s.1).0,
  lookup_below (node e1 l1 r1) e.key s.0,
)

pub lookup-delete_self :
    (t : Node) (key : Option Str) → IsOrdered t → lookup (delete t key) key ≡ none
unfolding lookup delete
lookup-delete_self null key s = refl
lookup-delete_self (node e l r) key s = ground (
  arith,
  lookup-delete_self l key,
  lookup-delete_self r key,
  lookup-replacement_self e l r s,
  eq_of_key_order key e.key,
)

pub lookup-delete_ne :
    (t : Node) (key k : Option Str) → IsOrdered t → k ≢ key → lookup (delete t key) k ≡ lookup t k
unfolding lookup delete
lookup-delete_ne null key k s n = refl
lookup-delete_ne (node e l r) key k s n = ground (
  arith,
  lookup-delete_ne l key k,
  lookup-delete_ne r key k,
  lookup-replacement_ne e l r k s,
  eq_of_key_order key e.key,
)
