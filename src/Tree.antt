-- ===== src/Tree.antt =====
-- source/tree.c: the binary search tree. A node pointer that may be `NULL` is a `Node`; a pointer
-- to a node pointer is the path to it from the root. The counters are `int`s that do not overflow.
pub mod Order
pub mod Lookup
pub mod Counters
pub mod Invariant
pub mod Map
pub mod Keys
pub mod Rebuild
use sdistr2020_group.Prelude.{
  ℕ, zero, suc, ◌+◌, Option, none, some, List, [], ◌∷◌, ℤ, pos, negsuc, ◌+ℤ◌, max_ℤ, pos_part, set,
  replicate, lt, eq, gt, is_null, ◌||◌, if◌then◌else◌,
}
use mathlib.Core.Option
use sdistr2020_group.Data.{Data, data_create, data_dup}
use sdistr2020_group.Entry.{Str, Entry, entry_create, key_order, strdup}

-- `struct tree_node_t*`
pub data Node : Type 0 where
  null : Node
  node : Entry → Node → Node → Node

-- `struct tree_t`
pub record Tree : Type 0 where
  pub root : Node
  pub size : ℤ
  pub height : ℤ

unfoldable pub tree_create : Tree
tree_create = record { root = null; size = pos 0; height = negsuc 0 }

pub node_create : Option Str → Option Data → Node
unfolding entry_create
node_create key value = node (entry_create key value) null null

-- How the walk of `_tree_put` ends: at a node with the key, or at a `NULL` child of that depth.
pub data Walk : Type 0 where
  replaced : Walk
  inserted : ℕ → Walk

pub tree_put_walk : Node → ℕ → Option Str → Option Data → Node × Walk
unfolding node_create
tree_put_walk null depth key value = (node_create key value, inserted depth)
tree_put_walk (node entry left right) depth key value =
    let low = tree_put_walk left (depth + 1) key value in
    let high = tree_put_walk right (depth + 1) key value in
    elim (key_order key entry.key) [
      | eq ↦ (node (entry_create key value) left right, replaced)
      | lt ↦ (node entry low.0 right, low.1)
      | gt ↦ (node entry left high.0, high.1)
    ]

pub tree_put_end : Tree → Node × Walk → Tree
tree_put_end tree (root, replaced) = record tree { root = root }
tree_put_end tree (root, inserted depth) = record {
  root = root;
  size = tree.size +ℤ pos 1;
  height = max_ℤ (pos depth) tree.height;
}

-- The part of `tree_put` behind its guard.
pub tree_put_copies : Tree → Option Str → Option Data → Tree
unfolding tree_put_walk tree_put_end node_create ◌+ℤ◌ max_ℤ
tree_put_copies tree key value = elim tree.root [
  | null ↦ record { root = node_create key value; size = pos 1; height = pos 0 }
  | node e l r ↦ tree_put_end tree (tree_put_walk tree.root 0 key value)
]

-- The tree after the call, and the result.
unfoldable pub tree_put : Option Tree → Option Str → Option Data → Option Tree × ℤ
unfolding tree_put_copies strdup
tree_put none key value = (none, negsuc 0)
tree_put (some tree) key value =
    if is_null key || is_null value
    then (some tree, negsuc 0)
    else (some (tree_put_copies tree (strdup key) (data_dup value)), pos 0)

pub data Side : Type 0 where
  left right : Side

abbrev pub Pointer : Type 0
Pointer = List Side

pub tree_node_pointer_get : Node → Option Str → Option Pointer
tree_node_pointer_get null key = none
tree_node_pointer_get (node entry l r) key =
    let low = Option.map (λ p. left ∷ p) (tree_node_pointer_get l key) in
    let high = Option.map (λ p. right ∷ p) (tree_node_pointer_get r key) in
    elim (key_order key entry.key) [ eq ↦ some [] | lt ↦ low | gt ↦ high ]

-- `*pointer`
pub deref : Node → Pointer → Node
deref root [] = root
deref null (s ∷ p) = null
deref (node e l r) (left ∷ p) = deref l p
deref (node e l r) (right ∷ p) = deref r p

-- `*pointer = replacement`
pub assign : Node → Pointer → Node → Node
assign root [] replacement = replacement
assign null (s ∷ p) replacement = null
assign (node e l r) (left ∷ p) replacement = node e (assign l p replacement) r
assign (node e l r) (right ∷ p) replacement = node e l (assign r p replacement)

-- `(*pointer_to_node)->entry->value`
pub value_of : Node → Option Data
value_of null = none
value_of (node entry l r) = entry.value

unfoldable pub tree_get : Option Tree → Option Str → Option Data
unfolding tree_node_pointer_get deref value_of
tree_get none key = none
tree_get (some tree) key = elim tree.root [
  | null ↦ data_create [] (pos 0)
  | node e l r ↦ elim (tree_node_pointer_get tree.root key) [
    | none ↦ data_create [] (pos 0)
    | some pointer ↦ data_dup (value_of (deref tree.root pointer))
  ]
]

-- The loop that walks down the left side of the right child: the entry of the lowest successor,
-- and the right child without it.
pub pop_lowest : Entry → Node → Node → Entry × Node
pop_lowest entry null r = (entry, r)
pop_lowest entry (node e l r') r =
    let (lowest, rest) = pop_lowest e l r' in (lowest, node entry rest r)

-- The node that replaces the deleted one.
pub replacement_of : Node → Node → Node
unfolding pop_lowest
replacement_of null null = null
replacement_of null (node e l r) = node e l r
replacement_of (node e l r) null = node e l r
replacement_of (node e l r) (node e' l' r') =
    let (lowest, rest) = pop_lowest e' l' r' in node lowest (node e l r) rest

pub node_replacement : Node → Node
unfolding replacement_of
node_replacement null = null
node_replacement (node entry l r) = replacement_of l r

pub tree_node_del : Node → Pointer → Node
unfolding node_replacement assign deref
tree_node_del root pointer = assign root pointer (node_replacement (deref root pointer))

unfoldable pub tree_compute_height : Node → ℤ
unfolding max_ℤ ◌+ℤ◌
tree_compute_height null = negsuc 0
tree_compute_height (node e l r) = pos 1 +ℤ max_ℤ (tree_compute_height l) (tree_compute_height r)

pub tree_del_found : Tree → Option Pointer → Tree
unfolding tree_node_del ◌+ℤ◌ tree_compute_height
tree_del_found tree none = tree
tree_del_found tree (some pointer) =
    let root = tree_node_del tree.root pointer in
    record { root = root; size = tree.size +ℤ negsuc 0; height = tree_compute_height root }

unfoldable pub tree_del : Option Tree → Option Str → Option Tree × ℤ
unfolding tree_del_found tree_node_pointer_get
tree_del none key = (none, negsuc 0)
tree_del (some tree) key = elim tree.root [
  | null ↦ (some tree, negsuc 0)
  | node e l r ↦ (some (tree_del_found tree (tree_node_pointer_get tree.root key)), pos 0)
]

unfoldable pub tree_size : Option Tree → ℤ
tree_size none = negsuc 0
tree_size (some tree) = tree.size

unfoldable pub tree_height : Option Tree → ℤ
tree_height none = negsuc 0
tree_height (some tree) = tree.height

-- The array of keys, and the index behind the last key that was written.
pub collect_keys : Node → List (Option Str) → ℕ → List (Option Str) × ℕ
unfolding strdup
collect_keys null keys next_index = (keys, next_index)
collect_keys (node entry l r) keys next_index =
    let (keys', index) = collect_keys l keys next_index in
    collect_keys r (set keys' index (strdup entry.key)) (index + 1)

-- The whole array that `malloc` made room for. What stands in it before is not known: `junk`.
unfoldable pub tree_get_keys : Option Str → Option Tree → Option (List (Option Str))
unfolding collect_keys
tree_get_keys junk none = none
tree_get_keys junk (some tree) =
    let (keys, last_index) = collect_keys tree.root (replicate (pos_part tree.size + 1) junk) 0 in
    some (set keys last_index none)
