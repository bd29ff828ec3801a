-- ===== src/Tree/Order.antt =====
-- The search-tree order of the nodes: every operation of source/tree.c that writes keeps it.
use sdistr2020_group.Prelude.{ℕ, ◌+◌, ◌≡◌, Option, none, some, lt, gt, eq, refl, arith, [], ◌∷◌}
use sdistr2020_group.Data.{Data}
use sdistr2020_group.Entry.{Str, Entry, key_order, entry_create}
use sdistr2020_group.Entry.Order.{eq_of_key_order, lt_of_gt, lt_trans}
use sdistr2020_group.Tree.{
  Node, null, node, tree_put_walk, pop_lowest, replacement_of, tree_node_pointer_get, tree_node_del,
  Pointer, left, right,
}

infix 50 ◌≺◌
abbrev pub ◌≺◌ : Option Str → Option Str → Type 0
a ≺ b = key_order a b ≡ lt

-- Every key of the tree satisfies `P`.
abbrev pub All : (Option Str → Type 0) → Node → Type 0
All P null = Unit
All P (node e l r) = All P l × P e.key × All P r

abbrev pub IsOrdered : Node → Type 0
IsOrdered null = Unit
IsOrdered (node e l r) = All (λ k. k ≺ e.key) l × All (λ k. e.key ≺ k) r × IsOrdered l × IsOrdered r

pub All-imp :
    {P Q : Option Str → Type 0} → ((k : Option Str) → P k → Q k) → (t : Node) → All P t → All Q t
All-imp f null a = tt
All-imp f (node e l r) (pl, pk, pr) = (All-imp f l pl, f e.key pk, All-imp f r pr)

-- The deletion of a key as one recursion, without the pointer that the code finds first.
unfoldable pub delete : Node → Option Str → Node
delete null key = null
delete (node e l r) key =
    let low = delete l key in
    let high = delete r key in
    elim (key_order key e.key) [ eq ↦ replacement_of l r | lt ↦ node e low r | gt ↦ node e l high ]

-- A key that the pointer search does not find is not deleted either.
pub delete-none :
    (t : Node) (key : Option Str) → tree_node_pointer_get t key ≡ none → delete t key ≡ t
unfolding delete tree_node_pointer_get
delete-none null key h = refl
delete-none (node e l r) key h = ground (arith, delete-none l key, delete-none r key)

-- Unlinking the node behind the pointer that the search finds deletes its key.
pub delete-some :
    (t : Node) (key : Option Str) (p : Pointer)
    → tree_node_pointer_get t key ≡ some p
    → tree_node_del t p ≡ delete t key
unfolding delete tree_node_pointer_get tree_node_del
delete-some null key p h = ground arith
delete-some (node e l r) key [] h = ground arith
delete-some (node e l r) key (left ∷ p) h = ground (arith, delete-some l key p)
delete-some (node e l r) key (right ∷ p) h = ground (arith, delete-some r key p)

pub All-pop_lowest :
    (P : Option Str → Type 0) (e : Entry) (l r : Node)
    → All P (node e l r)
    → P (pop_lowest e l r).0.key × All P (pop_lowest e l r).1
unfolding pop_lowest
All-pop_lowest P e null r a = (a.1, a.2)
All-pop_lowest P e (node e' l' r') r a =
    let (low, rest) = All-pop_lowest P e' l' r' a.0 in (low, (rest, a.1, a.2))

All-replacement :
    (P : Option Str → Type 0) (l r : Node) → All P l → All P r → All P (replacement_of l r)
unfolding replacement_of
All-replacement P null null a b = tt
All-replacement P null (node e l r) a b = b
All-replacement P (node e l r) null a b = a
All-replacement P (node e l r) (node e' l' r') a b =
    let (low, rest) = All-pop_lowest P e' l' r' b in (a, low, rest)

pub All-put :
    (P : Option Str → Type 0) (t : Node) (d : ℕ) (key : Option Str) (value : Option Data)
    → P key
    → All P t
    → All P (tree_put_walk t d key value).0
unfolding tree_put_walk entry_create
All-put P null d key value p a = (tt, p, tt)
All-put P (node e l r) d key value p a =
    ground (arith, All-put P l (d + 1) key value, All-put P r (d + 1) key value)

pub All-delete :
    (P : Option Str → Type 0) (t : Node) (key : Option Str) → All P t → All P (delete t key)
unfolding delete
All-delete P null key a = tt
All-delete P (node e l r) key a =
    ground (arith, All-delete P l key, All-delete P r key, All-replacement P l r)

-- A node that takes an equal key keeps its place.
All-below_eq :
    (a b : Option Str) (t : Node) → key_order a b ≡ eq → All (λ k. k ≺ b) t → All (λ k. k ≺ a) t
All-below_eq a b t h = All-imp (λ k c. rw (eq_of_key_order a b h) c) t

All-above_eq :
    (a b : Option Str) (t : Node) → key_order a b ≡ eq → All (λ k. b ≺ k) t → All (λ k. a ≺ k) t
All-above_eq a b t h = All-imp (λ k c. rw (eq_of_key_order a b h) c) t

-- The walk of `_tree_put` keeps the order.
pub put-IsOrdered :
    (t : Node) (d : ℕ) (key : Option Str) (value : Option Data)
    → IsOrdered t
    → IsOrdered (tree_put_walk t d key value).0
unfolding tree_put_walk entry_create
put-IsOrdered null d key value s = (tt, tt, tt, tt)
put-IsOrdered (node e l r) d key value s = ground (
  arith,
  put-IsOrdered l (d + 1) key value,
  put-IsOrdered r (d + 1) key value,
  All-put (λ k. k ≺ e.key) l (d + 1) key value,
  All-put (λ k. e.key ≺ k) r (d + 1) key value,
  lt_of_gt key e.key,
  All-below_eq key e.key l,
  All-above_eq key e.key r,
)

pub pop_lowest-IsOrdered :
    (e : Entry) (l r : Node)
    → IsOrdered (node e l r)
    → All (λ k. (pop_lowest e l r).0.key ≺ k) (pop_lowest e l r).1 × IsOrdered (pop_lowest e l r).1
unfolding pop_lowest
pop_lowest-IsOrdered e null r s = (s.1, s.3)
pop_lowest-IsOrdered e (node e' l' r') r s =
    let (above, ordered) = pop_lowest-IsOrdered e' l' r' s.2 in
    let below = All-pop_lowest (λ k. k ≺ e.key) e' l' r' s.0 in
    (
      (above, below.0, All-imp (λ k. lt_trans _ e.key k below.0) r s.1),
      (below.1, s.1, ordered, s.3),
    )

replacement-IsOrdered :
    (e : Entry) (l r : Node) → IsOrdered (node e l r) → IsOrdered (replacement_of l r)
unfolding replacement_of
replacement-IsOrdered e null null s = tt
replacement-IsOrdered e null (node e2 l2 r2) s = s.3
replacement-IsOrdered e (node e1 l1 r1) null s = s.2
replacement-IsOrdered e (node e1 l1 r1) (node e2 l2 r2) s =
    let (above, ordered) = pop_lowest-IsOrdered e2 l2 r2 s.3 in
    let high = All-pop_lowest (λ k. e.key ≺ k) e2 l2 r2 s.1 in
    (All-imp (λ k h. lt_trans k e.key _ h high.0) (node e1 l1 r1) s.0, above, s.2, ordered)

-- The deletion keeps the order.
pub delete-IsOrdered : (t : Node) (key : Option Str) → IsOrdered t → IsOrdered (delete t key)
unfolding delete
delete-IsOrdered null key s = tt
delete-IsOrdered (node e l r) key s = ground (
  arith,
  delete-IsOrdered l key,
  delete-IsOrdered r key,
  replacement-IsOrdered e l r s,
  All-delete (λ k. k ≺ e.key) l key,
  All-delete (λ k. e.key ≺ k) r key,
)
