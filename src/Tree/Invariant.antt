-- ===== src/Tree/Invariant.antt =====
-- The invariant of `struct tree_t` in include/tree-private.h, and that the operations keep it.
use Prim.Native.Nat.{max}
use mathlib.Core.Path.{subst, subst₂}
use native.Mathlib.Numerals.{add-one}
use sdistr2020_group.Prelude.{
  ℕ, ◌∙◌, sym, ap, zero, suc, ◌+◌, ◌^◌, ◌≤◌, ◌≡◌, Option, none, some, false, refl, arith, ℤ, pos,
  negsuc, ◌+ℤ◌, max_ℤ, sub_ℕ, is_null,
}
use sdistr2020_group.Data.{Data, data_dup}
use sdistr2020_group.Entry.{Str, entry_create}
use sdistr2020_group.Tree.{
  Node, null, node, Tree, Walk, replaced, inserted, tree_put_end, tree_put_copies, tree_put,
  tree_create, tree_compute_height, tree_del, tree_del_found, tree_node_pointer_get, Pointer,
  tree_size, tree_height,
}
use sdistr2020_group.Tree.Order.{
  All, IsOrdered, All-put, All-delete, put-IsOrdered, delete-IsOrdered, delete, delete-some,
}
use sdistr2020_group.Tree.Lookup.{lookup, lookup-pointer}
use sdistr2020_group.Tree.Counters.{
  count, levels, found, Reports, put-Reports, count-delete, compute_height-levels, levels-le-count,
  count-lt-pow,
}

abbrev pub IsNamed : Option Str → Type 0
IsNamed key = is_null key ≡ false

pub record IsValid (t : Tree) : Type 0 where
  pub ordered : IsOrdered t.root
  pub named : All IsNamed t.root
  pub counted : t.size ≡ pos (count t.root)
  pub tall : t.height ≡ tree_compute_height t.root

-- Of a pointer to a tree that may be `NULL`.
abbrev pub IsValidPointer : Option Tree → Type 0
IsValidPointer none = Unit
IsValidPointer (some t) = IsValid t

pub tree_create-IsValid : IsValid tree_create
unfolding tree_create tree_compute_height
tree_create-IsValid = record { ordered = tt; named = tt; counted = refl; tall = refl }

height_max : (a b d : ℕ) → b + 0 ≡ max (a + 0) (d + 1) → sub_ℕ b 1 ≡ max_ℤ (pos d) (sub_ℕ a 1)
unfolding max_ℤ
height_max zero b d h = ground arith
height_max (suc a) b d h = ground arith

-- The counters that the walk reports are those of the tree that it leaves.
put_end-IsValid :
    (t : Tree) (root : Node) (w : Walk) (old : Option (Option Data))
    → IsOrdered root
    → All IsNamed root
    → Reports t.root root 0 old w
    → IsValid t
    → IsValid (tree_put_end t (root, w))
unfolding tree_put_end ◌+ℤ◌
put_end-IsValid t root replaced old o n r v = record {
  ordered = o;
  named = n;
  counted = rw (r.0) v.counted;
  tall =
      v.tall
      ∙ compute_height-levels t.root
      ∙ ap (λ k. sub_ℕ k 1) (sym r.1)
      ∙ sym (compute_height-levels root);
}
put_end-IsValid t root (inserted d) old o n r v = record {
  ordered = o;
  named = n;
  counted = rw (v.counted, r.0) (ground arith);
  tall =
      ap (max_ℤ (pos d)) (v.tall ∙ compute_height-levels t.root)
      ∙ sym (height_max (levels t.root) (levels root) d r.1)
      ∙ sym (compute_height-levels root);
}

abbrev tree : Node → ℤ → ℤ → Tree
tree root size height = record { root = root; size = size; height = height }

put_copies-IsValid :
    (root : Node) (size height : ℤ) (key : Option Str) (value : Option Data)
    → IsNamed key
    → IsValid (tree root size height)
    → IsValid (tree_put_copies (tree root size height) key value)
unfolding tree_put_copies tree_compute_height entry_create
put_copies-IsValid null size height key value n v = record {
  ordered = (tt, tt, tt, tt);
  named = (tt, n, tt);
  counted = ground arith;
  tall = ground arith;
}
put_copies-IsValid (node e l r) size height key value n v =
    put_end-IsValid (tree (node e l r) size height) _ _ (lookup (node e l r) key)
      (put-IsOrdered (node e l r) 0 key value v.ordered)
      (All-put IsNamed (node e l r) 0 key value n v.named) (put-Reports (node e l r) 0 key value) v

-- A put, accepted or refused, keeps the invariant of the tree.
pub tree_put-IsValid :
    (t : Tree) (key : Option Str) (value : Option Data)
    → IsValid t
    → IsValidPointer (tree_put (some t) key value).0
unfolding tree_put
tree_put-IsValid t none value v = v
tree_put-IsValid t (some key) none v = v
tree_put-IsValid t (some key) (some value) v =
    put_copies-IsValid t.root t.size t.height (some key) (data_dup (some value)) refl v

hit_found :
    (t : Node) (key : Option Str) (p : Pointer)
    → tree_node_pointer_get t key ≡ some p
    → found (lookup t key) ≡ 1
hit_found t key p h = rw (lookup-pointer, h) refl

one_less : (s : ℤ) (a b : ℕ) → s ≡ pos b → a + 1 ≡ b → s +ℤ negsuc 0 ≡ pos a
unfolding ◌+ℤ◌
one_less s a b h e = ground arith

del_found-IsValid :
    (t : Tree) (key : Option Str) (p : Option Pointer)
    → tree_node_pointer_get t.root key ≡ p
    → IsValid t
    → IsValid (tree_del_found t p)
unfolding tree_del_found
del_found-IsValid t key none h v = v
del_found-IsValid t key (some p) h v =
    let e = delete-some t.root key p h in
    record {
      ordered = rw e (delete-IsOrdered t.root key v.ordered);
      named = rw e (All-delete IsNamed t.root key v.named);
      counted = rw e (
          one_less t.size (count (delete t.root key)) (count t.root) v.counted
            (omega (arith, count-delete t.root key, hit_found t.root key p h)));
      tall = refl;
    }

del-IsValid :
    (root : Node) (size height : ℤ) (key : Option Str)
    → IsValid (tree root size height)
    → IsValidPointer (tree_del (some (tree root size height)) key).0
unfolding tree_del
del-IsValid null size height key v = v
del-IsValid (node e l r) size height key v =
    del_found-IsValid (tree (node e l r) size height) key _ refl v

-- A deletion, of a key that is there or not, keeps the invariant of the tree.
pub tree_del-IsValid :
    (t : Tree) (key : Option Str) → IsValid t → IsValidPointer (tree_del (some t) key).0
tree_del-IsValid t key v = del-IsValid t.root t.size t.height key v

-- A tree of that number of nodes and of that height, both `int`s.
abbrev pub IsShaped : ℤ → ℤ → Type 0
IsShaped (pos size) (negsuc height) = (size ≡ 0) × (height ≡ 0)
IsShaped (pos size) (pos height) = (height + 1 ≤ size) × (size + 1 ≤ 2 ^ (height + 1))
IsShaped (negsuc n) height = ⊥

shaped :
    (size levels : ℕ) → levels ≤ size → size + 1 ≤ 2 ^ levels → IsShaped (pos size) (sub_ℕ levels 1)
shaped size zero h k = (omega arith, omega arith)
shaped size (suc n) h k =
    let e : sub_ℕ (suc n) 1 ≡ pos n = ground arith in
    let grown : n + 1 ≡ suc n = add-one n in
    rw e (omega arith, subst (λ m. size + 1 ≤ 2 ^ m) (sym grown) k)

pub tree-IsShaped : (t : Tree) → IsValid t → IsShaped (tree_size (some t)) (tree_height (some t))
unfolding tree_size tree_height
tree-IsShaped t v =
    subst₂ IsShaped (sym v.counted) (sym (v.tall ∙ compute_height-levels t.root))
      (shaped (count t.root) (levels t.root) (levels-le-count t.root) (count-lt-pow t.root))

-- The size and the height of a tree with this root.
abbrev pub Measures : Node → ℤ → ℤ → Type 0
Measures null size height = (size ≡ pos 0) × (height ≡ negsuc 0)
Measures (node e l r) size height =
    (size ≡ pos (count (node e l r)))
    × (h : ℕ) × (height ≡ pos h)
    × (h + 1 ≡ levels (node e l r))
    × (h + 1 ≤ count (node e l r))
    × (count (node e l r) + 1 ≤ 2 ^ (h + 1))

measured :
    (root : Node) (n : ℕ) (size height : ℤ)
    → levels root ≡ n
    → size ≡ pos (count root)
    → height ≡ sub_ℕ n 1
    → Measures root size height
measured null zero size height e f g = (f, g)
measured null (suc n) size height e f g = absurd (ground (arith, e))
measured (node x l r) zero size height e f g = absurd (ground (arith, e))
measured (node x l r) (suc n) size height e f g =
    let grown : levels (node x l r) ≡ n + 1 = e ∙ sym (add-one n) in
    (
      f,
      n,
      g ∙ ground arith,
      sym grown,
      omega (arith, levels-le-count (node x l r), grown),
      subst (λ m. count (node x l r) + 1 ≤ 2 ^ m) grown (omega (arith, count-lt-pow (node x l r))),
    )

-- What `tree_size` and `tree_height` answer of a valid tree: 0 and -1 if the root is `NULL`;
-- otherwise the number of the nodes, and 1 less than the number of the levels. The size is then
-- above the height, and at most the number of nodes of a full tree of that height.
pub tree_size_bounds :
    (t : Tree) → IsValid t → Measures t.root (tree_size (some t)) (tree_height (some t))
unfolding tree_size tree_height
tree_size_bounds t v =
    measured t.root (levels t.root) t.size t.height refl v.counted
      (v.tall ∙ compute_height-levels t.root)
