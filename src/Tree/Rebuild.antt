-- ===== src/Tree/Rebuild.antt =====
-- Putting the entries of a search tree into an empty tree, each node before its children, rebuilds
-- the tree: what the loop of `buffer_to_tree` of source/serialization.c does.
use sdistr2020_group.Prelude.{
  ℕ, ◌+◌, ◌≡◌, Option, none, some, List, [], ◌∷◌, ◌++◌, refl, sym, ap, ◌∙◌, arith, ℤ, pos,
}
use sdistr2020_group.Data.{Data, data_dup}
use sdistr2020_group.Data.Copies.{data_dup-IsValid}
use sdistr2020_group.Entry.{Str, Entry, entry_create}
use sdistr2020_group.Entry.Order.{gt_of_lt}
use sdistr2020_group.Data
use sdistr2020_group.Tree.{
  Node, null, node, Tree, tree_create, tree_put, tree_put_copies, tree_put_walk, tree_put_end, Walk,
  replaced, inserted, tree_compute_height,
}
use sdistr2020_group.Tree.Order.{All, IsOrdered, ◌≺◌}
use sdistr2020_group.Tree.Counters.{count}
use sdistr2020_group.Tree.Invariant.{IsValid, IsNamed, tree_put-IsValid, tree_create-IsValid}

-- The entries, each node before its children.
abbrev pub preorder : Node → List Entry
preorder null = []
preorder (node e l r) = e ∷ (preorder l ++ preorder r)

abbrev pub put_all : Node → List Entry → Node
put_all t [] = t
put_all t (e ∷ es) = put_all (tree_put_walk t 0 e.key e.value).0 es

abbrev pub EachEntry : (Entry → Type 0) → List Entry → Type 0
EachEntry P [] = Unit
EachEntry P (e ∷ es) = P e × EachEntry P es

pub EachEntry-append :
    (P : Entry → Type 0) (xs ys : List Entry)
    → EachEntry P xs
    → EachEntry P ys
    → EachEntry P (xs ++ ys)
EachEntry-append P [] ys a b = b
EachEntry-append P (x ∷ xs) ys a b = (a.0, EachEntry-append P xs ys a.1 b)

each_key : (P : Option Str → Type 0) (t : Node) → All P t → EachEntry (λ e. P e.key) (preorder t)
each_key P null a = tt
each_key P (node e l r) a =
    (a.1, EachEntry-append _ (preorder l) (preorder r) (each_key P l a.0) (each_key P r a.2))

-- The depth only counts.
walk_depth :
    (t : Node) (d d' : ℕ) (key : Option Str) (value : Option Data)
    → (tree_put_walk t d key value).0 ≡ (tree_put_walk t d' key value).0
unfolding tree_put_walk
walk_depth null d d' key value = refl
walk_depth (node e l r) d d' key value =
    ground (arith, walk_depth l (d + 1) (d' + 1) key value, walk_depth r (d + 1) (d' + 1) key value)

walk_left :
    (e : Entry) (l r : Node) (key : Option Str) (value : Option Data)
    → key ≺ e.key
    → (tree_put_walk (node e l r) 0 key value).0 ≡ node e (tree_put_walk l 0 key value).0 r
unfolding tree_put_walk
walk_left e l r key value h =
    rw (tree_put_walk, h) (ap (λ x. node e x r) (walk_depth l 1 0 key value))

walk_right :
    (e : Entry) (l r : Node) (key : Option Str) (value : Option Data)
    → e.key ≺ key
    → (tree_put_walk (node e l r) 0 key value).0 ≡ node e l (tree_put_walk r 0 key value).0
unfolding tree_put_walk
walk_right e l r key value h =
    rw (tree_put_walk, gt_of_lt e.key key h) (ap (λ x. node e l x) (walk_depth r 1 0 key value))

put_all-append : (t : Node) (xs ys : List Entry) → put_all t (xs ++ ys) ≡ put_all (put_all t xs) ys
put_all-append t [] ys = refl
put_all-append t (x ∷ xs) ys = put_all-append (tree_put_walk t 0 x.key x.value).0 xs ys

put_all_left :
    (e : Entry) (l r : Node) (es : List Entry)
    → EachEntry (λ x. x.key ≺ e.key) es
    → put_all (node e l r) es ≡ node e (put_all l es) r
put_all_left e l r [] h = refl
put_all_left e l r (x ∷ es) h =
    rw (walk_left e l r x.key x.value h.0)
      (put_all_left e (tree_put_walk l 0 x.key x.value).0 r es h.1)

put_all_right :
    (e : Entry) (l r : Node) (es : List Entry)
    → EachEntry (λ x. e.key ≺ x.key) es
    → put_all (node e l r) es ≡ node e l (put_all r es)
put_all_right e l r [] h = refl
put_all_right e l r (x ∷ es) h =
    rw (walk_right e l r x.key x.value h.0)
      (put_all_right e l (tree_put_walk r 0 x.key x.value).0 es h.1)

-- The nodes come back where they were.
put_all-preorder : (t : Node) → IsOrdered t → put_all null (preorder t) ≡ t
unfolding tree_put_walk entry_create
put_all-preorder null s = refl
put_all-preorder (node e l r) s =
    put_all-append (node e null null) (preorder l) (preorder r)
    ∙ ap (λ x. put_all x (preorder r))
        (put_all_left e null null (preorder l) (each_key (λ k. k ≺ e.key) l s.0)
          ∙ ap (λ x. node e x null) (put_all-preorder l s.2))
    ∙ put_all_right e l null (preorder r) (each_key (λ k. e.key ≺ k) r s.1)
    ∙ ap (λ x. node e l x) (put_all-preorder r s.3)

-- An entry that a put accepts, with a size that is that of its block.
abbrev pub IsHeld : Option Data → Type 0
IsHeld none = ⊥
IsHeld (some d) = Data.IsValid d

abbrev pub IsPut : Entry → Type 0
IsPut e = IsNamed e.key × IsHeld e.value

copies_root :
    (root : Node) (size height : ℤ) (key : Option Str) (value : Option Data)
    → (tree_put_copies (record { root = root; size = size; height = height }) key value).root
      ≡ (tree_put_walk root 0 key value).0
unfolding tree_put_copies tree_put_walk tree_put_end
copies_root null size height key value = refl
copies_root (node e l r) size height key value = end_root (tree_put_walk (node e l r) 0 key value)
  where
    end_root :
        (w : Node × Walk)
        → (tree_put_end (record { root = node e l r; size = size; height = height }) w).root ≡ w.0
    end_root (x, replaced) = refl
    end_root (x, inserted d) = refl

abbrev pub puts : Option Tree → List Entry → Option Tree
puts t [] = t
puts t (e ∷ es) = puts (tree_put t e.key e.value).0 es

Put : Tree → Option Str → Option Data → Type 0
Put t key value =
    (t' : Tree) × ((tree_put (some t) key value).0 ≡ some t')
    × IsValid t'
    × (t'.root ≡ (tree_put_walk t.root 0 key value).0)

accepted :
    (t : Tree) (key : Option Str) (value : Option Data)
    → IsValid t
    → IsNamed key
    → IsHeld value
    → Put t key value
unfolding tree_put Put
accepted t none value v n h = absurd (ground arith)
accepted t (some k) none v n h = absurd h
accepted t (some k) (some d) v n h = (
  tree_put_copies t (some k) (data_dup (some d)),
  refl,
  tree_put-IsValid t (some k) (some d) v,
  copies_root t.root t.size t.height (some k) (data_dup (some d))
      ∙ ap (λ x. (tree_put_walk t.root 0 (some k) x).0) (data_dup-IsValid d h),
)

pub puts_lem :
    (t : Tree) (es : List Entry)
    → IsValid t
    → EachEntry IsPut es
    → (t' : Tree) × (puts (some t) es ≡ some t') × IsValid t' × (t'.root ≡ put_all t.root es)
unfolding Put
puts_lem t [] v a = (t, refl, v, refl)
puts_lem t (e ∷ es) v a =
    let (t1, e1, v1, r1) = accepted t e.key e.value v a.0.0 a.0.1 in
    let (t2, e2, v2, r2) = puts_lem t1 es v1 a.1 in
    (t2, ap (λ x. puts x es) e1 ∙ e2, v2, r2 ∙ ap (λ x. put_all x es) r1)

-- A valid tree is fixed by its nodes.
tree_of_root : (s t : Tree) → IsValid s → IsValid t → s.root ≡ t.root → s ≡ t
tree_of_root s t v w h =
    let size = v.counted ∙ ap (λ x. pos (count x)) h ∙ sym w.counted in
    let height = v.tall ∙ ap tree_compute_height h ∙ sym w.tall in
    λ i. record { root = h i; size = size i; height = height i }

-- Putting the entries of a valid tree, each node before its children, into an empty tree gives the
-- tree back, with the same nodes in the same places.
pub puts-preorder :
    (t : Tree)
    → IsValid t
    → EachEntry IsPut (preorder t.root)
    → puts (some tree_create) (preorder t.root) ≡ some t
unfolding tree_create
puts-preorder t v a =
    let (t', e, w, r) = puts_lem tree_create (preorder t.root) tree_create-IsValid a in
    e ∙ ap some (tree_of_root t' t w v (r ∙ put_all_create t.root v.ordered))
  where
    put_all_create : (x : Node) → IsOrdered x → put_all tree_create.root (preorder x) ≡ x
    put_all_create x s = put_all-preorder x s
