-- ===== src/Tree/Keys.antt =====
-- What `tree_get_keys` of source/tree.c returns.
use mathlib.Core.List.{append_assoc, append-nil}
use sdistr2020_group.Prelude.{
  ℕ, ◌+◌, ◌≡◌, ◌↔◌, ◌⊎◌, inl, inr, Option, none, some, List, [], ◌∷◌, ◌++◌, refl, ap, ◌∙◌, arith,
  pos_part, set, length, replicate, length-append, Ordering-cases, replicate-split, room,
  room-split, written_at,
}
use sdistr2020_group.Entry.{Str, strdup, key_order}
use sdistr2020_group.Entry.Order.{key_order_refl, eq_of_key_order, gt_of_lt, lt_trans}
use sdistr2020_group.Tree.{Node, null, node, Tree, collect_keys, tree_get_keys}
use sdistr2020_group.Tree.Order.{All, IsOrdered, ◌≺◌}
use sdistr2020_group.Tree.Lookup.{lookup}
use sdistr2020_group.Tree.Counters.{count, found}
use sdistr2020_group.Tree.Invariant.{IsValid, IsNamed}

-- The keys in order.
abbrev pub keys : Node → List (Option Str)
keys null = []
keys (node e l r) = keys l ++ (e.key ∷ keys r)

length-keys : (t : Node) → length (keys t) ≡ count t
length-keys null = refl
length-keys (node e l r) =
    omega (arith, length-append (keys l) (e.key ∷ keys r), length-keys l, length-keys r)

-- In an array with room for the nodes, the walk writes the keys in order from its index on.
collect_keys_lem :
    (t : Node) (junk : Option Str) (done rest array : List (Option Str)) (i : ℕ)
    → array ≡ room junk done (count t) rest
    → i ≡ length done
    → ((collect_keys t array i).0 ≡ done ++ (keys t ++ rest))
      × ((collect_keys t array i).1 ≡ i + count t)
unfolding collect_keys
collect_keys_lem null junk done rest array i h e = (h, omega arith)
collect_keys_lem (node e l r) junk done rest array i h at_end =
    let tail = junk ∷ (replicate (count r) junk ++ rest) in
    let low =
      collect_keys_lem l junk done tail array i
        (h ∙ room-split junk done rest _ (count l) (count r) refl) at_end in
    let mid = set (collect_keys l array i).0 (collect_keys l array i).1 (strdup e.key) in
    let written : mid ≡ room junk ((done ++ keys l) ++ (e.key ∷ [])) (count r) rest =
      written_at (collect_keys l array i).0 done (keys l) (replicate (count r) junk ++ rest) junk
        e.key (collect_keys l array i).1 low.0 (omega (arith, low.1, length-keys l)) in
    let high =
      collect_keys_lem r junk ((done ++ keys l) ++ (e.key ∷ [])) rest mid
        ((collect_keys l array i).1 + 1) written
        (omega (
          arith,
          low.1,
          length-keys l,
          length-append (done ++ keys l) (e.key ∷ []),
          length-append done (keys l),
        )) in
    (high.0 ∙ simp append_assoc, omega (arith, low.1, high.1))

-- The keys of a search tree ascend.
abbrev pub Each : (Option Str → Type 0) → List (Option Str) → Type 0
Each P [] = Unit
Each P (k ∷ ks) = P k × Each P ks

abbrev pub Ascending : List (Option Str) → Type 0
Ascending [] = Unit
Ascending (k ∷ ks) = Each (λ x. k ≺ x) ks × Ascending ks

abbrev pub In : Option Str → List (Option Str) → Type 0
In k [] = ⊥
In k (x ∷ xs) = (k ≡ x) ⊎ In k xs

Each-append :
    (P : Option Str → Type 0) (xs ys : List (Option Str))
    → Each P xs
    → Each P ys
    → Each P (xs ++ ys)
Each-append P [] ys a b = b
Each-append P (x ∷ xs) ys a b = (a.0, Each-append P xs ys a.1 b)

Each-imp :
    {P Q : Option Str → Type 0}
    → ((k : Option Str) → P k → Q k)
    → (ks : List (Option Str)) → Each P ks
    → Each Q ks
Each-imp f [] a = tt
Each-imp f (k ∷ ks) a = (f k a.0, Each-imp f ks a.1)

pub Each-keys : (P : Option Str → Type 0) (t : Node) → All P t → Each P (keys t)
Each-keys P null a = tt
Each-keys P (node e l r) a =
    Each-append P (keys l) (e.key ∷ keys r) (Each-keys P l a.0) (a.1, Each-keys P r a.2)

Ascending-append :
    (xs ys : List (Option Str)) (k : Option Str)
    → Ascending xs
    → Each (λ x. x ≺ k) xs
    → Ascending (k ∷ ys)
    → Ascending (xs ++ (k ∷ ys))
Ascending-append [] ys k a b c = c
Ascending-append (x ∷ xs) ys k a b c = (
  Each-append (λ z. x ≺ z) xs (k ∷ ys) a.0 (b.0, Each-imp (λ z h. lt_trans x k z b.0 h) ys c.0),
  Ascending-append xs ys k a.1 b.1 c,
)

keys-Ascending : (t : Node) → IsOrdered t → Ascending (keys t)
keys-Ascending null s = tt
keys-Ascending (node e l r) s =
    Ascending-append (keys l) (keys r) e.key (keys-Ascending l s.2)
      (Each-keys (λ k. k ≺ e.key) l s.0) (Each-keys (λ k. e.key ≺ k) r s.1, keys-Ascending r s.3)

In-append_left : (k : Option Str) (xs ys : List (Option Str)) → In k xs → In k (xs ++ ys)
In-append_left k [] ys h = absurd h
In-append_left k (x ∷ xs) ys (inl e) = inl e
In-append_left k (x ∷ xs) ys (inr h) = inr (In-append_left k xs ys h)

In-append_right : (k : Option Str) (xs ys : List (Option Str)) → In k ys → In k (xs ++ ys)
In-append_right k [] ys h = h
In-append_right k (x ∷ xs) ys h = inr (In-append_right k xs ys h)

In-append : (k : Option Str) (xs ys : List (Option Str)) → In k (xs ++ ys) → In k xs ⊎ In k ys
In-append k [] ys h = inr h
In-append k (x ∷ xs) ys (inl e) = inl (inl e)
In-append k (x ∷ xs) ys (inr h) = elim (In-append k xs ys h) [ inl m ↦ inl (inr m) | inr m ↦ inr m ]

Each-In :
    (P : Option Str → Type 0) (k : Option Str) (xs : List (Option Str)) → Each P xs → In k xs → P k
Each-In P k [] a h = absurd h
Each-In P k (x ∷ xs) a (inl e) = rw e a.0
Each-In P k (x ∷ xs) a (inr h) = Each-In P k xs a.1 h

In-found : (t : Node) (k : Option Str) → found (lookup t k) ≡ 1 → In k (keys t)
unfolding lookup
In-found null k h = absurd (omega arith)
In-found (node e l r) k h = elim (Ordering-cases (key_order k e.key)) [
  | inl q ↦ In-append_left k (keys l) _ (In-found l k (ground (arith, q, h)))
  | inr (inl q) ↦ In-append_right k (keys l) _ (inl (eq_of_key_order k e.key q))
  | inr (inr q) ↦ In-append_right k (keys l) _ (inr (In-found r k (ground (arith, q, h))))
]

found-In : (t : Node) (k : Option Str) → IsOrdered t → In k (keys t) → found (lookup t k) ≡ 1
unfolding lookup
found-In null k s m = absurd m
found-In (node e l r) k s m = elim (In-append k (keys l) (e.key ∷ keys r) m) [
  | inl low ↦ ground (
    arith,
    Each-In (λ x. x ≺ e.key) k (keys l) (Each-keys (λ x. x ≺ e.key) l s.0) low,
    found-In l k s.2 low,
  )
  | inr (inl here) ↦ ground (arith, here, key_order_refl e.key)
  | inr (inr high) ↦ ground (
    arith,
    gt_of_lt e.key k,
    Each-In (λ x. e.key ≺ x) k (keys r) (Each-keys (λ x. e.key ≺ x) r s.1) high,
    found-In r k s.3 high,
  )
]

-- The array that holds `n` cells and the terminator.
array_room : (junk : Option Str) (n : ℕ) → replicate (n + 1) junk ≡ room junk [] n (junk ∷ [])
array_room junk n = replicate-split junk (n + 1) n 0 (omega arith)

terminated :
    (junk : Option Str) (t : Node) (n : ℕ)
    → n ≡ count t
    → let (array, last) = collect_keys t (replicate (n + 1) junk) 0 in
      set array last none ≡ keys t ++ (none ∷ [])
terminated junk t n h =
    let array = replicate (n + 1) junk in
    let e : array ≡ room junk [] (count t) (junk ∷ []) =
      array_room junk n ∙ ap (λ m. room junk [] m (junk ∷ [])) h in
    let written = collect_keys_lem t junk [] (junk ∷ []) array 0 e refl in
    written_at (collect_keys t array 0).0 [] (keys t) [] junk none (collect_keys t array 0).1
      written.0 (omega (arith, written.1, length-keys t))
    ∙ append-nil _

-- The keys of a valid tree come back in ascending order behind one another, none of them `NULL`,
-- then the terminator, which is the last cell of the array; exactly the keys that the tree maps
-- stand there. What `malloc` left in the array does not show.
pub tree_get_keys_exact :
    (junk : Option Str) (t : Tree)
    → IsValid t
    → (tree_get_keys junk (some t) ≡ some (keys t.root ++ (none ∷ [])))
      × Ascending (keys t.root)
      × Each IsNamed (keys t.root)
      × ((k : Option Str) → (found (lookup t.root k) ≡ 1) ↔ In k (keys t.root))
unfolding tree_get_keys
tree_get_keys_exact junk t v = (
  ap some (terminated junk t.root _ (ap pos_part v.counted)),
  keys-Ascending t.root v.ordered,
  Each-keys IsNamed t.root v.named,
  λ k. (In-found t.root k, found-In t.root k v.ordered),
)
