-- ===== src/Tree/Map.antt =====
-- The contract of include/tree.h: the tree is a finite map from keys to values.
use mathlib.Core.Logic.{ite, if_pos, if_neg}
use native.Mathlib.Decide.{ℕ_discrete}
use sdistr2020_group.Prelude.{
  ℕ, ◌≡◌, ◌≢◌, Option, none, some, List, [], ◌∷◌, refl, sym, ap, ◌∙◌, fun_ext, ℤ, pos,
}
use sdistr2020_group.Data.{Data, data_dup, data_create}
use sdistr2020_group.Entry.{Str}
use sdistr2020_group.Tree.{
  Node, null, node, Tree, Walk, replaced, inserted, tree_put_walk, tree_put_end, tree_put_copies,
  tree_put, tree_create, tree_del, tree_del_found, tree_get, tree_node_pointer_get, Pointer, deref,
  value_of,
}
use sdistr2020_group.Tree.Order.{IsOrdered, delete, delete-some, delete-none}
use sdistr2020_group.Tree.Lookup.{
  lookup, lookup-pointer, lookup-put_self, lookup-put_ne, lookup-delete_self, lookup-delete_ne,
}
use sdistr2020_group.Tree.Invariant.{
  IsValid, tree_put-IsValid, tree_del-IsValid, tree_create-IsValid,
}

-- What a tree stands for: at each key nothing, or a value, which may be `NULL`.
abbrev pub View : Type 0
View = Option Str → Option (Option Data)

pub key-discrete : Discrete (Option Str)
key-discrete = hlevel ℕ_discrete

abbrev pub view : Tree → View
view t key = lookup t.root key

-- The map, changed at one key.
abbrev pub update : View → Option Str → Option (Option Data) → View
update f key new k = ite (key-discrete k key) new (f k)

-- `tree_get` gives an empty block without a buffer for a key that is missing.
abbrev pub answer : Option (Option Data) → Option Data
answer none = some (record { datasize = pos 0; block = none })
answer (some value) = data_dup value

answer_pointer :
    (t : Node) (p : Option Pointer)
    → ◌≡◌ {A = Option Data}
        (elim p [ none ↦ data_create [] (pos 0) | some q ↦ data_dup (value_of (deref t q)) ])
        (answer (elim p [ none ↦ none | some q ↦ some (value_of (deref t q)) ]))
unfolding data_create
answer_pointer t none = refl
answer_pointer t (some q) = refl

get-view :
    (root : Node) (size height : ℤ) (key : Option Str)
    → tree_get (some (record { root = root; size = size; height = height })) key
      ≡ answer (lookup root key)
unfolding tree_get data_create lookup
get-view null size height key = refl
get-view (node e l r) size height key =
    rw lookup-pointer (answer_pointer (node e l r) (tree_node_pointer_get (node e l r) key))

-- `tree_get` answers from the map.
pub tree_get-view : (t : Tree) (key : Option Str) → tree_get (some t) key ≡ answer (view t key)
tree_get-view t key = get-view t.root t.size t.height key

lookup-put-update :
    (root : Node) (d : ℕ) (key : Option Str) (value : Option Data)
    → lookup (tree_put_walk root d key value).0 ≡ update (lookup root) key (some value)
lookup-put-update root d key value = fun_ext λ k. elim (key-discrete k key) [
  | yes e ↦ rw (if_pos _ e) (rw e (lookup-put_self root d key value))
  | no n ↦ rw (if_neg _ n) (lookup-put_ne root d key k value n)
]

lookup-delete-update :
    (root : Node) (key : Option Str)
    → IsOrdered root
    → lookup (delete root key) ≡ update (lookup root) key none
lookup-delete-update root key o = fun_ext λ k. elim (key-discrete k key) [
  | yes e ↦ rw (if_pos _ e) (rw e (lookup-delete_self root key o))
  | no n ↦ rw (if_neg _ n) (lookup-delete_ne root key k o n)
]

-- The calls that change a tree.
pub data Op : Type 0 where
  put : Option Str → Option Data → Op
  del : Option Str → Op

unfoldable pub run : List Op → Option Tree → Option Tree
run [] t = t
run (put key value ∷ ops) t = run ops (tree_put t key value).0
run (del key ∷ ops) t = run ops (tree_del t key).0

-- The same calls on the map: a put with a `NULL` changes nothing.
pub apply : Op → View → View
apply (put none value) f = f
apply (put (some key) none) f = f
apply (put (some key) (some value)) f = update f (some key) (some (data_dup (some value)))
apply (del key) f = update f key none

pub replay : List Op → View → View
replay [] f = f
replay (op ∷ ops) f = replay ops (apply op f)

-- The tree behind a pointer stands for the map `f`.
abbrev pub Refines : Option Tree → View → Type 0
Refines none f = ⊥
Refines (some t) f = IsValid t × (view t ≡ f)

pub update_self :
    (f : View) (key : Option Str) (new : Option (Option Data)) → update f key new key ≡ new
update_self f key new = elim (key-discrete key key) [
  | yes e ↦ rw (if_pos _ e) refl
  | no n ↦ absurd (n refl)
]

put_end_root : (t : Tree) (w : Node × Walk) → (tree_put_end t w).root ≡ w.0
unfolding tree_put_end
put_end_root t (root, replaced) = refl
put_end_root t (root, inserted d) = refl

put_copies_update :
    (root : Node) (size height : ℤ) (key : Option Str) (value : Option Data)
    → lookup (tree_put_copies (record { root = root; size = size; height = height }) key value).root
      ≡ update (lookup root) key (some value)
unfolding tree_put_copies
put_copies_update null size height key value = lookup-put-update null 0 key value
put_copies_update (node e l r) size height key value =
    ap lookup (
      put_end_root (record { root = node e l r; size = size; height = height })
        (tree_put_walk (node e l r) 0 key value))
    ∙ lookup-put-update (node e l r) 0 key value

-- A put refines the change of the map at the key; with a `NULL` argument nothing changes.
pub tree_put-Refines :
    (t : Tree) (key : Option Str) (value : Option Data)
    → IsValid t
    → Refines (tree_put (some t) key value).0 (apply (put key value) (view t))
unfolding tree_put apply
tree_put-Refines t none value v = (v, refl)
tree_put-Refines t (some key) none v = (v, refl)
tree_put-Refines t (some key) (some value) v = (
  tree_put-IsValid t (some key) (some value) v,
  put_copies_update t.root t.size t.height (some key) (data_dup (some value)),
)

del_found_update :
    (t : Tree) (key : Option Str) (p : Option Pointer)
    → tree_node_pointer_get t.root key ≡ p
    → IsOrdered t.root
    → view (tree_del_found t p) ≡ update (view t) key none
unfolding tree_del_found
del_found_update t key none h o =
    ap lookup (sym (delete-none t.root key h)) ∙ lookup-delete-update t.root key o
del_found_update t key (some p) h o =
    ap lookup (delete-some t.root key p h) ∙ lookup-delete-update t.root key o

del-Refines :
    (root : Node) (size height : ℤ) (key : Option Str)
    → IsValid (record { root = root; size = size; height = height })
    → Refines
        (tree_del (some (record { root = root; size = size; height = height })) key).0
        (apply (del key) (lookup root))
unfolding tree_del apply delete
del-Refines null size height key v = (v, lookup-delete-update null key tt)
del-Refines (node e l r) size height key v = (
  tree_del-IsValid (record { root = node e l r; size = size; height = height }) key v,
  del_found_update (record { root = node e l r; size = size; height = height }) key _ refl
      v.ordered,
)

-- A deletion refines the removal of the key from the map.
pub tree_del-Refines :
    (t : Tree) (key : Option Str)
    → IsValid t
    → Refines (tree_del (some t) key).0 (apply (del key) (view t))
tree_del-Refines t key v = del-Refines t.root t.size t.height key v

run-Refines_of :
    (ops : List Op) (t : Option Tree) (f : View) → Refines t f → Refines (run ops t) (replay ops f)
unfolding run replay
run-Refines_of [] t f h = h
run-Refines_of ops none f h = absurd h
run-Refines_of (put key value ∷ ops) (some t) f h =
    run-Refines_of ops _ _ (rw (← h.1) (tree_put-Refines t key value h.0))
run-Refines_of (del key ∷ ops) (some t) f h =
    run-Refines_of ops _ _ (rw (← h.1) (tree_del-Refines t key h.0))

of_Refines :
    (p : Option Tree) (f : View)
    → Refines p f
    → (t : Tree) × (p ≡ some t) × IsValid t × (view t ≡ f)
of_Refines none f h = absurd h
of_Refines (some t) f h = (t, refl, h.0, h.1)

-- What a put of a value leaves: a valid tree, in which a get answers with the value.
pub put_stored :
    (t : Tree) (key : Str) (value : Data)
    → IsValid t
    → (t' : Tree) × ((tree_put (some t) (some key) (some value)).0 ≡ some t')
      × IsValid t'
      × (tree_get (some t') (some key) ≡ data_dup (data_dup (some value)))
unfolding apply
put_stored t key value v =
    let (t', e, v', h) = of_Refines _ _ (tree_put-Refines t (some key) (some value) v) in
    (
      t',
      e,
      v',
      tree_get-view t' (some key)
          ∙ ap (λ (f : View). answer (f (some key))) h
          ∙ ap answer (update_self (view t) (some key) (some (data_dup (some value)))),
    )

view-create : view tree_create ≡ (λ _. none)
unfolding tree_create lookup
view-create = refl

-- Whatever the calls, a tree that starts empty ends as a valid tree, and a get of any key answers
-- what the same calls on a map, empty at first, leave at that key.
pub run_refines :
    (ops : List Op)
    → (t : Tree) × (run ops (some tree_create) ≡ some t)
      × IsValid t
      × ((key : Option Str) → tree_get (some t) key ≡ answer (replay ops (λ _. none) key))
run_refines ops =
    let (t, e, v, h) =
      of_Refines (run ops (some tree_create)) (replay ops (λ _. none))
        (run-Refines_of ops _ _ (tree_create-IsValid, view-create)) in
    (t, e, v, λ key. tree_get-view t key ∙ ap (λ (f : View). answer (f key)) h)

pointer_none :
    (t : Node) (key : Option Str) → lookup t key ≡ none → tree_node_pointer_get t key ≡ none
pointer_none t key h = go (tree_node_pointer_get t key) refl
  where
    go : (p : Option Pointer) → tree_node_pointer_get t key ≡ p → tree_node_pointer_get t key ≡ none
    go none e = e
    go (some p) e = cc (h, rw e at (lookup-pointer t key))

del_missing :
    (root : Node) (size height : ℤ) (key : Option Str)
    → root ≢ null
    → lookup root key ≡ none
    → tree_del (some (record { root = root; size = size; height = height })) key
      ≡ (some (record { root = root; size = size; height = height }), pos 0)
unfolding tree_del tree_del_found
del_missing null size height key n h = absurd (n refl)
del_missing (node e l r) size height key n h =
    ap
      (λ p. (
        some (tree_del_found (record { root = node e l r; size = size; height = height }) p),
        pos 0,
      ))
      (pointer_none (node e l r) key h)

-- The deletion of a key that a tree with nodes does not hold answers 0 and changes nothing.
pub tree_del_missing :
    (t : Tree) (key : Option Str)
    → t.root ≢ null
    → view t key ≡ none
    → tree_del (some t) key ≡ (some t, pos 0)
tree_del_missing t key n h = del_missing t.root t.size t.height key n h
