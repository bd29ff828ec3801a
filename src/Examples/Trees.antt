-- ===== src/Examples/Trees.antt =====
-- source/data.c, source/entry.c and source/tree.c at a small tree.
use sdistr2020_group.Prelude.{ℕ, ◌≡◌, ◌≢◌, refl, Option, none, some, List, [], ◌∷◌, pos, ◌↔◌}
use sdistr2020_group.Data.{Data, data_create, data_dup}
use sdistr2020_group.Data
use sdistr2020_group.Entry.{Str, Entry, key_order, key_compare, strcmp, entry_create}
use sdistr2020_group.Tree.{
  null, node, Tree, tree_create, tree_put, tree_get, tree_del, tree_get_keys, tree_size,
  tree_height, tree_compute_height,
}
use sdistr2020_group.Tree.Invariant.{
  IsNamed, IsValid, IsValidPointer, Measures, tree_put-IsValid, tree_del-IsValid, tree_size_bounds,
}
use sdistr2020_group.Tree.Map.{Op, view, answer, replay, run, run_refines}
use sdistr2020_group.Tree.Lookup.{lookup}
use sdistr2020_group.Tree.Counters.{found}
use sdistr2020_group.Tree.Keys.{keys, Ascending, Each, In, tree_get_keys_exact}

abbrev block : List ℕ → Data
block bytes = record { datasize = pos 2; block = some bytes }

abbrev text : ℕ → Option Str
text c = some (c ∷ [])

abbrev entry : ℕ → Entry
entry c = record { key = text c; value = some (block (c ∷ 0 ∷ [])) }

abbrev sample : Tree
sample = record {
  root = node (entry b'm') (node (entry b'c') null null) (node (entry b't') null null);
  size = pos 3;
  height = pos 1;
}

-- The puts that build it.
abbrev puts : List Op
puts =
    Op.put (text b'm') (some (block (b'm' ∷ 0 ∷ [])))
    ∷ Op.put (text b'c') (some (block (b'c' ∷ 0 ∷ [])))
    ∷ Op.put (text b't') (some (block (b't' ∷ 0 ∷ [])))
    ∷ []

puts_build : run puts (some tree_create) ≡ some sample
unfolding run tree_put tree_create entry_create key_order key_compare strcmp data_dup
puts_build = refl

sample-IsValid : IsValid sample
unfolding key_order key_compare strcmp tree_height
sample-IsValid = record {
  ordered = ((tt, refl, tt), (tt, refl, tt), (tt, tt, tt, tt), (tt, tt, tt, tt));
  named = ((tt, refl, tt), refl, (tt, refl, tt));
  counted = refl;
  tall = unfold tree_compute_height in refl;
}

block-IsValid : Data.IsValid (block (1 ∷ 2 ∷ []))
block-IsValid = record { fits = refl }

tree_put-IsValid_example :
    IsValidPointer (tree_put (some sample) (text b'd') (some (block (1 ∷ 2 ∷ [])))).0
tree_put-IsValid_example =
    tree_put-IsValid sample (text b'd') (some (block (1 ∷ 2 ∷ []))) sample-IsValid

tree_del-IsValid_example : IsValidPointer (tree_del (some sample) (text b'm')).0
tree_del-IsValid_example = tree_del-IsValid sample (text b'm') sample-IsValid

tree_size_bounds_example :
    Measures sample.root (tree_size (some sample)) (tree_height (some sample))
tree_size_bounds_example = tree_size_bounds sample sample-IsValid

run_refines_example :
    (t : Tree) × (run puts (some tree_create) ≡ some t)
    × IsValid t
    × ((key : Option Str) → tree_get (some t) key ≡ answer (replay puts (λ _. none) key))
run_refines_example = run_refines puts

has_root : sample.root ≢ null
has_root e = cc

misses_x : view sample (text b'x') ≡ none
unfolding lookup key_order key_compare strcmp
misses_x = refl

tree_get_keys_exact_example :
    (tree_get_keys (text b'?') (some sample) ≡ some (text b'c' ∷ text b'm' ∷ text b't' ∷ none ∷ []))
    × Ascending (keys sample.root)
    × Each IsNamed (keys sample.root)
    × ((k : Option Str) → (found (lookup sample.root k) ≡ 1) ↔ In k (keys sample.root))
tree_get_keys_exact_example = tree_get_keys_exact (text b'?') sample sample-IsValid
