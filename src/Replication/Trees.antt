-- ===== src/Replication/Trees.antt =====
-- The writes of source/server/tree_skel.c leave a server its tree.
use sdistr2020_group.Prelude.{
  ◌≡◌, false, Option, none, some, is_null, List, [], ◌∷◌, refl, ap, ◌∙◌, arith, ℤ,
}
use sdistr2020_group.Entry.{Str, Entry}
use sdistr2020_group.Data.{Data}
use sdistr2020_group.Tree.{Node, null, node}
use sdistr2020_group.Tree.{Tree, tree_create, tree_put, tree_del}
use sdistr2020_group.Message.{Message, msg_to_entry}
use sdistr2020_group.Skel.{Server, key_of, entry_of}
use sdistr2020_group.Skel.Worker.{perform}
use sdistr2020_group.Replication.Writes.{Performed, perform_writes}

abbrev pub empty_tree : Option Tree
empty_tree = some tree_create

del_tree :
    (root : Node) (size height : ℤ) (key : Option Str)
    → is_null (tree_del (some (record { root = root; size = size; height = height })) key).0 ≡ false
unfolding tree_del
del_tree null size height key = refl
del_tree (node e l r) size height key = refl

put_tree :
    (t : Tree) (key : Option Str) (value : Option Data)
    → is_null (tree_put (some t) key value).0 ≡ false
unfolding tree_put
put_tree t key value = ground arith

entry_tree :
    (t : Tree) (o : Option Entry)
    → is_null (elim o [ none ↦ some t | some e ↦ (tree_put (some t) e.key e.value).0 ]) ≡ false
entry_tree t none = refl
entry_tree t (some e) = put_tree t e.key e.value

perform-tree : (m : Message) (t : Option Tree) → is_null t ≡ false → is_null (perform m t) ≡ false
unfolding perform
perform-tree m none h = absurd (ground (arith, h))
perform-tree m (some t) h = ground (
  arith,
  del_tree t.root t.size t.height (key_of m.content),
  entry_tree t (msg_to_entry (entry_of m.content)),
)

perform_writes-tree :
    (ms : List Message) (t : Option Tree)
    → is_null t ≡ false
    → is_null (perform_writes ms t) ≡ false
perform_writes-tree [] t h = h
perform_writes-tree (m ∷ ms) t h = perform_writes-tree ms (perform m t) (perform-tree m t h)

pub has_tree :
    (done rest : List Message) (s : Server)
    → Performed empty_tree done rest s
    → is_null s.tree ≡ false
has_tree done rest s v = ap is_null v.tree ∙ perform_writes-tree done empty_tree refl
