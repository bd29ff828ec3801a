-- ===== src/Examples/Store.antt =====
-- A Zookeeper that keeps a znode, or none, at each path.
use sdistr2020_group.Prelude.{
  ℕ, ◌≡◌, ◌≢◌, refl, sym, ap, ◌∙◌, Bool, true, false, Option, none, some, ℤ, negsuc, eqb_ℤ,
  if◌then◌else◌, arith,
}
use sdistr2020_group.Entry.{Str}
use sdistr2020_group.Zk.{ZnodePath, root_path, primary_path, backup_path, zok, znonode, Zookeeper}
use sdistr2020_group.Zk.Rules.{Znode, created, without, IsZookeeper, IsReliable}

abbrev pub Znodes : Type 0
Znodes = ZnodePath → Option Znode

unfoldable pub same_path : ZnodePath → ZnodePath → Bool
same_path root_path root_path = true
same_path primary_path primary_path = true
same_path backup_path backup_path = true
same_path p q = false

abbrev pub put_at : Znodes → ZnodePath → Option Znode → Znodes
put_at f path o other = if same_path other path then o else f other

unfoldable pub create_at : Znodes → ℕ → ZnodePath → Option Str → Bool → Option Znode → Znodes × ℤ
create_at f server path value e none = (put_at f path (some (created server value e)), zok)
create_at f server path value e (some z) = (f, negsuc 109)

unfoldable pub exists_at : Option Znode → ℤ
exists_at none = znonode
exists_at (some z) = zok

unfoldable pub get_at : Option Znode → Option Str
get_at none = none
get_at (some z) = z.value

unfoldable pub delete_at : Znodes → ZnodePath → Option Znode → Znodes × ℤ
delete_at f path none = (f, znonode)
delete_at f path (some z) = (put_at f path none, zok)

abbrev pub store : Zookeeper Znodes
store = record {
  zoo_exists = λ f path. exists_at (f path);
  zoo_create = λ f server path value e. create_at f server path value e (f path);
  zoo_get = λ f path. get_at (f path);
  zoo_delete = λ f path. delete_at f path (f path);
  zookeeper_close = λ f server path. without server (f path);
}

same_self : (p : ZnodePath) → same_path p p ≡ true
unfolding same_path
same_self root_path = refl
same_self primary_path = refl
same_self backup_path = refl

same_other : (p q : ZnodePath) → p ≢ q → same_path p q ≡ false
unfolding same_path
same_other root_path root_path n = absurd (n refl)
same_other primary_path primary_path n = absurd (n refl)
same_other backup_path backup_path n = absurd (n refl)
same_other root_path primary_path n = refl
same_other root_path backup_path n = refl
same_other primary_path root_path n = refl
same_other primary_path backup_path n = refl
same_other backup_path root_path n = refl
same_other backup_path primary_path n = refl

pub create_absent_at :
    (f : Znodes) (server : ℕ) (path : ZnodePath) (value : Option Str) (e : Bool) (o : Option Znode)
    → eqb_ℤ (create_at f server path value e o).1 zok ≡ true
    → o ≡ none
unfolding create_at
create_absent_at f server path value e none h = refl
create_absent_at f server path value e (some z) h = absurd (ground (arith, h))

pub create_sets_at :
    (f : Znodes) (server : ℕ) (path : ZnodePath) (value : Option Str) (e : Bool) (o : Option Znode)
    → eqb_ℤ (create_at f server path value e o).1 zok ≡ true
    → (create_at f server path value e o).0 path ≡ some (created server value e)
unfolding create_at
create_sets_at f server path value e none h = rw (same_self path) refl
create_sets_at f server path value e (some z) h = absurd (ground (arith, h))

pub create_keeps_at :
    (f : Znodes) (server : ℕ) (path : ZnodePath) (value : Option Str) (e : Bool) (o : Option Znode)
    (other : ZnodePath)
    → other ≢ path
    → (create_at f server path value e o).0 other ≡ f other
unfolding create_at
create_keeps_at f server path value e none other n = rw (same_other other path n) refl
create_keeps_at f server path value e (some z) other n = refl

pub create_fails_at :
    (f : Znodes) (server : ℕ) (path : ZnodePath) (value : Option Str) (e : Bool) (o : Option Znode)
    (other : ZnodePath)
    → eqb_ℤ (create_at f server path value e o).1 zok ≡ false
    → (create_at f server path value e o).0 other ≡ f other
unfolding create_at
create_fails_at f server path value e none other h = absurd (ground (arith, h))
create_fails_at f server path value e (some z) other h = refl

pub get_reads_at :
    (o : Option Znode) (z : Znode) (text : Str)
    → get_at o ≡ some text
    → o ≡ some z
    → z.value ≡ some text
unfolding get_at
get_reads_at o z text h e = sym (ap get_at e) ∙ h

pub delete_keeps_at :
    (f : Znodes) (path : ZnodePath) (o : Option Znode) (other : ZnodePath)
    → other ≢ path
    → (delete_at f path o).0 other ≡ f other
unfolding delete_at
delete_keeps_at f path none other n = refl
delete_keeps_at f path (some z) other n = rw (same_other other path n) refl

pub deletes_at :
    (f : Znodes) (path : ZnodePath) (o : Option Znode) (z : Znode)
    → o ≡ some z
    → ((delete_at f path o).1 ≡ zok) × ((delete_at f path o).0 path ≡ none)
unfolding delete_at
deletes_at f path none z h = absurd (ground (arith, h))
deletes_at f path (some y) z h = (refl, rw (same_self path) refl)

abbrev pub store-rules : IsZookeeper store
store-rules = record {
  znode = λ f path. f path;
  create_absent = λ f i p v e h. create_absent_at f i p v e (f p) h;
  create_sets = λ f i p v e h. create_sets_at f i p v e (f p) h;
  create_keeps = λ f i p v e q n. create_keeps_at f i p v e (f p) q n;
  create_fails = λ f i p v e q w h k. create_fails_at f i p v e (f p) q h ∙ k;
  get_reads = λ f p z text h e. get_reads_at (f p) z text h e;
  delete_keeps = λ f p q n. delete_keeps_at f p (f p) q n;
  close_removes = λ f i p. refl;
}

pub store-IsReliable : IsReliable store store-rules
unfolding exists_at create_at get_at
store-IsReliable = record {
  exists_absent = λ f p h. ap exists_at h;
  exists_present = λ f p z h. ap exists_at h;
  creates = λ f i p v e h. ap (λ o. (create_at f i p v e o).1) h;
  gets = λ f p z text h v. ap get_at h ∙ v;
  deletes = λ f p z h. deletes_at f p (f p) z h;
}
