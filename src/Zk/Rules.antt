-- ===== src/Zk/Rules.antt =====
-- What source/zk-private.c relies on in Zookeeper.
use sdistr2020_group.Prelude.{
  ℕ, ◌≡◌, ◌≢◌, Bool, true, false, Option, none, some, eqb_ℤ, ◌==◌, if◌then◌else◌,
}
use sdistr2020_group.Entry.{Str}
use sdistr2020_group.Zk.{ZnodePath, zok, znonode, Zookeeper}

-- The data of a znode, and the session that an ephemeral one belongs to.
pub record Znode : Type 0 where
  pub value : Option Str
  pub owner : Option ℕ

-- Whether a znode is an ephemeral one of a session.
abbrev pub is_of : ℕ → Option ℕ → Bool
is_of server none = false
is_of server (some owner) = owner == server

-- What is left at a path when a session ends.
abbrev pub without : ℕ → Option Znode → Option Znode
without server none = none
without server (some znode) = if is_of server znode.owner then none else some znode

abbrev pub created : ℕ → Option Str → Bool → Znode
created server value is_ephemeral = record {
  value = value;
  owner = if is_ephemeral then some server else none;
}

-- The znode that a server registers.
abbrev pub own : ℕ → Str → Znode
own server address = created server (some address) true

-- The effects of the calls, on the znode that stands at each path. Any call may fail. A create whose
-- answer is lost with the connection may have made the znode, but leaves a znode that stands there.
-- Zookeeper documents these effects but one: a server that reads through another session may see an
-- older state, and `get_reads` assumes that it does not, as with a single Zookeeper server.
pub record IsZookeeper {Z : Type 0} (zk : Zookeeper Z) : Type 0 where
  pub znode : Z → ZnodePath → Option Znode
  pub create_absent :
      (z : Z) (server : ℕ) (path : ZnodePath) (value : Option Str) (e : Bool)
      → eqb_ℤ (zk.zoo_create z server path value e).1 zok ≡ true
      → znode z path ≡ none
  pub create_sets :
      (z : Z) (server : ℕ) (path : ZnodePath) (value : Option Str) (e : Bool)
      → eqb_ℤ (zk.zoo_create z server path value e).1 zok ≡ true
      → znode (zk.zoo_create z server path value e).0 path ≡ some (created server value e)
  pub create_keeps :
      (z : Z) (server : ℕ) (path : ZnodePath) (value : Option Str) (e : Bool) (other : ZnodePath)
      → other ≢ path
      → znode (zk.zoo_create z server path value e).0 other ≡ znode z other
  pub create_fails :
      (z : Z) (server : ℕ) (path : ZnodePath) (value : Option Str) (e : Bool) (other : ZnodePath)
      (standing : Znode)
      → eqb_ℤ (zk.zoo_create z server path value e).1 zok ≡ false
      → znode z other ≡ some standing
      → znode (zk.zoo_create z server path value e).0 other ≡ some standing
  pub get_reads :
      (z : Z) (path : ZnodePath) (znode_at : Znode) (text : Str)
      → zk.zoo_get z path ≡ some text
      → znode z path ≡ some znode_at
      → znode_at.value ≡ some text
  pub delete_keeps :
      (z : Z) (path other : ZnodePath)
      → other ≢ path
      → znode (zk.zoo_delete z path).0 other ≡ znode z other
  pub close_removes :
      (z : Z) (server : ℕ) (path : ZnodePath)
      → znode (zk.zookeeper_close z server) path ≡ without server (znode z path)

-- A connection that answers: no call fails without a reason.
pub record IsReliable {Z : Type 0} (zk : Zookeeper Z) (rules : IsZookeeper zk) : Type 0 where
  pub exists_absent :
      (z : Z) (path : ZnodePath) → rules.znode z path ≡ none → zk.zoo_exists z path ≡ znonode
  pub exists_present :
      (z : Z) (path : ZnodePath) (znode : Znode)
      → rules.znode z path ≡ some znode
      → zk.zoo_exists z path ≡ zok
  pub creates :
      (z : Z) (server : ℕ) (path : ZnodePath) (value : Option Str) (e : Bool)
      → rules.znode z path ≡ none
      → (zk.zoo_create z server path value e).1 ≡ zok
  pub gets :
      (z : Z) (path : ZnodePath) (znode : Znode) (text : Str)
      → rules.znode z path ≡ some znode
      → znode.value ≡ some text
      → zk.zoo_get z path ≡ some text
  pub deletes :
      (z : Z) (path : ZnodePath) (znode : Znode)
      → rules.znode z path ≡ some znode
      → ((zk.zoo_delete z path).1 ≡ zok) × (rules.znode (zk.zoo_delete z path).0 path ≡ none)
