-- ===== src/TreeClient/Session.antt =====
-- The loop of source/client/tree_client.c over the lines of a user, while the servers may change.
use sdistr2020_group.Prelude.{
  ℕ, not, ◌==◌, Bool, false, Option, none, some, List, [], ◌∷◌, ℤ, negsuc, if◌then◌else◌,
}
use sdistr2020_group.Entry.{Str}
use sdistr2020_group.ClientStub.{
  Stub, Transport, on_servers_changed, rtree_connect, rtree_disconnect,
}
use sdistr2020_group.TreeClient.{quits, undefined, goes_on, Directory, client_turn}

-- What happens in a round: whether the listener of the servers ran before it, what Zookeeper has, and
-- what `_collect_input` returns.
pub record Round : Type 0 where
  pub is_changed : Bool
  pub directory : Directory
  pub input : Option Str

-- How far the program came: it ended with a result, it has no defined behaviour, or it goes on.
pub data Session (S : Type 0) : Type 0 where
  ended : S → ℤ → Session S
  failed : Session S
  reads : S → Stub → Session S

unfoldable pub heard : (ℤ → ℤ) → Bool → Stub → Stub
unfolding on_servers_changed
heard close is_changed stub = if is_changed then (on_servers_changed close stub).0 else stub

module _ {S : Type 0} (net : Transport S) (close : ℤ → ℤ) where
  -- The rounds of the loop; at the command that quits, the program disconnects.
  unfoldable pub client_loop : List Round → S → Stub → Session S
  unfolding client_turn rtree_disconnect heard
  client_loop [] s stub = reads s stub
  client_loop (round ∷ rounds) s stub =
      let now = heard close round.is_changed stub in
      elim (client_turn net round.directory s now round.input).1 [
        | quits ↦ ended s (rtree_disconnect close now).2
        | undefined ↦ failed
        | goes_on s' stub' lines ↦ client_loop rounds s' stub'
      ]

  -- The program with `argc` arguments, by whether `zk_connect` succeeds, and what Zookeeper has when
  -- the client connects for the first time.
  unfoldable pub tree_client_main : ℕ → Bool → Directory → List Round → S → Session S
  unfolding client_loop rtree_connect
  tree_client_main argc is_zk_connected dir rounds s =
      if not (argc == 2)
      then ended s (negsuc 0)
      else if not is_zk_connected
      then ended s (negsuc 0)
      else elim (rtree_connect dir.server_connect dir.primary_server dir.backup_server false) [
        | none ↦ failed
        | some (stub, closed, result) ↦ client_loop rounds s stub
      ]
