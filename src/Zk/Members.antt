-- ===== src/Zk/Members.antt =====
-- The servers that use source/zk-private.c at the same time: their calls of Zookeeper come one
-- after another, those of one server between those of the others.
use sdistr2020_group.Prelude.{ℕ, ◌≡◌, Bool, true, false, ℤ, pos, if◌then◌else◌, ◌==◌}
use sdistr2020_group.Entry.{Str}
use sdistr2020_group.Skel.{ServerRole}
use sdistr2020_group.Zk.{
  ZnodePath, Zookeeper, Program, returns, zk_connect, zk_register_tree_server, zk_children_watcher,
  zk_close, advance,
}
use sdistr2020_group.Zk.Rules.{IsZookeeper}

-- A server: whether it runs, its variable `server_role`, and what is left of the function that it is
-- in.
pub record Member : Type 0 where
  pub is_alive : Bool
  pub role : ServerRole
  pub rest : Program

pub record Group (Z : Type 0) : Type 0 where
  pub zookeeper : Z
  pub member : ℕ → Member

-- One member changed.
abbrev pub with_member : (ℕ → Member) → ℕ → Member → ℕ → Member
with_member f server m other = if other == server then m else f other

abbrev pub started : Member
started = record { is_alive = true; role = ServerRole.unset; rest = returns (pos 0) }

module _ {Z : Type 0} (zk : Zookeeper Z) (rules : IsZookeeper zk) (address : ℕ → Str) where
  -- A member after a call.
  abbrev pub with_call : Group Z → ℕ → Z × ServerRole × Program → Group Z
  with_call s i (z, role, rest) = record {
    zookeeper = z;
    member = with_member s.member i (record { is_alive = true; role = role; rest = rest });
  }

  abbrev pub with_rest : Group Z → ℕ → Program → Group Z
  with_rest s i rest = record s {
    member =
        with_member s.member i (record { is_alive = true; role = (s.member i).role; rest = rest });
  }

  pub data Step (s : Group Z) : Group Z → Type 0 where
    -- The next call of the function that a server is in.
    call :
        (i : ℕ)
        → (s.member i).is_alive ≡ true
        → Step s (with_call s i (advance zk i s.zookeeper (s.member i).role (s.member i).rest))
    -- A server that is in no function calls the next one.
    connect :
        (i : ℕ) (result : ℤ) (has_handle : Bool) (is_connected : ℕ → Bool) (is_filled : Bool)
        → (s.member i).is_alive ≡ true
        → (s.member i).rest ≡ returns result
        → Step s (with_rest s i (zk_connect has_handle is_connected is_filled))
    register :
        (i : ℕ) (result : ℤ)
        → (s.member i).is_alive ≡ true
        → (s.member i).rest ≡ returns result
        → (s.member i).role ≡ ServerRole.unset
        → Step s (with_rest s i (zk_register_tree_server (address i)))
    notify :
        (i : ℕ) (result : ℤ) (is_child_event is_connected_state is_filled is_listener_set : Bool)
        → (s.member i).is_alive ≡ true
        → (s.member i).rest ≡ returns result
        → Step s (
            with_rest s i (
              zk_children_watcher is_child_event is_connected_state is_filled is_listener_set
                (s.member i).role))
    -- A server closes its session, in `zk_close` or because it dies at any point.
    close :
        (i : ℕ)
        → Step s (record {
          zookeeper = (zk_close zk s.zookeeper i).0;
          member = with_member s.member i (record {
            is_alive = false;
            role = (zk_close zk s.zookeeper i).1;
            rest = returns (pos 0);
          });
        })
    -- Zookeeper changes otherwise, and keeps the znodes: a connection is lost or comes back.
    outage :
        (z : Z)
        → ((path : ZnodePath) → rules.znode z path ≡ rules.znode s.zookeeper path)
        → Step s (record s { zookeeper = z })

  -- The runs of a group whose servers have all just started, on any znodes.
  pub data Reach (z : Z) : Group Z → Type 0 where
    start : Reach z (record { zookeeper = z; member = λ i. started })
    extended : (s s' : Group Z) → Reach z s → Step s s' → Reach z s'
