-- ===== src/Replication.antt =====
-- A primary and a backup server at work, and the messages between them: source/server/tree_skel.c
-- twice, with the clients of source/client/client_stub.c, which write to the primary server and
-- read from the backup server.
pub mod Writes
pub mod Sends
pub mod Work
pub mod Trees
pub mod Agreement
pub mod Consistency
use sdistr2020_group.Prelude.{
  ◌≡◌, Bool, true, false, Option, if◌then◌else◌, none, some, List, [], ◌∷◌, ◌++◌, pos,
}
use sdistr2020_group.Entry.{Str}
use sdistr2020_group.Message.{Message, Message_dup}
use sdistr2020_group.Tasks.{Task, tasks_get_next, next_task}
use sdistr2020_group.Skel.{Server, Network, runs, invoke, process_next, tree_skel_init, is_backup}
use sdistr2020_group.Skel.Requests.{is_write}

-- The copy of a message that a server takes, and that `replicate_to_backup_server` sends.
abbrev pub copy_of : Message → List Message
copy_of m = elim (Message_dup m) [ none ↦ [] | some copied ↦ copied ∷ [] ]

pub record Pair : Type 0 where
  -- The writes that clients sent to the primary server, the oldest first. No step reads them.
  pub requested : List Message
  pub primary : Server
  -- What the primary server sent, and the backup server has not handled yet; the oldest first.
  pub sent : List Message
  pub backup : Server

abbrev pub pair_init : Pair
pair_init = record { requested = []; primary = tree_skel_init; sent = []; backup = tree_skel_init }

-- One step. Each server handles a request, or its worker takes a task and goes on; a worker that
-- exits ends the run. What `process_next` says that `network_send_message` sent is under way to the
-- backup server, where it arrives in the order in which it was sent. The two servers stay the same
-- for the whole run: no server takes the place of one that ended.
pub data Step (junk : Option Str) (s : Pair) : Pair → Type 0 where
  -- A client sends any request to the primary server.
  request :
      (m : Message)
      → Step junk s (record s {
        requested = s.requested ++ (if is_write m then copy_of m else []);
        primary = (invoke junk s.primary (some m)).0;
      })
  -- A client sends a read to the backup server.
  read :
      (m : Message)
      → is_write m ≡ false
      → Step junk s (record s { backup = (invoke junk s.backup (some m)).0 })
  -- The worker of the primary server.
  work :
      (net : Network) (p : Server) (sent : List Message)
      → is_backup net.role ≡ false
      → process_next net s.primary ≡ (runs p, sent)
      → Step junk s (record s { primary = p; sent = s.sent ++ sent })
  -- The backup server handles the oldest message.
  deliver :
      (m : Message) (rest : List Message)
      → s.sent ≡ m ∷ rest
      → Step junk s (record s { sent = rest; backup = (invoke junk s.backup (some m)).0 })
  -- The worker of the backup server.
  follow :
      (net : Network) (b : Server) (sent : List Message)
      → is_backup net.role ≡ true
      → process_next net s.backup ≡ (runs b, sent)
      → Step junk s (record s { sent = s.sent ++ sent; backup = b })

pub data Reach (junk : Option Str) : Pair → Type 0 where
  start : Reach junk pair_init
  later : {s t : Pair} → Reach junk s → Step junk s t → Reach junk t
