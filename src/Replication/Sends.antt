-- ===== src/Replication/Sends.antt =====
-- What a write of the worker of source/server/tree_skel.c sends to the backup server.
use mathlib.Core.Path.{subst}
use sdistr2020_group.Prelude.{
  ◌≡◌, Bool, true, false, Option, none, some, List, [], ◌∷◌, refl, sym, arith, ℤ, pos, ltb_ℤ,
  Bool-cases, inl, inr, ◌⊎◌,
}
use sdistr2020_group.Entry.{Entry}
use sdistr2020_group.Tree.{Tree, tree_put, tree_del}
use sdistr2020_group.Message.{Message, msg_to_entry}
use sdistr2020_group.Tasks.{Task, tasks_set_result, successful}
use sdistr2020_group.Prelude.{negsuc, if◌then◌else◌}
use sdistr2020_group.Entry.{Str}
use sdistr2020_group.Message.{Message_dup}
use sdistr2020_group.Inet.{parse_address_port}
use sdistr2020_group.Replication.{copy_of}
use sdistr2020_group.Skel.{Outcome, ended, exited, send_to, is_backup, ServerRole}
use sdistr2020_group.Skel.{
  Server, Network, runs, idle, process_task, process_tree_del, process_tree_put, finish,
  replicate_to_backup_server, key_of, entry_of,
}
use sdistr2020_group.Skel.Requests.{is_write}
use sdistr2020_group.Skel.Worker.{is_del, is_put, put_accepted, put_refused}

write_cases :
    (m : Message) → is_write m ≡ true → (is_del m ≡ true) ⊎ ((is_del m ≡ false) × (is_put m ≡ true))
unfolding is_write
write_cases m h = ground (arith, h)

-- The tasks after a result SUCCESSFUL.
abbrev pub Succeeds : Server → Task → Server → Type 0
Succeeds s task s' = s'.tasks ≡ (tasks_set_result task.task_id successful s.tasks).0

-- What a server of this role has to send.
abbrev pub due : ServerRole → Message → List Message
due role m = if is_backup role then [] else copy_of m

send_to-sent :
    (net : Network) (address : Str × ℤ) (o : Option Message)
    → ltb_ℤ (send_to net address o).0 (pos 0) ≡ false
    → (send_to net address o).1 ≡ elim o [ none ↦ [] | some copied ↦ copied ∷ [] ]
unfolding send_to
send_to-sent net address none h = refl
send_to-sent net (ip_address, port) (some m) h = ground (arith, h)

-- A replication that does not fail has sent the copy of the message, unless the server is the backup.
replicate-due :
    (net : Network) (task : Task)
    → ltb_ℤ (replicate_to_backup_server net task).0 (pos 0) ≡ false
    → (replicate_to_backup_server net task).1 ≡ due net.role task.op_code_and_args
unfolding replicate_to_backup_server
replicate-due net task = go (is_backup net.role) net.backup_server
  where
    to_address :
        (o : Option (Str × ℤ))
        → let sent : ℤ × List Message = elim o [
          | some address ↦ send_to net address (Message_dup task.op_code_and_args)
          | none ↦ send_to net net.stale (Message_dup task.op_code_and_args)
        ] in
          ltb_ℤ sent.0 (pos 0) ≡ false → sent.1 ≡ copy_of task.op_code_and_args
    to_address none h = send_to-sent net net.stale (Message_dup task.op_code_and_args) h
    to_address (some address) h = send_to-sent net address (Message_dup task.op_code_and_args) h

    go :
        (b : Bool) (o : Option Str)
        → let sent : ℤ × List Message = if b then (pos 0, []) else elim o [
          | none ↦ (negsuc 0, [])
          | some address_port ↦ elim (parse_address_port (some address_port)) [
            | some address ↦ send_to net address (Message_dup task.op_code_and_args)
            | none ↦ send_to net net.stale (Message_dup task.op_code_and_args)
          ]
        ] in
          ltb_ℤ sent.0 (pos 0) ≡ false → sent.1 ≡ (if b then [] else copy_of task.op_code_and_args)
    go true o h = refl
    go false none h = cc
    go false (some address_port) h = to_address (parse_address_port (some address_port)) h

-- A write that goes on has succeeded and was replicated.
abbrev pub Replicated : Network → Server → Task → Outcome × List Message → Type 0
Replicated net s task (runs s', sent) =
    Succeeds s task s' × (sent ≡ due net.role task.op_code_and_args)
Replicated net s task (idle, sent) = ⊥
Replicated net s task (ended, sent) = ⊥
Replicated net s task (exited, sent) = Unit

finish-Replicated :
    (net : Network) (s : Server) (task : Task) (w : Option Tree × ℤ)
    → Replicated net s task (finish net s task w)
unfolding finish
finish-Replicated net s task w = elim (Bool-cases (ltb_ℤ w.1 (pos 0))) [
  | inl bad ↦ rw bad tt
  | inr good ↦ elim (Bool-cases (ltb_ℤ (replicate_to_backup_server net task).0 (pos 0))) [
    | inl lost ↦ rw (good, lost) tt
    | inr sent ↦ rw (good, sent) (refl, replicate-due net task sent)
  ]
]

put-Replicated :
    (net : Network) (s : Server) (task : Task) (e : Option Entry)
    → msg_to_entry (entry_of task.op_code_and_args.content) ≡ e
    → Replicated net s task (process_tree_put net s task)
put-Replicated net s task none e = subst (Replicated net s task) (sym (put_refused net s task e)) tt
put-Replicated net s task (some entry) e =
    subst (Replicated net s task) (sym (put_accepted net s task entry e))
      (finish-Replicated net s task (tree_put s.tree entry.key entry.value))

pub write-Replicated :
    (net : Network) (s : Server) (task : Task)
    → is_write task.op_code_and_args ≡ true
    → Replicated net s task (process_task net s task)
unfolding process_task process_tree_del
write-Replicated net s task w = elim (write_cases task.op_code_and_args w) [
  | inl del ↦
      rw del (finish-Replicated net s task (tree_del s.tree (key_of task.op_code_and_args.content)))
  | inr (not_del, put) ↦ rw not_del (rw put (put-Replicated net s task _ refl))
]
