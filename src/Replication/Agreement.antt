-- ===== src/Replication/Agreement.antt =====
-- The backup server of source/server/tree_skel.c follows the primary server.
use sdistr2020_group.Replication.Trees.{empty_tree, has_tree}
use mathlib.Core.Path.{subst}
use mathlib.Core.List.{append_assoc, append-nil}
use sdistr2020_group.Prelude.{
  ◌≡◌, true, false, Option, none, some, List, [], ◌∷◌, ◌++◌, refl, ap, ◌∙◌, sym, if◌then◌else◌,
}
use sdistr2020_group.Entry.{Str}
use sdistr2020_group.Message.{Message}
use sdistr2020_group.Message.Recopied.{copied, IsCopied, Message_dup-copied}
use sdistr2020_group.Tasks.{tasks_init}
use sdistr2020_group.Tasks.Invariant.{tasks_init-IsValid}
use sdistr2020_group.Skel.{ServerRole, is_backup}
use sdistr2020_group.Replication.Sends.{due}
use sdistr2020_group.Skel.{Server, Network, runs, invoke, process_next, tree_skel_init}
use sdistr2020_group.Skel.Requests.{is_write}
use sdistr2020_group.Replication.{
  Pair, pair_init, copy_of, Step, Reach, request, read, work, deliver, follow, start, later,
}
use sdistr2020_group.Replication.Writes.{
  AllWrites, AllWrites-append, Performed, request-Performed, queued_by,
}
use sdistr2020_group.Replication.Work.{Moved, work-Moved}

-- The writes that clients sent, in their order: those that the backup server performed, those in its
-- queue, and those that are under way, all of which the primary server performed; then its queue.
pub record InStep (s : Pair) : Type 0 where
  pub done : List Message
  pub waiting : List Message
  pub pending : List Message
  pub whole : s.requested ≡ done ++ (waiting ++ (s.sent ++ pending))
  pub ahead : Performed empty_tree (done ++ (waiting ++ s.sent)) pending s.primary
  pub behind : Performed empty_tree done waiting s.backup
  pub between : AllWrites s.sent

fresh-Performed : Performed empty_tree [] [] tree_skel_init
unfolding tree_skel_init tasks_init
fresh-Performed = record {
  tree = refl;
  queue = refl;
  writes = tt;
  results = refl;
  successes = tt;
  alive = refl;
  valid = tasks_init-IsValid;
}

init-InStep : InStep pair_init
init-InStep = record {
  done = [];
  waiting = [];
  pending = [];
  whole = refl;
  ahead = fresh-Performed;
  behind = fresh-Performed;
  between = tt;
}

copy_once : (m : Message) → IsCopied m → copy_of m ≡ m ∷ []
copy_once m c =
    ap (λ o. elim o [ none ↦ [] | some x ↦ x ∷ [] ]) (Message_dup-copied m) ∙ ap (λ x. x ∷ []) c

queued_once : (m : Message) → is_write m ≡ true → IsCopied m → queued_by m ≡ m ∷ []
queued_once m w c = ap (λ b. if b then copied m ∷ [] else []) w ∙ ap (λ x. x ∷ []) c

requested_once : (m : Message) → (if is_write m then copy_of m else []) ≡ queued_by m
requested_once m = ap (λ x. if is_write m then x else []) (copies m)
  where
    copies : (m : Message) → copy_of m ≡ copied m ∷ []
    copies m = ap (λ o. elim o [ none ↦ [] | some x ↦ x ∷ [] ]) (Message_dup-copied m)

-- A server that is not the backup sends the copy of the message, and the backup sends nothing.
primary_sends :
    (role : ServerRole) (m : Message) → is_backup role ≡ false → IsCopied m → due role m ≡ m ∷ []
primary_sends role m h c = ap (λ b. if b then [] else copy_of m) h ∙ copy_once m c

backup_sends : (role : ServerRole) (m : Message) → is_backup role ≡ true → due role m ≡ []
backup_sends role m h = ap (λ b. if b then [] else copy_of m) h

request_step :
    (junk : Option Str) (s : Pair) (m : Message)
    → InStep s
    → InStep (record s {
      requested = s.requested ++ (if is_write m then copy_of m else []);
      primary = (invoke junk s.primary (some m)).0;
    })
request_step junk s m v = record {
  done = v.done;
  waiting = v.waiting;
  pending = v.pending ++ queued_by m;
  whole =
      ap (λ x. s.requested ++ x) (requested_once m)
      ∙ ap (λ x. x ++ queued_by m) v.whole
      ∙ regroup v.done v.waiting s.sent v.pending (queued_by m);
  ahead =
      request-Performed junk empty_tree (v.done ++ (v.waiting ++ s.sent)) v.pending s.primary m
        (has_tree _ _ s.primary v.ahead) v.ahead;
  behind = v.behind;
  between = v.between;
}
  where
    regroup : (d w x p y : List Message) → (d ++ (w ++ (x ++ p))) ++ y ≡ d ++ (w ++ (x ++ (p ++ y)))
    regroup d w x p y = simp append_assoc

read_step :
    (junk : Option Str) (s : Pair) (m : Message)
    → is_write m ≡ false
    → InStep s
    → InStep (record s { backup = (invoke junk s.backup (some m)).0 })
read_step junk s m w v = record {
  done = v.done;
  waiting = v.waiting;
  pending = v.pending;
  whole = v.whole;
  ahead = v.ahead;
  behind =
      subst (λ xs. Performed empty_tree v.done xs (invoke junk s.backup (some m)).0)
        (ap (λ b. v.waiting ++ (if b then copied m ∷ [] else [])) w ∙ append-nil v.waiting)
        (request-Performed junk empty_tree v.done v.waiting s.backup m
          (has_tree _ _ s.backup v.behind) v.behind);
  between = v.between;
}

work_step :
    (s : Pair) (net : Network) (p : Server) (sent : List Message)
    → is_backup net.role ≡ false
    → process_next net s.primary ≡ (runs p, sent)
    → InStep s
    → InStep (record s { primary = p; sent = s.sent ++ sent })
unfolding Moved
work_step s net p sent role r v =
    let (m, rest, split, sends, ahead) =
      work-Moved net empty_tree (v.done ++ (v.waiting ++ s.sent)) v.pending s.primary p sent v.ahead
        r in
    let (w, c, _) = subst AllWrites split v.ahead.writes in
    let once : sent ≡ m ∷ [] = sends ∙ primary_sends net.role m role c in
    record {
      done = v.done;
      waiting = v.waiting;
      pending = rest;
      whole =
          v.whole
          ∙ ap (λ xs. v.done ++ (v.waiting ++ (s.sent ++ xs))) split
          ∙ ap (λ xs. v.done ++ (v.waiting ++ xs)) (sym (append_assoc s.sent (m ∷ []) rest))
          ∙ ap (λ xs. v.done ++ (v.waiting ++ ((s.sent ++ xs) ++ rest))) (sym once);
      ahead =
          subst (λ xs. Performed empty_tree xs rest p)
            (append_assoc v.done (v.waiting ++ s.sent) (m ∷ [])
              ∙ ap (λ y. v.done ++ y) (append_assoc v.waiting s.sent (m ∷ []))
              ∙ ap (λ y. v.done ++ (v.waiting ++ (s.sent ++ y))) (sym once))
            ahead;
      behind = v.behind;
      between = AllWrites-append s.sent sent v.between (subst AllWrites (sym once) (w, c, tt));
    }

deliver_step :
    (junk : Option Str) (s : Pair) (m : Message) (rest : List Message)
    → s.sent ≡ m ∷ rest
    → InStep s
    → InStep (record s { sent = rest; backup = (invoke junk s.backup (some m)).0 })
deliver_step junk s m rest e v =
    let (w, c, ws) = subst AllWrites e v.between in
    record {
      done = v.done;
      waiting = v.waiting ++ (m ∷ []);
      pending = v.pending;
      whole =
          v.whole
          ∙ ap (λ xs. v.done ++ (v.waiting ++ (xs ++ v.pending))) e
          ∙ ap (λ xs. v.done ++ xs) (sym (append_assoc v.waiting (m ∷ []) (rest ++ v.pending)));
      ahead =
          subst (λ xs. Performed empty_tree (v.done ++ xs) v.pending s.primary)
            (ap (λ xs. v.waiting ++ xs) e ∙ sym (append_assoc v.waiting (m ∷ []) rest)) v.ahead;
      behind =
          subst
            (λ xs. Performed empty_tree v.done (v.waiting ++ xs) (invoke junk s.backup (some m)).0)
            (queued_once m w c)
            (request-Performed junk empty_tree v.done v.waiting s.backup m
              (has_tree v.done v.waiting s.backup v.behind) v.behind);
      between = ws;
    }

follow_step :
    (s : Pair) (net : Network) (b : Server) (sent : List Message)
    → is_backup net.role ≡ true
    → process_next net s.backup ≡ (runs b, sent)
    → InStep s
    → InStep (record s { sent = s.sent ++ sent; backup = b })
unfolding Moved
follow_step s net b sent role r v =
    let (m, rest, split, sends, behind) =
      work-Moved net empty_tree v.done v.waiting s.backup b sent v.behind r in
    let same : s.sent ≡ s.sent ++ sent =
      sym (append-nil s.sent)
      ∙ ap (λ xs. s.sent ++ xs) (sym (sends ∙ backup_sends net.role m role)) in
    record {
      done = v.done ++ (m ∷ []);
      waiting = rest;
      pending = v.pending;
      whole =
          v.whole
          ∙ ap (λ xs. v.done ++ (xs ++ (s.sent ++ v.pending))) split
          ∙ sym (append_assoc v.done (m ∷ []) (rest ++ (s.sent ++ v.pending)))
          ∙ ap (λ xs. (v.done ++ (m ∷ [])) ++ (rest ++ (xs ++ v.pending))) same;
      ahead =
          subst (λ xs. Performed empty_tree xs v.pending s.primary)
            (ap (λ xs. v.done ++ (xs ++ s.sent)) split
              ∙ sym (append_assoc v.done (m ∷ []) (rest ++ s.sent))
              ∙ ap (λ xs. (v.done ++ (m ∷ [])) ++ (rest ++ xs)) same)
            v.ahead;
      behind = behind;
      between = subst AllWrites same v.between;
    }

Step-InStep : {junk : Option Str} {s t : Pair} → Step junk s t → InStep s → InStep t
Step-InStep {junk} {s} (request m) v = request_step junk s m v
Step-InStep {junk} {s} (read m w) v = read_step junk s m w v
Step-InStep {s = s} (work net p sent role r) v = work_step s net p sent role r v
Step-InStep {junk} {s} (deliver m rest e) v = deliver_step junk s m rest e v
Step-InStep {s = s} (follow net b sent role r) v = follow_step s net b sent role r v

pub Reach-InStep : {junk : Option Str} {s : Pair} → Reach junk s → InStep s
Reach-InStep start = init-InStep
Reach-InStep (later r st) = Step-InStep st (Reach-InStep r)
