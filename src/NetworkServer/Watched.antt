-- ===== src/NetworkServer/Watched.antt =====
-- No client of source/server/network_server.c is lost: `poll` watches every socket that is open.
use mathlib.Core.Path.{subst}
use native.Mathlib.Numerals.{add-one}
use sdistr2020_group.Prelude.{
  ℕ, zero, suc, ◌+◌, ◌-◌, ◌≤◌, ◌<◌, ◌≡◌, Bool, true, false, List, [], ◌∷◌, refl, sym, ap, ◌∙◌,
  arith, ℤ, pos, negsuc, ltb, ltb_ℤ, ◌&&◌, length, drop, drop-append, if◌then◌else◌, Bool-cases,
  inl, inr, ◌⊎◌,
}
use sdistr2020_group.NetworkServer.{
  Pollfd, Sockets, sockets_init, is_closed, last_open, index_of_last_connected, compact, accept_at,
  handle_listening_socket_events, serve_clients, handle_client_sockets_events, poll, main_loop_turn,
}
use sdistr2020_group.NetworkServer.Moves.{closed-drop, closed-move_closed, move_closed_bounds}
use sdistr2020_group.NetworkServer.Compaction.{open_sockets, AllClosed, compact_open}

-- Behind the sockets that are counted, and so given to `poll`, all are closed.
pub record IsWatched (s : Sockets) : Type 0 where
  pub full : length s.clients ≡ 5
  pub counted : s.client_sockets_count ≤ 5
  pub rest : AllClosed (drop s.client_sockets_count s.clients)

last_open_bound : (ps : List Pollfd) → last_open ps ≤ length ps
unfolding last_open
last_open_bound [] = omega arith
last_open_bound (p ∷ ps) = ground (arith, last_open_bound ps)

index_bounds :
    (ps : List Pollfd)
    → length ps ≡ 5
    → (0 < index_of_last_connected ps) × (index_of_last_connected ps ≤ 5)
unfolding index_of_last_connected
index_bounds ps h = ground (arith, last_open_bound ps, h)

pub some_open : (ps : List Pollfd) → AllClosed ps ⊎ (0 < length (open_sockets ps))
some_open [] = inl tt
some_open (p ∷ ps) = elim (Bool-cases (is_closed p)) [
  | inl y ↦ elim (some_open ps) [ inl a ↦ inl (y, a) | inr h ↦ inr (ground (arith, y, h)) ]
  | inr n ↦ inr (ground (arith, n))
]

compact_rest : (ps : List Pollfd) → AllClosed (drop (compact ps).1 (compact ps).0)
compact_rest ps = elim (some_open ps) [
  | inl a ↦
      closed-drop (compact ps).1 (compact ps).0 (unfold compact in closed-move_closed _ _ ps a)
  | inr h ↦
      let (rest, e, cl, n) = compact_open ps h in
      subst AllClosed
        (sym (ap (drop (compact ps).1) e ∙ drop-append (open_sockets ps) rest (compact ps).1 n)) cl
]

compact-IsWatched :
    (ps : List Pollfd)
    → length ps ≡ 5
    → IsWatched (record { clients = (compact ps).0; client_sockets_count = (compact ps).1 })
unfolding compact
compact-IsWatched ps h =
    let last = index_of_last_connected ps in
    let index = index_bounds ps h in
    let bounds = move_closed_bounds (last - 1) last ps (omega (arith, index.0)) in
    record {
      full = bounds.0 ∙ h;
      counted = omega (arith, bounds.1, index.1);
      rest = compact_rest ps;
    }

poll_lem :
    (events : List Bool) (count : ℕ) (ps : List Pollfd)
    → (length (poll events count ps) ≡ length ps)
      × (drop count (poll events count ps) ≡ drop count ps)
unfolding poll
poll_lem events zero ps = (refl, refl)
poll_lem [] (suc count) ps = (refl, refl)
poll_lem (event ∷ events) (suc count) [] = (refl, refl)
poll_lem (event ∷ events) (suc count) (p ∷ ps) =
    let (l, d) = poll_lem events count ps in (ap suc l, d)

-- `accept` returns -1, or a descriptor above 0.
abbrev pub IsAccepted : ℤ → Type 0
IsAccepted accepted = (accepted ≡ negsuc 0) ⊎ (ltb_ℤ (pos 0) accepted ≡ true)

accept_lem :
    (ps : List Pollfd) (i : ℕ) (accepted : ℤ)
    → (length (accept_at ps i accepted) ≡ length ps)
      × (drop (suc i) (accept_at ps i accepted) ≡ drop (suc i) ps)
unfolding accept_at
accept_lem [] i accepted = (refl, refl)
accept_lem (p ∷ ps) zero accepted = (refl, refl)
accept_lem (p ∷ ps) (suc i) accepted = let (l, d) = accept_lem ps i accepted in (ap suc l, d)

accept_refused :
    (ps : List Pollfd) (i : ℕ)
    → AllClosed (drop i ps)
    → AllClosed (drop i (accept_at ps i (negsuc 0)))
unfolding accept_at
accept_refused [] i a = a
accept_refused (p ∷ ps) zero a = (refl, a.1)
accept_refused (p ∷ ps) (suc i) a = accept_refused ps i a

pub branches :
    (P : Sockets → Type 0) (b : Bool) {x y : Sockets}
    → (b ≡ true → P x)
    → P y
    → P (if b then x else y)
branches P true f p = f refl
branches P false f p = p

closed_behind : (i : ℕ) (ps : List Pollfd) → AllClosed (drop i ps) → AllClosed (drop (suc i) ps)
closed_behind zero [] a = tt
closed_behind zero (p ∷ ps) a = a.1
closed_behind (suc i) [] a = tt
closed_behind (suc i) (p ∷ ps) a = closed_behind i ps a

accept-IsWatched :
    (ps : List Pollfd) (i : ℕ) (accepted : ℤ)
    → IsAccepted accepted
    → i < 5
    → length ps ≡ 5
    → AllClosed (drop i ps)
    → IsWatched (record {
      clients = accept_at ps i accepted;
      client_sockets_count = if ltb_ℤ (pos 0) accepted then i + 1 else i;
    })
accept-IsWatched ps i accepted (inl e) lt l c = rw e (record {
  full = (accept_lem ps i (negsuc 0)).0 ∙ l;
  counted = omega arith;
  rest = accept_refused ps i c;
})
accept-IsWatched ps i accepted (inr y) lt l c = rw y (record {
  full = (accept_lem ps i accepted).0 ∙ l;
  counted = omega arith;
  rest =
      subst (λ k. AllClosed (drop k (accept_at ps i accepted))) (sym (add-one i))
        (subst AllClosed (sym (accept_lem ps i accepted).1) (closed_behind i ps c));
})

pub listen-IsWatched :
    (pollin : Bool) (accepted : ℤ) (s : Sockets)
    → IsAccepted accepted
    → IsWatched s
    → IsWatched (handle_listening_socket_events pollin accepted s)
unfolding handle_listening_socket_events
listen-IsWatched pollin accepted s a w =
    branches IsWatched (pollin && ltb s.client_sockets_count 5)
      (λ y.
        accept-IsWatched s.clients s.client_sockets_count accepted a
          (room pollin s.client_sockets_count y) w.full w.rest)
      w
  where
    room : (pollin : Bool) (count : ℕ) → (pollin && ltb count 5) ≡ true → count < 5
    room true count y = ground (arith, y)
    room false count y = absurd (ground (arith, y))

pub poll-IsWatched :
    (events : List Bool) (s : Sockets)
    → IsWatched s
    → IsWatched (record s { clients = poll events s.client_sockets_count s.clients })
poll-IsWatched events s w =
    let (l, d) = poll_lem events s.client_sockets_count s.clients in
    record { full = l ∙ w.full; counted = w.counted; rest = subst AllClosed (sym d) w.rest }

module _ {S : Type 0} (handler : S → ℤ → S × ℤ) where
  pub serve_lem :
      (count : ℕ) (server : S) (ps : List Pollfd)
      → (length (serve_clients handler count server ps).1 ≡ length ps)
        × (drop count (serve_clients handler count server ps).1 ≡ drop count ps)
  unfolding serve_clients
  serve_lem zero server ps = (refl, refl)
  serve_lem (suc count) server [] = (refl, refl)
  serve_lem (suc count) server (p ∷ ps) =
      ground (arith, serve_lem count server ps, serve_lem count (handler server p.fd).0 ps)

  pub events-IsWatched :
      (server : S) (s : Sockets)
      → IsWatched s
      → IsWatched (handle_client_sockets_events handler server s).1
  unfolding handle_client_sockets_events
  events-IsWatched server s w =
      let (l, d) = serve_lem s.client_sockets_count server s.clients in
      let served = (serve_clients handler s.client_sockets_count server s.clients).1 in
      branches IsWatched (serve_clients handler s.client_sockets_count server s.clients).2
        (λ y. compact-IsWatched served (l ∙ w.full))
        (record { full = l ∙ w.full; counted = w.counted; rest = subst AllClosed (sym d) w.rest })

  -- A turn of the main loop, whatever the events are and whatever the clients send, keeps every
  -- socket that is open among those that `poll` watches, and the array at five sockets; an `accept`
  -- returns -1 or a descriptor above 0.
  pub main_loop_turn-IsWatched :
      (pollin : Bool) (events : List Bool) (accepted : ℤ) (server : S) (s : Sockets)
      → IsAccepted accepted
      → IsWatched s
      → IsWatched (main_loop_turn handler pollin events accepted server s).1
  unfolding main_loop_turn
  main_loop_turn-IsWatched pollin events accepted server s a w =
      events-IsWatched server _ (listen-IsWatched pollin accepted _ a (poll-IsWatched events s w))

-- The sockets that the main loop starts with are watched.
pub sockets_init-IsWatched : IsWatched sockets_init
unfolding sockets_init
sockets_init-IsWatched = record {
  full = refl;
  counted = omega arith;
  rest = (refl, (refl, (refl, (refl, (refl, tt)))));
}
