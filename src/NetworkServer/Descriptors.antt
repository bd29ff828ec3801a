-- ===== src/NetworkServer/Descriptors.antt =====
-- The descriptors that source/server/network_server.c opens and closes.
use sdistr2020_group.Prelude.{
  ℕ, zero, suc, ◌+◌, ◌<◌, ◌≡◌, Bool, true, false, List, [], ◌∷◌, ◌++◌, refl, sym, ap, ◌∙◌, arith, ℤ,
  negsuc, ltb, eqb_ℤ, length, drop, if◌then◌else◌, Bool-cases, inl, inr,
}
use sdistr2020_group.Prelude.{times, times-append}
use sdistr2020_group.NetworkServer.{
  Pollfd, Sockets, is_closed, compact, accept_at, handle_listening_socket_events, serve_clients,
  closed_clients, close_all_client_sockets, handle_client_sockets_events, poll, PollResult, timeout,
  reports, accepted_client, network_main_loop,
}
use sdistr2020_group.NetworkServer.Moves.{closed-move_closed}
use sdistr2020_group.NetworkServer.Compaction.{open_sockets, AllClosed, compact_open}
use sdistr2020_group.NetworkServer.Watched.{
  IsWatched, IsAccepted, some_open, poll-IsWatched, listen-IsWatched, events-IsWatched,
}

-- How often a descriptor stands among the sockets.
abbrev pub held : ℤ → List Pollfd → ℕ
held d [] = 0
held d (p ∷ ps) = (if eqb_ℤ d p.fd then 1 else 0) + held d ps

held-append : (d : ℤ) (xs ys : List Pollfd) → held d (xs ++ ys) ≡ held d xs + held d ys
held-append d [] ys = omega arith
held-append d (x ∷ xs) ys = omega (arith, held-append d xs ys)

module _ (d : ℤ) (is_open : eqb_ℤ d (negsuc 0) ≡ false) where
  unheld : (p : Pollfd) → is_closed p ≡ true → eqb_ℤ d p.fd ≡ false
  unheld p h = ground (arith, h, is_open)

  held-AllClosed : (ps : List Pollfd) → AllClosed ps → held d ps ≡ 0
  held-AllClosed [] h = refl
  held-AllClosed (p ∷ ps) h = let u = unheld p h.0 in ground (arith, u, held-AllClosed ps h.1)

  held-open : (ps : List Pollfd) → held d (open_sockets ps) ≡ held d ps
  held-open [] = refl
  held-open (p ∷ ps) = elim (Bool-cases (is_closed p)) [
    | inl c ↦ let u = unheld p c in ground (arith, c, u, held-open ps)
    | inr o ↦ ground (arith, o, held-open ps)
  ]

  held-close_all : (ps : List Pollfd) → times d (close_all_client_sockets ps) ≡ held d ps
  unfolding close_all_client_sockets
  held-close_all [] = refl
  held-close_all (p ∷ ps) = elim (Bool-cases (is_closed p)) [
    | inl c ↦ let u = unheld p c in ground (arith, c, u, held-close_all ps)
    | inr o ↦ ground (arith, o, held-close_all ps)
  ]

  held-poll :
      (events : List Bool) (count : ℕ) (ps : List Pollfd)
      → held d (poll events count ps) ≡ held d ps
  unfolding poll
  held-poll events zero ps = refl
  held-poll [] (suc count) ps = refl
  held-poll (e ∷ events) (suc count) [] = refl
  held-poll (e ∷ events) (suc count) (p ∷ ps) = omega (arith, held-poll events count ps)

  held-compact : (ps : List Pollfd) → held d (compact ps).0 ≡ held d ps
  held-compact ps = elim (some_open ps) [
    | inl a ↦
        held-AllClosed (compact ps).0 (unfold compact in closed-move_closed _ _ ps a)
        ∙ sym (held-AllClosed ps a)
    | inr h ↦
        let (rest, e, cl, n) = compact_open ps h in
        ap (held d) e
        ∙ omega (arith, held-append d (open_sockets ps) rest, held-AllClosed rest cl, held-open ps)
  ]

  held-accept :
      (ps : List Pollfd) (i : ℕ) (accepted : ℤ)
      → i < length ps
      → AllClosed (drop i ps)
      → held d (accept_at ps i accepted) ≡ held d ps + times d (accepted ∷ [])
  unfolding accept_at
  held-accept [] i accepted l a = absurd (omega arith)
  held-accept (p ∷ ps) zero accepted l a = let u = unheld p a.0 in ground (arith, u)
  held-accept (p ∷ ps) (suc i) accepted l a =
      omega (arith, held-accept ps i accepted (omega arith) a)

  module _ {S : Type 0} (handler : S → ℤ → S × ℤ) where
    held-serve :
        (count : ℕ) (server : S) (ps : List Pollfd)
        → held d ps
          ≡ held d (serve_clients handler count server ps).1
            + times d (closed_clients handler count server ps)
    unfolding serve_clients closed_clients
    held-serve zero server ps = omega arith
    held-serve (suc count) server [] = refl
    held-serve (suc count) server (p ∷ ps) =
        let quiet = held-serve count server ps in
        let busy = held-serve count (handler server p.fd).0 ps in
        ground (arith, quiet, busy, is_open)

    held-events :
        (server : S) (s : Sockets)
        → held d s.clients
          ≡ held d (handle_client_sockets_events handler server s).1.clients
            + times d (closed_clients handler s.client_sockets_count server s.clients)
    unfolding handle_client_sockets_events
    held-events server s =
        let served = (serve_clients handler s.client_sockets_count server s.clients).1 in
        let h = held-serve s.client_sockets_count server s.clients in
        elim (Bool-cases (serve_clients handler s.client_sockets_count server s.clients).2) [
          | inl y ↦ ground (arith, h, y, held-compact served)
          | inr n ↦ ground (arith, h, n)
        ]

    held-listen :
        (pollin : Bool) (accepted : ℤ) (s : Sockets)
        → IsAccepted accepted
        → IsWatched s
        → held d (handle_listening_socket_events pollin accepted s).clients
          ≡ held d s.clients + times d (accepted_client pollin accepted s)
    unfolding handle_listening_socket_events accepted_client
    held-listen false accepted s a w = omega arith
    held-listen true accepted s a w = elim (Bool-cases (ltb s.client_sockets_count 5)) [
      | inr full ↦ ground (arith, full)
      | inl free ↦
          let room : s.client_sockets_count < length s.clients = ground (arith, free, w.full) in
          let h = held-accept s.clients s.client_sockets_count accepted room w.rest in
          elim a [
            | inl e ↦ ground (arith, free, h, e, is_open)
            | inr y ↦ ground (arith, free, h, y)
          ]
    ]

    -- The calls of `accept` return -1, or a descriptor above 0.
    abbrev pub AllAccepted : List PollResult → Type 0
    AllAccepted [] = Unit
    AllAccepted (timeout ∷ polls) = AllAccepted polls
    AllAccepted (reports pollin events accepted ∷ polls) = IsAccepted accepted × AllAccepted polls

    -- The main loop closes every client that it accepts, once, by the time it returns: a descriptor is
    -- closed as often as it was open at the start and was accepted since, whatever the events are,
    -- and whatever the clients send. The sockets are watched, as they are at the start.
    pub main_loop_closes :
        (polls : List PollResult) (server : S) (s : Sockets)
        → AllAccepted polls
        → IsWatched s
        → let (server', opened, closed) = network_main_loop handler polls server s in
          held d s.clients + times d opened ≡ times d closed
    unfolding network_main_loop
    main_loop_closes [] server s a w = omega (arith, held-close_all s.clients)
    main_loop_closes (timeout ∷ polls) server s a w = main_loop_closes polls server s a w
    main_loop_closes (reports pollin events accepted ∷ polls) server s a w =
        let polled : Sockets = record s {
          clients = poll events s.client_sockets_count s.clients;
        } in
        let wp = poll-IsWatched events s w in
        let listened = handle_listening_socket_events pollin accepted polled in
        let wl = listen-IsWatched pollin accepted polled a.0 wp in
        let (server', s') = handle_client_sockets_events handler server listened in
        let we = events-IsWatched handler server listened wl in
        let rest = main_loop_closes polls server' s' a.1 we in
        omega (
          arith,
          held-poll events s.client_sockets_count s.clients,
          held-listen pollin accepted polled a.0 wp,
          held-events server listened,
          rest,
          times-append d (accepted_client pollin accepted polled)
              (network_main_loop handler polls server' s').1,
          times-append d
              (closed_clients handler listened.client_sockets_count server listened.clients)
              (network_main_loop handler polls server' s').2,
        )
