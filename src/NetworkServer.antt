-- ===== src/NetworkServer.antt =====
-- source/server/network_server.c: the sockets of the clients, and a turn of the main loop. What
-- `poll`, `accept` and the handling of a message do is an argument; the position 0 of the array,
-- the listening socket, is left out, so that index `i` of the code is position `i - 1`.
pub mod Compaction
pub mod Moves
pub mod Watched
pub mod Descriptors
use sdistr2020_group.Prelude.{
  ℕ, zero, suc, ◌+◌, ◌-◌, Bool, true, false, not, Option, none, some, List, [], ◌∷◌, ◌++◌, ℤ, pos,
  negsuc, ltb, ltb_ℤ, leb, eqb_ℤ, ◌==◌, ◌||◌, ◌&&◌, take, drop, replicate, if◌then◌else◌,
}
use sdistr2020_group.Message.{Message}

-- `struct pollfd`, with the bit POLLIN of `revents`; `events` is POLLIN throughout.
pub record Pollfd : Type 0 where
  pub fd : ℤ
  pub pollin : Bool

abbrev pub max_client_sockets : ℕ
max_client_sockets = 5

pub record Sockets : Type 0 where
  pub clients : List Pollfd
  pub client_sockets_count : ℕ

abbrev pub is_closed : Pollfd → Bool
is_closed p = eqb_ℤ p.fd (negsuc 0)

-- How `network_main_loop` starts.
unfoldable pub sockets_init : Sockets
sockets_init = record {
  clients = replicate max_client_sockets (record { fd = negsuc 0; pollin = false });
  client_sockets_count = 0;
}

unfoldable pub accept_at : List Pollfd → ℕ → ℤ → List Pollfd
accept_at [] i accepted = []
accept_at (p ∷ ps) zero accepted =
    (if ltb_ℤ (pos 0) accepted
      then record { fd = accepted; pollin = false }
      else record { fd = accepted; pollin = p.pollin })
    ∷ ps
accept_at (p ∷ ps) (suc i) accepted = p ∷ accept_at ps i accepted

unfoldable pub handle_listening_socket_events : Bool → ℤ → Sockets → Sockets
unfolding accept_at
handle_listening_socket_events pollin accepted s =
    if pollin && ltb s.client_sockets_count max_client_sockets
    then record {
      clients = accept_at s.clients s.client_sockets_count accepted;
      client_sockets_count =
          if ltb_ℤ (pos 0) accepted then s.client_sockets_count + 1 else s.client_sockets_count;
    }
    else s

-- What comes after `invoke`, by its result.
unfoldable pub respond : {S : Type 0} → (Message → ℤ) → S × Option Message → S × ℤ
respond send (server, none) = (server, negsuc 0)
respond send (server, some response) =
    (server, if ltb_ℤ (send response) (pos 0) then negsuc 0 else pos 0)

-- The message that the socket gives, what `invoke` does to the server, and the result of sending on
-- the socket: the server afterwards, and the result.
unfoldable pub handle_client_socket_pollin_event :
    {S : Type 0}
    → (S → Option Message → S × Option Message)
    → (ℤ → Option Message)
    → (ℤ → Message → ℤ)
    → S
    → ℤ
    → S × ℤ
unfolding respond
handle_client_socket_pollin_event invoke network_receive network_send server client_socket =
    elim (network_receive client_socket) [
      | none ↦ (server, negsuc 0)
      | some message ↦ respond (network_send client_socket) (invoke server (some message))
    ]

-- The loop over the clients that are counted: the state of the server, the sockets, and
-- `some_fds_closed`.
module _ {S : Type 0} (handler : S → ℤ → S × ℤ) where
  unfoldable pub serve_clients : ℕ → S → List Pollfd → S × List Pollfd × Bool
  serve_clients zero server ps = (server, ps, false)
  serve_clients (suc count) server [] = (server, [], false)
  serve_clients (suc count) server (p ∷ ps) =
      let (server', handler_result) = handler server p.fd in
      let (quiet, ps', closed) = serve_clients count server ps in
      let (busy, ps'', closed') = serve_clients count server' ps in
      if not (ltb_ℤ p.fd (pos 0)) && p.pollin
      then (
        busy,
        (if ltb_ℤ handler_result (pos 0) then record p { fd = negsuc 0 } else p) ∷ ps'',
        ltb_ℤ handler_result (pos 0) || closed',
      )
      else (quiet, p ∷ ps', closed)

-- The index of the last socket that is open, 0 if there is none.
unfoldable pub last_open : List Pollfd → ℕ
last_open [] = 0
last_open (p ∷ ps) =
    let i = last_open ps in if i == 0 then (if is_closed p then 0 else 1) else i + 1

unfoldable pub index_of_last_connected : List Pollfd → ℕ
unfolding last_open
index_of_last_connected ps = if last_open ps == 0 then max_client_sockets else last_open ps

-- The socket at position `i` goes behind those up to index `last`.
unfoldable pub move_to_end : ℕ → ℕ → List Pollfd → List Pollfd
move_to_end i last ps =
    take i ps ++ (drop (suc i) (take last ps) ++ (take 1 (drop i ps) ++ drop last ps))

unfoldable pub is_closed_at : List Pollfd → ℕ → Bool
is_closed_at [] i = false
is_closed_at (p ∷ ps) zero = is_closed p
is_closed_at (p ∷ ps) (suc i) = is_closed_at ps i

-- The loop from index `i` down to 1: the sockets, and the index of the last that is open.
unfoldable pub move_closed : ℕ → List Pollfd → ℕ → List Pollfd × ℕ
unfolding move_to_end is_closed_at
move_closed zero ps last = (ps, last)
move_closed (suc i) ps last =
    let moved = move_closed i (move_to_end i last ps) (last - 1) in
    let kept = move_closed i ps last in if is_closed_at ps i then moved else kept

unfoldable pub compact : List Pollfd → List Pollfd × ℕ
unfolding index_of_last_connected move_closed
compact ps = move_closed (index_of_last_connected ps - 1) ps (index_of_last_connected ps)

unfoldable pub handle_client_sockets_events :
    {S : Type 0} → (S → ℤ → S × ℤ) → S → Sockets → S × Sockets
unfolding serve_clients compact
handle_client_sockets_events handler server s =
    let (server', ps, some_fds_closed) =
      serve_clients handler s.client_sockets_count server s.clients in
    let (ps', last) = compact ps in
    (
      server',
      if some_fds_closed
          then record { clients = ps'; client_sockets_count = last }
          else record s { clients = ps },
    )

-- `poll` on the sockets that are counted: what it reports of each.
unfoldable pub poll : List Bool → ℕ → List Pollfd → List Pollfd
poll events zero ps = ps
poll [] (suc count) ps = ps
poll (event ∷ events) (suc count) [] = []
poll (event ∷ events) (suc count) (p ∷ ps) = record p { pollin = event } ∷ poll events count ps

-- A turn of the main loop in which `poll` reports events.
unfoldable pub main_loop_turn :
    {S : Type 0} → (S → ℤ → S × ℤ) → Bool → List Bool → ℤ → S → Sockets → S × Sockets
unfolding handle_listening_socket_events handle_client_sockets_events poll
main_loop_turn handler pollin events accepted server s =
    handle_client_sockets_events handler server (
      handle_listening_socket_events pollin accepted
        (record s { clients = poll events s.client_sockets_count s.clients }))

-- The descriptors that the loop over the clients closes.
module _ {S : Type 0} (handler : S → ℤ → S × ℤ) where
  unfoldable pub closed_clients : ℕ → S → List Pollfd → List ℤ
  closed_clients zero server ps = []
  closed_clients (suc count) server [] = []
  closed_clients (suc count) server (p ∷ ps) =
      let (server', handler_result) = handler server p.fd in
      let quiet = closed_clients count server ps in
      let busy = closed_clients count server' ps in
      if not (ltb_ℤ p.fd (pos 0)) && p.pollin
      then (if ltb_ℤ handler_result (pos 0) then p.fd ∷ busy else busy)
      else quiet

-- The descriptors that the server closes at the end.
unfoldable pub close_all_client_sockets : List Pollfd → List ℤ
close_all_client_sockets [] = []
close_all_client_sockets (p ∷ ps) =
    let rest = close_all_client_sockets ps in if is_closed p then rest else p.fd ∷ rest

-- What `poll` returns: 0, or events on the listening socket and the clients, with the result of the
-- call of `accept` that may follow.
pub data PollResult : Type 0 where
  timeout : PollResult
  reports : Bool → List Bool → ℤ → PollResult

-- The descriptor of a client that is accepted.
unfoldable pub accepted_client : Bool → ℤ → Sockets → List ℤ
accepted_client pollin accepted s =
    if pollin && (ltb s.client_sockets_count max_client_sockets && ltb_ℤ (pos 0) accepted)
    then accepted ∷ []
    else []

-- The loop on what `poll` returns until it fails: the server, the descriptors that are opened and
-- those that are closed; the function then returns -1.
module _ {S : Type 0} (handler : S → ℤ → S × ℤ) where
  unfoldable pub network_main_loop : List PollResult → S → Sockets → S × List ℤ × List ℤ
  unfolding close_all_client_sockets main_loop_turn accepted_client closed_clients
      handle_listening_socket_events poll
  network_main_loop [] server s = (server, [], close_all_client_sockets s.clients)
  network_main_loop (timeout ∷ polls) server s = network_main_loop polls server s
  network_main_loop (reports pollin events accepted ∷ polls) server s =
      let polled : Sockets = record s { clients = poll events s.client_sockets_count s.clients } in
      let listened = handle_listening_socket_events pollin accepted polled in
      let (server', s') = handle_client_sockets_events handler server listened in
      let (server'', opened, closed) = network_main_loop polls server' s' in
      (
        server'',
        accepted_client pollin accepted polled ++ opened,
        closed_clients handler listened.client_sockets_count server listened.clients ++ closed,
      )
