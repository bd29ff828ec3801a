-- ===== src/TreeClient/Ready.antt =====
-- While a client of source/client/tree_client.c counts as connected, it has its two sockets.
use sdistr2020_group.Prelude.{
  ◌≡◌, Bool, true, false, Option, none, some, List, [], ◌∷◌, ℤ, pos, negsuc, ltb_ℤ, arith,
  if◌then◌else◌, Bool-cases, inl, inr,
}
use sdistr2020_group.Entry.{Str}
use sdistr2020_group.Inet.{parse_address_port}
use sdistr2020_group.ClientStub.{
  Address, null_address, address, Rtree, Stub, Transport, connect_to, network_connect, free_address,
  without_sockets, connect_found, servers_retry_connect, on_servers_changed, rtree_connect,
  rtree_disconnect,
}
use sdistr2020_group.TreeClient.{
  Output, Turn, quits, undefined, goes_on, Directory, run_command, parse_command, run_input, retry,
  client_turn, same_string, quit_command, retry_command,
}
use sdistr2020_group.Prelude.{ℕ, ◌==◌}
use sdistr2020_group.TreeClient.Session.{
  Round, Session, ended, failed, reads, heard, client_loop, tree_client_main,
}

-- A client that counts as connected has two sockets that were opened.
abbrev pub HasSockets : Option Rtree → Type 0
HasSockets none = ⊥
HasSockets (some rtree) =
    (ltb_ℤ rtree.primary_sockfd (pos 0) ≡ false) × (ltb_ℤ rtree.backup_sockfd (pos 0) ≡ false)

abbrev pub IsReady : Stub → Type 0
IsReady stub = stub.are_servers_connected ≡ true → HasSockets stub.rtree

abbrev pub StaysReady : {S : Type 0} → Session S → Type 0
StaysReady (ended s result) = Unit
StaysReady failed = Unit
StaysReady (reads s stub) = IsReady stub

-- What an attempt to connect leaves: sockets, if it does not fail.
abbrev Connects : Option Rtree × List ℤ × ℤ → Type 0
Connects (rtree, closed, result) = ltb_ℤ result (pos 0) ≡ false → HasSockets rtree

network_connect-Connects :
    (server_connect : Str → ℤ → ℤ) (rtree : Rtree)
    → Connects (network_connect server_connect (some rtree))
unfolding network_connect
network_connect-Connects server_connect rtree =
    let primary =
      connect_to server_connect rtree.primary_server_ip_address rtree.primary_server_port in
    let backup =
      connect_to server_connect rtree.backup_server_ip_address rtree.backup_server_port in
    elim (Bool-cases (ltb_ℤ primary (pos 0))) [
      | inl bad ↦ rw bad (λ h. absurd (ground (arith, h)))
      | inr good ↦ elim (Bool-cases (ltb_ℤ backup (pos 0))) [
        | inl lost ↦ rw (good, lost) (λ h. absurd (ground (arith, h)))
        | inr found ↦ rw (good, found) (λ h. (good, found))
      ]
    ]

addresses-Connects :
    (server_connect : Str → ℤ → ℤ) (ip ip' : Address) (o o' : Option (Str × ℤ))
    → Connects (elim o [
      | none ↦ (some (without_sockets ip (negsuc 0) ip' (negsuc 0)), [], negsuc 0)
      | some (primary_ip, primary_port) ↦ elim o' [
        | none ↦
            (some (without_sockets (address primary_ip) primary_port ip' (negsuc 0)), [], negsuc 0)
        | some (backup_ip, backup_port) ↦ network_connect server_connect (
            some
              (without_sockets (address primary_ip) primary_port (address backup_ip) backup_port))
      ]
    ])
addresses-Connects server_connect ip ip' none o' = λ h. absurd (ground (arith, h))
addresses-Connects server_connect ip ip' (some x) none = λ h. absurd (ground (arith, h))
addresses-Connects server_connect ip ip' (some x) (some y) =
    network_connect-Connects server_connect (without_sockets (address x.0) x.1 (address y.0) y.1)

connect_found-Connects :
    (server_connect : Str → ℤ → ℤ) (ip ip' : Address) (a b : Option Str)
    → Connects (connect_found server_connect ip ip' a b)
unfolding connect_found
connect_found-Connects server_connect ip ip' none b = λ h. absurd (ground (arith, h))
connect_found-Connects server_connect ip ip' (some a) none = λ h. absurd (ground (arith, h))
connect_found-Connects server_connect ip ip' (some a) (some b) =
    addresses-Connects server_connect ip ip' (parse_address_port (some a))
      (parse_address_port (some b))

-- The structure after an attempt, which finds the client not connected.
abbrev AttemptReady : Option (Stub × List ℤ × ℤ) → Type 0
AttemptReady none = Unit
AttemptReady (some (stub, closed, result)) = IsReady stub

result-IsReady :
    (x : Option Rtree × List ℤ × ℤ)
    → Connects x
    → IsReady
        (record { rtree = x.0; are_servers_connected = if ltb_ℤ x.2 (pos 0) then false else true })
result-IsReady x c h = c (ground (arith, h))

attempt-AttemptReady :
    (server_connect : Str → ℤ → ℤ) (a b : Option Str) (rtree : Rtree) (ip ip' : Option Address)
    → AttemptReady (elim ip [
      | none ↦ none
      | some p ↦ elim ip' [
        | none ↦ none
        | some p' ↦
            let (rtree', closed, result) = connect_found server_connect p p' a b in
            some (
              record {
                rtree = rtree';
                are_servers_connected = if ltb_ℤ result (pos 0) then false else true;
              },
              closed,
              result,
            )
      ]
    ])
attempt-AttemptReady server_connect a b rtree none ip' = tt
attempt-AttemptReady server_connect a b rtree (some p) none = tt
attempt-AttemptReady server_connect a b rtree (some p) (some p') =
    result-IsReady (connect_found server_connect p p' a b)
      (connect_found-Connects server_connect p p' a b)

retry_connect-Ready :
    (server_connect : Str → ℤ → ℤ) (a b : Option Str) (rtree : Rtree)
    → AttemptReady (servers_retry_connect server_connect a b rtree false)
unfolding servers_retry_connect
retry_connect-Ready server_connect a b rtree =
    attempt-AttemptReady server_connect a b rtree (free_address rtree.primary_server_ip_address)
      (free_address rtree.backup_server_ip_address)

abbrev TurnReady : {S : Type 0} → Turn S → Type 0
TurnReady quits = Unit
TurnReady undefined = Unit
TurnReady (goes_on s stub lines) = IsReady stub

attempt_turn :
    {S : Type 0}
    → (s : S) (x : Option (Stub × List ℤ × ℤ)) → AttemptReady x
    → TurnReady {S = S}
        (elim x [ none ↦ undefined | some (stub', closed, result) ↦ goes_on s stub' [] ])
attempt_turn s none h = tt
attempt_turn s (some (stub, closed, result)) h = h

retry-Ready :
    {S : Type 0}
    → (dir : Directory) (s : S) (rtree : Option Rtree) (b : Bool)
    → IsReady (record { rtree = rtree; are_servers_connected = b })
    → TurnReady (retry dir s (record { rtree = rtree; are_servers_connected = b }))
unfolding retry
retry-Ready dir s rtree true h = h
retry-Ready dir s none false h = tt
retry-Ready dir s (some rtree) false h =
    attempt_turn s _
      (retry_connect-Ready dir.server_connect dir.primary_server dir.backup_server rtree)

input-Ready :
    {S : Type 0}
    → (net : Transport S) (s : S) (stub : Stub) (input : Str) → IsReady stub
    → TurnReady (run_input net s stub input)
unfolding run_input
input-Ready {S = S} net s stub input h = elim (Bool-cases stub.are_servers_connected) [
  | inl c ↦ rw c (shown (run_command net s stub.rtree (parse_command input)))
  | inr c ↦ rw c (λ k. absurd (ground (arith, k)))
]
  where
    shown :
        (o : Option (S × Output))
        → TurnReady
            (elim o [ none ↦ undefined | some (s', output) ↦ goes_on s' stub (output ∷ []) ])
    shown none = tt
    shown (some x) = h

heard-Ready :
    (close : ℤ → ℤ) (is_changed : Bool) (stub : Stub)
    → IsReady stub
    → IsReady (heard close is_changed stub)
unfolding heard on_servers_changed
heard-Ready close true stub h = λ c. absurd (ground (arith, c))
heard-Ready close false stub h = h

turn-Ready :
    {S : Type 0}
    → (net : Transport S) (dir : Directory) (s : S) (rtree : Option Rtree) (b : Bool)
    → (input : Option Str) → IsReady (record { rtree = rtree; are_servers_connected = b })
    → TurnReady
        (client_turn net dir s (record { rtree = rtree; are_servers_connected = b }) input).1
unfolding client_turn
turn-Ready net dir s rtree b none h = tt
turn-Ready net dir s rtree b (some input) h = elim (Bool-cases (same_string input quit_command)) [
  | inl y ↦ rw y tt
  | inr n ↦ elim (Bool-cases (same_string input retry_command)) [
    | inl y ↦ rw (n, y) (retry-Ready dir s rtree b h)
    | inr n' ↦ rw (n, n') (input-Ready net s _ input h)
  ]
]

next-StaysReady :
    {S : Type 0}
    → (s : S) (result : ℤ) (loop : S → Stub → Session S) (turn : Turn S) → TurnReady turn
    → ((s' : S) (stub' : Stub) → IsReady stub' → StaysReady (loop s' stub'))
    → StaysReady (elim turn [
      | quits ↦ ended s result
      | undefined ↦ failed
      | goes_on s' stub' lines ↦ loop s' stub'
    ])
next-StaysReady s result loop quits t again = tt
next-StaysReady s result loop undefined t again = tt
next-StaysReady s result loop (goes_on s' stub' lines) t again = again s' stub' t

module _ {S : Type 0} (net : Transport S) (close : ℤ → ℤ) where
  session-StaysReady :
      (rounds : List Round) (s : S) (stub : Stub)
      → IsReady stub
      → StaysReady (client_loop net close rounds s stub)
  unfolding client_loop
  session-StaysReady [] s stub h = h
  session-StaysReady (round ∷ rounds) s stub h =
      let now = heard close round.is_changed stub in
      next-StaysReady s (rtree_disconnect close now).2 (client_loop net close rounds)
        (client_turn net round.directory s now round.input).1
        (turn-Ready net round.directory s now.rtree now.are_servers_connected round.input
          (heard-Ready close round.is_changed stub h))
        (λ s' stub' t. session-StaysReady rounds s' stub' t)

  first-StaysReady :
      (rounds : List Round) (s : S) (x : Option (Stub × List ℤ × ℤ))
      → AttemptReady x
      → StaysReady {S = S} (elim x [
        | none ↦ failed
        | some (stub, closed, result) ↦ client_loop net close rounds s stub
      ])
  first-StaysReady rounds s none h = tt
  first-StaysReady rounds s (some (stub, closed, result)) h = session-StaysReady rounds s stub h

  -- Whatever the user types, whatever Zookeeper and the servers answer, and whenever the servers
  -- change between two lines: as long as the program reads on, and the client counts as connected,
  -- it has a structure with two sockets, neither of which is a negative number.
  pub main-StaysReady :
      (argc : ℕ) (is_zk_connected : Bool) (dir : Directory) (rounds : List Round) (s : S)
      → StaysReady (tree_client_main net close argc is_zk_connected dir rounds s)
  unfolding tree_client_main rtree_connect
  main-StaysReady argc is_zk_connected dir rounds s = elim (Bool-cases (argc == 2)) [
    | inr n ↦ rw n tt
    | inl y ↦ elim (Bool-cases is_zk_connected) [
      | inr n ↦ rw (y, n) tt
      | inl z ↦
          rw (y, z)
            (first-StaysReady rounds s
              (rtree_connect dir.server_connect dir.primary_server dir.backup_server false)
              (retry_connect-Ready dir.server_connect dir.primary_server dir.backup_server
                (without_sockets null_address (negsuc 0) null_address (negsuc 0))))
    ]
  ]
