-- ===== src/ClientStub/Connections.antt =====
-- The connections of a client of source/client/client_stub.c to the two servers.
use sdistr2020_group.Prelude.{◌^◌}
use sdistr2020_group.Prelude.{
  ℕ, suc, ◌<◌, ◌≡◌, Bool, true, false, Option, none, some, List, [], ◌∷◌, refl, ap, ◌∙◌, arith, ℤ,
  pos, negsuc, ltb_ℤ, if◌then◌else◌,
}
use sdistr2020_group.Entry.{Str}
use sdistr2020_group.Inet.{parse_address_port}
use sdistr2020_group.Inet.Address.{print_address, Every, NotColon, parse_address_port-print}
use sdistr2020_group.ClientStub.{on_servers_changed, network_close}
use sdistr2020_group.ClientStub.{
  Rtree, Stub, address, freed_address, null_address, network_connect, connect_to, close_socket,
  without_sockets, connect_found, free_address, servers_retry_connect, rtree_connect,
  rtree_disconnect,
}

-- A client that was connected once, and that finds no primary server in Zookeeper, fails to connect
-- and keeps pointers to what it freed; the next attempt frees them again, whatever Zookeeper says.
pub retry_frees_twice :
    (server_connect : Str → ℤ → ℤ) (ip ip' : Str) (port port' sockfd sockfd' : ℤ)
    (backup primary2 backup2 : Option Str) (c c2 : Bool)
    → let rtree : Rtree = record {
      primary_server_ip_address = address ip;
      primary_server_port = port;
      primary_sockfd = sockfd;
      backup_server_ip_address = address ip';
      backup_server_port = port';
      backup_sockfd = sockfd';
    } in
      let left = without_sockets freed_address (negsuc 0) freed_address (negsuc 0) in
      (servers_retry_connect server_connect none backup rtree c
        ≡ some (record { rtree = some left; are_servers_connected = c }, [], negsuc 0))
      × (servers_retry_connect server_connect primary2 backup2 left c2 ≡ none)
unfolding servers_retry_connect connect_found free_address without_sockets
retry_frees_twice server_connect ip ip' port port' sockfd sockfd' backup primary2 backup2 c c2 =
    (refl, refl)

found_addresses :
    (server_connect : Str → ℤ → ℤ) (a b text text' : Str) (port port' : ℤ)
    → parse_address_port (some text) ≡ some (a, port)
    → parse_address_port (some text') ≡ some (b, port')
    → connect_found server_connect null_address null_address (some text) (some text')
      ≡ network_connect server_connect (some (without_sockets (address a) port (address b) port'))
unfolding connect_found
found_addresses server_connect a b text text' port port' h h' = ground (arith, h, h')

both_connected :
    (server_connect : Str → ℤ → ℤ) (a b : Str) (port port' : ℤ) (n m : ℕ)
    → server_connect a port ≡ pos n
    → server_connect b port' ≡ pos m
    → network_connect server_connect (some (without_sockets (address a) port (address b) port')) ≡ (
      some (record {
        primary_server_ip_address = address a;
        primary_server_port = port;
        primary_sockfd = pos n;
        backup_server_ip_address = address b;
        backup_server_port = port';
        backup_sockfd = pos m;
      }),
      [],
      pos 0,
    )
unfolding network_connect without_sockets connect_to
both_connected server_connect a b port port' n m h h' = ground (arith, h, h')

-- A client that finds the addresses of both servers as they were registered, with ports that an
-- `int` holds, and connects to both,
-- is connected, closes nothing on the way, and holds their addresses, ports and sockets; when it
-- disconnects it closes both sockets once, and answers 0 if neither `close` fails.
pub connect_disconnect :
    (server_connect : Str → ℤ → ℤ) (close : ℤ → ℤ) (x y : ℕ) (a b : Str) (port port' n m : ℕ)
    (c : Bool)
    → Every NotColon (x ∷ a)
    → Every NotColon (y ∷ b)
    → 0 < port
    → 0 < port'
    → port < 2 ^ 31
    → port' < 2 ^ 31
    → server_connect (x ∷ a) (pos port) ≡ pos (suc n)
    → server_connect (y ∷ b) (pos port') ≡ pos (suc m)
    → close (pos (suc n)) ≡ pos 0
    → close (pos (suc m)) ≡ pos 0
    → let rtree : Rtree = record {
      primary_server_ip_address = address (x ∷ a);
      primary_server_port = pos port;
      primary_sockfd = pos (suc n);
      backup_server_ip_address = address (y ∷ b);
      backup_server_port = pos port';
      backup_sockfd = pos (suc m);
    } in
      let stub : Stub = record { rtree = some rtree; are_servers_connected = true } in
      (rtree_connect server_connect
          (some (print_address (x ∷ a) port))
          (some (print_address (y ∷ b) port'))
          c
        ≡ some (stub, [], pos 0))
      × (rtree_disconnect close stub ≡ (
        record { rtree = none; are_servers_connected = false },
        pos (suc n) ∷ pos (suc m) ∷ [],
        pos 0,
      ))
unfolding rtree_connect rtree_disconnect close_socket free_address
connect_disconnect server_connect close x y a b port port' n m c hx hy hp hp' lt lt' h h' k k' = (
  ap
      (λ (r : Option Rtree × List ℤ × ℤ). some (
        record { rtree = r.0; are_servers_connected = if ltb_ℤ r.2 (pos 0) then c else true },
        r.1,
        r.2,
      ))
      (found_addresses server_connect (x ∷ a) (y ∷ b) _ _ (pos port) (pos port')
          (parse_address_port-print x a port hx hp lt)
          (parse_address_port-print y b port' hy hp' lt')
        ∙ both_connected server_connect (x ∷ a) (y ∷ b) (pos port) (pos port') (suc n) (suc m) h
            h'),
  ground (arith, k, k'),
)

-- A client that is connected to both servers and hears that the servers changed closes both sockets
-- and keeps their descriptors: when it disconnects without a new attempt to connect, it closes the
-- same two descriptors a second time, whatever they stand for then.
pub change_closes_twice :
    (close : ℤ → ℤ) (rtree : Rtree) (connected : Bool) (n m : ℕ)
    → rtree.primary_sockfd ≡ pos (suc n)
    → rtree.backup_sockfd ≡ pos (suc m)
    → let both = pos (suc n) ∷ pos (suc m) ∷ [] in
      let (changed, closed) =
        on_servers_changed close
          (record { rtree = some rtree; are_servers_connected = connected }) in
      let (left, closed', result) = rtree_disconnect close changed in
      (closed ≡ both) × (closed' ≡ both)
unfolding on_servers_changed rtree_disconnect network_close close_socket
change_closes_twice close rtree connected n m h h' = (ground (arith, h, h'), ground (arith, h, h'))
