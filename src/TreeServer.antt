-- ===== src/TreeServer.antt =====
-- source/server/tree_server.c, with the start and the end of source/server/network_server.c: how a
-- server starts, and what it has released when it ends. The results of the calls are arguments.
pub mod Ports
pub mod Release
use sdistr2020_group.Prelude.{
  ℕ, ◌+◌, ◌-◌, ◌*◌, ◌/◌, ◌%◌, ◌<◌, ◌≡◌, refl, sym, ap, ◌∙◌, Bool, true, false, not, Option, none,
  some, List, [], ◌∷◌, ◌++◌, ℤ, pos, negsuc, ltb_ℤ, eqb_ℤ, ◌==◌, if◌then◌else◌, arith, Bool-cases,
  inl, inr,
}
use sdistr2020_group.Entry.{Str}
use sdistr2020_group.Inet.{atoi, opened_by}
use sdistr2020_group.NetworkServer.{PollResult, Sockets, sockets_init, network_main_loop}

-- The conversion to `uint16_t`.
unfoldable pub to_uint16 : ℤ → ℕ
to_uint16 (pos n) = n % 65536
to_uint16 (negsuc n) = 65535 - n % 65536

-- `htons` on a machine that stores the low byte first.
unfoldable pub htons : ℤ → ℤ
unfolding to_uint16
htons n = pos (to_uint16 n % 256 * 256 + to_uint16 n / 256)

unfoldable pub validate_args : ℕ → Str → ℤ
unfolding htons atoi
validate_args argc port =
    if not (argc == 3)
    then negsuc 0
    else if ltb_ℤ (htons (atoi port)) (pos 1)
    then negsuc 0
    else pos 0

-- The results of the calls that open the listening socket. That of `setsockopt` is only logged.
pub record InitCalls : Type 0 where
  pub socket : ℤ
  pub has_host : Bool
  pub bind : ℤ
  pub listen : ℤ
  pub skel_result : ℤ

-- The descriptors that are closed, and the result.
unfoldable pub network_server_init : InitCalls → List ℤ × ℤ
network_server_init calls =
    if ltb_ℤ calls.socket (pos 0)
    then ([], negsuc 0)
    else if not calls.has_host
    then (calls.socket ∷ [], negsuc 0)
    else if ltb_ℤ calls.bind (pos 0)
    then (calls.socket ∷ [], negsuc 0)
    else if ltb_ℤ calls.listen (pos 0)
    then (calls.socket ∷ [], negsuc 0)
    else if ltb_ℤ calls.skel_result (pos 0)
    then (calls.socket ∷ [], negsuc 0)
    else ([], calls.socket)

-- What a server has done when `main` returns: the descriptors that it opened and closed, whether
-- `tree_skel_destroy` and `zk_close` ran, and the result.
pub record Ended : Type 0 where
  pub opened : List ℤ
  pub closed : List ℤ
  pub is_tree_destroyed : Bool
  pub is_zk_closed : Bool
  pub result : ℤ

abbrev fails_with : List ℤ → List ℤ → Bool → Bool → Ended
fails_with opened closed is_tree_destroyed is_zk_closed = record {
  opened = opened;
  closed = closed;
  is_tree_destroyed = is_tree_destroyed;
  is_zk_closed = is_zk_closed;
  result = negsuc 0;
}

pub record MainCalls : Type 0 where
  pub connect_result : ℤ
  pub init : InitCalls
  pub register_result : ℤ
  pub polls : List PollResult

module _ {S : Type 0} (handler : S → ℤ → S × ℤ) (server : S) where
  -- From the registration on, with the listening socket.
  unfoldable pub serve_until_failure : MainCalls → ℤ → Ended
  unfolding network_main_loop sockets_init
  serve_until_failure calls listening_socket =
      let (server', opened, closed) = network_main_loop handler calls.polls server sockets_init in
      if ltb_ℤ calls.register_result (pos 0)
      then fails_with (listening_socket ∷ []) (listening_socket ∷ []) true true
      else record {
        opened = listening_socket ∷ opened;
        closed = closed ++ (listening_socket ∷ []);
        is_tree_destroyed = true;
        is_zk_closed = true;
        result = pos 0;
      }

  -- `main` on `argc` and `argv[1]`, which is only read if there are three arguments.
  unfoldable pub tree_server_main : ℕ → Str → MainCalls → Ended
  unfolding validate_args network_server_init serve_until_failure
  tree_server_main argc port calls =
      let (closed, listening_socket) = network_server_init calls.init in
      if ltb_ℤ (validate_args argc port) (pos 0)
      then fails_with [] [] false false
      else if ltb_ℤ calls.connect_result (pos 0)
      then fails_with [] [] false true
      else if ltb_ℤ listening_socket (pos 0)
      then fails_with (opened_by calls.init.socket) closed false true
      else serve_until_failure calls listening_socket
