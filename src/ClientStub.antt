-- ===== src/ClientStub.antt =====
-- source/client/client_stub.c and source/client/network_client.c: the calls that a client makes of
-- the servers, and its connections to them.
pub mod Responses
pub mod Calls
pub mod Connections
use sdistr2020_group.Prelude.{
  ℕ, Bool, true, false, Option, none, some, List, [], ◌∷◌, ◌++◌, ℤ, pos, negsuc, pos_part, neg_part,
  ltb, ltb_ℤ, leb, ◌==◌, ◌||◌, ◌&&◌, not, is_null, if◌then◌else◌,
}
use sdistr2020_group.Data.{Data}
use sdistr2020_group.Entry.{Str, Entry, strdup}
use sdistr2020_group.Message.{
  Message, Content, entry_to_msg, msg_to_data, msg_to_keys, op_size, op_del, op_get, op_put,
  op_getkeys, op_height, op_verify, op_error,
}
use sdistr2020_group.Inet.{parse_address_port}

-- A pointer to an address: `NULL`, a string, or a string that was freed.
pub data Address : Type 0 where
  null_address freed_address : Address
  address : Str → Address

-- `struct rtree_t`
pub record Rtree : Type 0 where
  pub primary_server_ip_address : Address
  pub primary_server_port : ℤ
  pub primary_sockfd : ℤ
  pub backup_server_ip_address : Address
  pub backup_server_port : ℤ
  pub backup_sockfd : ℤ

-- What lies between the client and the servers, with a state of its own: the effect of
-- `network_send_message` with `network_receive_message` on a socket, `NULL` if either fails.
pub record Transport (S : Type 0) : Type 0 where
  pub exchange : S → ℤ → Message → S × Option Message

unfoldable pub is_read : ℕ → Bool
is_read op_code =
    op_code == op_size
    || (op_code == op_get
        || (op_code == op_getkeys || (op_code == op_height || op_code == op_verify)))

unfoldable pub is_write : ℕ → Bool
is_write op_code = op_code == op_del || op_code == op_put

-- A response that is an error is not looked at.
unfoldable pub int_result_of : ℤ → Option Message → ℤ
int_result_of on_error none = on_error
int_result_of on_error (some response) =
    if response.op_code == op_error
    then on_error
    else elim response.content [ Content.int_result n ↦ n | _ ↦ on_error ]

unfoldable pub response_op_id : Option Message → ℤ
response_op_id none = negsuc 0
response_op_id (some response) =
    if response.op_code == op_error
    then negsuc 0
    else elim response.content [ Content.op_id n ↦ n | _ ↦ negsuc 0 ]

unfoldable pub response_value : Option Message → Option Data
response_value none = none
response_value (some response) =
    if response.op_code == op_error
    then none
    else elim response.content [ Content.value v ↦ msg_to_data v | _ ↦ none ]

unfoldable pub response_keys : Option Message → Option (List (Option Str))
response_keys none = none
response_keys (some response) =
    if response.op_code == op_error
    then none
    else elim response.content [ Content.keys ks ↦ msg_to_keys ks | _ ↦ none ]

module _ {S : Type 0} (net : Transport S) where
  unfoldable pub network_send_receive : S → Option Rtree → Message → S × Option Message
  unfolding is_read is_write
  network_send_receive s none msg = (s, none)
  network_send_receive s (some rtree) msg =
      if is_read msg.op_code
      then net.exchange s rtree.backup_sockfd msg
      else if is_write msg.op_code
      then net.exchange s rtree.primary_sockfd msg
      else (s, none)

  unfoldable pub rtree_put : S → Option Rtree → Option Entry → S × ℤ
  unfolding network_send_receive response_op_id
  rtree_put s rtree none = (s, negsuc 0)
  rtree_put s rtree (some entry) =
      let request : Message = record {
        op_code = op_put;
        content = Content.entry (entry_to_msg (some entry));
      } in
      let (s', response) = network_send_receive s rtree request in (s', response_op_id response)

  unfoldable pub rtree_get : S → Option Rtree → Option Str → S × Option Data
  unfolding network_send_receive response_value strdup
  rtree_get s rtree none = (s, none)
  rtree_get s rtree (some key) =
      let request : Message = record {
        op_code = op_get;
        content = Content.key (strdup (some key));
      } in
      let (s', response) = network_send_receive s rtree request in (s', response_value response)

  unfoldable pub rtree_del : S → Option Rtree → Option Str → S × ℤ
  unfolding network_send_receive response_op_id strdup
  rtree_del s rtree none = (s, negsuc 0)
  rtree_del s rtree (some key) =
      let request : Message = record {
        op_code = op_del;
        content = Content.key (strdup (some key));
      } in
      let (s', response) = network_send_receive s rtree request in (s', response_op_id response)

  unfoldable pub rtree_size : S → Option Rtree → S × ℤ
  unfolding network_send_receive int_result_of
  rtree_size s rtree =
      let request : Message = record { op_code = op_size; content = Content.not_set } in
      let (s', response) = network_send_receive s rtree request in
      (s', int_result_of (negsuc 0) response)

  unfoldable pub rtree_height : S → Option Rtree → S × ℤ
  unfolding network_send_receive int_result_of
  rtree_height s rtree =
      let request : Message = record { op_code = op_height; content = Content.not_set } in
      let (s', response) = network_send_receive s rtree request in
      (s', int_result_of (negsuc 1) response)

  unfoldable pub rtree_get_keys : S → Option Rtree → S × Option (List (Option Str))
  unfolding network_send_receive response_keys
  rtree_get_keys s rtree =
      let request : Message = record { op_code = op_getkeys; content = Content.not_set } in
      let (s', response) = network_send_receive s rtree request in (s', response_keys response)

  unfoldable pub rtree_verify : S → Option Rtree → ℤ → S × ℤ
  unfolding network_send_receive int_result_of
  rtree_verify s rtree op_id =
      let request : Message = record { op_code = op_verify; content = Content.op_id op_id } in
      let (s', response) = network_send_receive s rtree request in
      (s', int_result_of (negsuc 0) response)

-- The addresses that `server_connect` reaches: the socket, or a negative number. An address that is
-- no string is not reached.
unfoldable pub connect_to : (Str → ℤ → ℤ) → Address → ℤ → ℤ
connect_to server_connect (address ip) port = server_connect ip port
connect_to server_connect _ port = negsuc 0

-- The structure after the call, the descriptors that `close` is called with, and the result.
unfoldable pub network_connect : (Str → ℤ → ℤ) → Option Rtree → Option Rtree × List ℤ × ℤ
unfolding connect_to
network_connect server_connect none = (none, [], negsuc 0)
network_connect server_connect (some rtree) =
    let primary =
      connect_to server_connect rtree.primary_server_ip_address rtree.primary_server_port in
    let backup =
      connect_to server_connect rtree.backup_server_ip_address rtree.backup_server_port in
    if ltb_ℤ primary (pos 0)
    then (some (record rtree { primary_sockfd = primary }), [], negsuc 0)
    else if ltb_ℤ backup (pos 0)
    then (
      some (record rtree { primary_sockfd = negsuc 0; backup_sockfd = backup }),
      negsuc 0 ∷ [],
      negsuc 0,
    )
    else (some (record rtree { primary_sockfd = primary; backup_sockfd = backup }), [], pos 0)

unfoldable pub close_socket : (ℤ → ℤ) → ℤ → List ℤ × ℤ
close_socket close sockfd =
    if ltb_ℤ (pos 0) sockfd then (sockfd ∷ [], close sockfd) else ([], pos 0)

-- The descriptors that `close` is called with, and the result.
unfoldable pub network_close : (ℤ → ℤ) → Option Rtree → List ℤ × ℤ
unfolding close_socket
network_close close none = ([], negsuc 0)
network_close close (some rtree) =
    let (closed, primary_res) = close_socket close rtree.primary_sockfd in
    let (closed', backup_res) = close_socket close rtree.backup_sockfd in
    (
      closed ++ closed',
      if ltb_ℤ primary_res (pos 0) || ltb_ℤ backup_res (pos 0) then negsuc 0 else pos 0,
    )

-- `free` of a pointer: the pointer after it, or `none` if it was freed before, which is undefined.
unfoldable pub free_address : Address → Option Address
free_address null_address = some null_address
free_address freed_address = none
free_address (address ip) = some freed_address

-- The structure before any socket is connected.
unfoldable pub without_sockets : Address → ℤ → Address → ℤ → Rtree
without_sockets ip port ip' port' = record {
  primary_server_ip_address = ip;
  primary_server_port = port;
  primary_sockfd = negsuc 0;
  backup_server_ip_address = ip';
  backup_server_port = port';
  backup_sockfd = negsuc 0;
}

-- The `||` of `servers_retry_connect`, which stops at the first call that fails, on the pointers
-- that the calls of `free` leave.
unfoldable pub connect_found :
    (Str → ℤ → ℤ) → Address → Address → Option Str → Option Str → Option Rtree × List ℤ × ℤ
unfolding network_connect without_sockets
connect_found server_connect ip ip' (some primary_address_port) (some backup_address_port) =
    elim (parse_address_port (some primary_address_port)) [
      | none ↦ (some (without_sockets ip (negsuc 0) ip' (negsuc 0)), [], negsuc 0)
      | some (primary_ip, primary_port) ↦ elim (parse_address_port (some backup_address_port)) [
        | none ↦
            (some (without_sockets (address primary_ip) primary_port ip' (negsuc 0)), [], negsuc 0)
        | some (backup_ip, backup_port) ↦ network_connect server_connect (
            some
              (without_sockets (address primary_ip) primary_port (address backup_ip) backup_port))
      ]
    ]
connect_found server_connect ip ip' primary_address_port backup_address_port =
    (some (without_sockets ip (negsuc 0) ip' (negsuc 0)), [], negsuc 0)

-- The structure of the client, with the global variable `are_servers_connected`.
pub record Stub : Type 0 where
  pub rtree : Option Rtree
  pub are_servers_connected : Bool

unfoldable pub servers_retry_connect :
    (Str → ℤ → ℤ) → Option Str → Option Str → Rtree → Bool → Option (Stub × List ℤ × ℤ)
unfolding free_address connect_found
servers_retry_connect server_connect primary_address_port backup_address_port rtree connected =
    elim (free_address rtree.primary_server_ip_address) [
      | none ↦ none
      | some ip ↦ elim (free_address rtree.backup_server_ip_address) [
        | none ↦ none
        | some ip' ↦
            let (rtree', closed, result) =
              connect_found server_connect ip ip' primary_address_port backup_address_port in
            some (
              record {
                rtree = rtree';
                are_servers_connected = if ltb_ℤ result (pos 0) then connected else true;
              },
              closed,
              result,
            )
      ]
    ]

-- The listener of the servers in Zookeeper: what it closes, and the state that it leaves.
unfoldable pub on_servers_changed : (ℤ → ℤ) → Stub → Stub × List ℤ
unfolding network_close
on_servers_changed close s =
    (record s { are_servers_connected = false }, (network_close close s.rtree).0)

-- What `rtree_connect` makes once Zookeeper is connected, and the first attempt to connect.
unfoldable pub rtree_connect :
    (Str → ℤ → ℤ) → Option Str → Option Str → Bool → Option (Stub × List ℤ × ℤ)
unfolding without_sockets servers_retry_connect
rtree_connect server_connect primary_address_port backup_address_port connected =
    servers_retry_connect server_connect primary_address_port backup_address_port
      (without_sockets null_address (negsuc 0) null_address (negsuc 0)) connected

-- The structure is freed at the end.
unfoldable pub rtree_disconnect : (ℤ → ℤ) → Stub → Stub × List ℤ × ℤ
unfolding network_close
rtree_disconnect close s =
    let (closed, close_result) = network_close close s.rtree in
    (
      record { rtree = none; are_servers_connected = false },
      closed,
      if ltb_ℤ close_result (pos 0) then negsuc 0 else pos 0,
    )
