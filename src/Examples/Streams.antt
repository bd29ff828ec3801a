-- ===== src/Examples/Streams.antt =====
-- A request over a socket of source/inet-private.c, with the packing of Examples.Buffers.
use sdistr2020_group.Prelude.{ℕ, ◌≡◌, refl, some, List, [], ◌∷◌, ◌++◌, arith}
use sdistr2020_group.Inet.Socket.{
  ReadCall, read_interrupted, read_error, read_ready, received, receive_null,
  network_receive_message, WriteCall, write_interrupted, write_takes, sent, network_send_message,
  htonl,
}
use sdistr2020_group.Serialization.{message_to_buffer}
use sdistr2020_group.Inet.Messages.{
  receive_message-send_message, receive_message-Receives, Receives,
}
use sdistr2020_group.Inet.Sending.{send_message_ends}
use sdistr2020_group.Examples.Buffers.{codes, codes_law, IsBare, size_request}

abbrev writes : List WriteCall
writes =
    write_takes 3
    ∷ write_interrupted
    ∷ write_takes 1
    ∷ write_takes 9
    ∷ write_takes 1
    ∷ write_takes 1
    ∷ []

abbrev reads : List ReadCall
reads =
    read_ready 1 ∷ read_interrupted ∷ read_ready 0 ∷ read_ready 0 ∷ read_ready 0 ∷ read_ready 7 ∷ []

abbrev wire : List ℕ
wire = 0 ∷ 0 ∷ 0 ∷ 1 ∷ 10 ∷ []

request_sent :
    network_send_message codes writes (some size_request)
    ≡ sent wire (write_takes 1 ∷ write_takes 1 ∷ [])
unfolding network_send_message message_to_buffer
request_sent = refl

receive_message-send_message_example :
    (left : List ReadCall) × (network_receive_message codes reads (wire ++ (7 ∷ []))
      ≡ received (some size_request) (7 ∷ []) left)
receive_message-send_message_example =
    receive_message-send_message codes IsBare codes_law writes (write_takes 1 ∷ write_takes 1 ∷ [])
      wire (7 ∷ []) reads size_request refl (omega arith) request_sent tt (omega arith)

receive_message-Receives_example :
    Receives codes IsBare codes_law size_request
      (7 ∷ [])
      (network_receive_message codes (read_ready 2 ∷ read_error ∷ []) (wire ++ (7 ∷ [])))
unfolding htonl
receive_message-Receives_example =
    receive_message-Receives codes IsBare codes_law (read_ready 2 ∷ read_error ∷ []) size_request
      (7 ∷ []) refl (omega arith)

-- A connection that breaks in the middle.
broken :
    network_receive_message codes (read_ready 2 ∷ read_error ∷ []) (wire ++ (7 ∷ [])) ≡ receive_null
unfolding network_receive_message
broken = refl

send_message_ends_example :
    (out : List ℕ) × (rest : List WriteCall) × (network_send_message codes writes
        (some size_request)
      ≡ sent out rest)
send_message_ends_example =
    send_message_ends codes IsBare codes_law writes size_request (omega arith) tt (omega arith)
