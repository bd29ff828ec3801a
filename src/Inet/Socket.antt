-- ===== src/Inet/Socket.antt =====
-- source/inet-private.c: the loops that read and send buffers, and the messages that they carry. A
-- socket is the bytes that come in and, call by call, what `read` and `write` do.
use sdistr2020_group.Prelude.{
  ℕ, zero, suc, ◌+◌, ◌-◌, ◌*◌, ◌/◌, ◌%◌, ◌^◌, Option, none, some, List, [], ◌∷◌, ◌++◌, ℤ, pos,
  negsuc, take, drop, length,
}
use sdistr2020_group.Message.{Message, to_int}
use sdistr2020_group.Serialization.{Codec, message_to_buffer, buffer_to_message}

-- What one call of `read` does: it is interrupted, fails, meets the end of the connection, or reads
-- `n + 1` bytes, or fewer when fewer are asked for or have come in.
pub data ReadCall : Type 0 where
  read_interrupted read_error connection_closed : ReadCall
  read_ready : ℕ → ReadCall

-- How reading a buffer ends: it waits for bytes still, returns `NULL`, or returns the bytes; what
-- comes in behind them, and the calls that follow, are left.
pub data Read : Type 0 where
  read_waits read_null : Read
  read_bytes : List ℕ → List ℕ → List ReadCall → Read

-- The loop: `missing` is `buffer_size - read_size`.
unfoldable pub read_loop : List ReadCall → List ℕ → ℕ → List ℕ → Read
read_loop [] incoming zero buffer = read_bytes buffer incoming []
read_loop [] incoming (suc missing) buffer = read_waits
read_loop (call ∷ calls) incoming zero buffer = read_bytes buffer incoming (call ∷ calls)
read_loop (read_interrupted ∷ calls) incoming (suc missing) buffer =
    read_loop calls incoming (suc missing) buffer
read_loop (read_error ∷ calls) incoming (suc missing) buffer = read_null
read_loop (connection_closed ∷ calls) incoming (suc missing) buffer = read_null
read_loop (read_ready n ∷ calls) incoming (suc missing) buffer =
    let chunk = take (suc n) (take (suc missing) incoming) in
    read_loop calls (drop (length chunk) incoming) (suc missing - length chunk) (buffer ++ chunk)

unfoldable pub network_read_buffer : List ReadCall → List ℕ → ℤ → Read
unfolding read_loop
network_read_buffer calls incoming (negsuc n) = read_null
network_read_buffer calls incoming (pos buffer_size) = read_loop calls incoming buffer_size []

-- The bytes of an `int` in network order, and the `int` that 4 bytes in network order stand for.
unfoldable pub htonl : ℤ → List ℕ
htonl n = let w = bits n in w / 16777216 % 256 ∷ w / 65536 % 256 ∷ w / 256 % 256 ∷ w % 256 ∷ []
  where
    bits : ℤ → ℕ
    bits (pos m) = m % 2 ^ 32
    bits (negsuc m) = 2 ^ 32 - 1 - m % 2 ^ 32

-- Other lists than those of 4 bytes are not read.
unfoldable pub ntohl : List ℕ → ℤ
unfolding to_int
ntohl (b3 ∷ b2 ∷ b1 ∷ b0 ∷ []) = to_int (16777216 * b3 + 65536 * b2 + 256 * b1 + b0)
ntohl _ = pos 0

-- The result of `network_receive_message`: it waits still, is `NULL`, or is a structure with the
-- message, which is `NULL` if the bytes hold none.
pub data Received : Type 0 where
  receive_waits receive_null : Received
  received : Option Message → List ℕ → List ReadCall → Received

unfoldable pub convert : Codec Message → ℤ → Read → Received
convert codec message_size read_waits = receive_waits
convert codec message_size read_null = receive_null
convert codec message_size (read_bytes buffer incoming calls) =
    elim (buffer_to_message codec (some buffer) message_size) [
      | none ↦ receive_null
      | some msg ↦ received msg incoming calls
    ]

-- The part behind the size; a negative size is refused.
unfoldable pub receive_body : Codec Message → Read → Received
unfolding network_read_buffer ntohl convert
receive_body codec read_waits = receive_waits
receive_body codec read_null = receive_null
receive_body codec (read_bytes size incoming calls) = elim (ntohl size) [
  | negsuc n ↦ receive_null
  | pos n ↦ convert codec (pos n) (network_read_buffer calls incoming (pos n))
]

unfoldable pub network_receive_message : Codec Message → List ReadCall → List ℕ → Received
unfolding network_read_buffer receive_body
network_receive_message codec calls incoming =
    receive_body codec (network_read_buffer calls incoming (pos 4))

-- What one call of `write` does: it is interrupted, fails, or takes up to `n` bytes.
pub data WriteCall : Type 0 where
  write_interrupted write_error : WriteCall
  write_takes : ℕ → WriteCall

-- The bytes that went out, and how sending ends: it waits still, returns -1, or returns 0 and
-- leaves the calls that follow.
pub data Sent : Type 0 where
  send_waits send_error : List ℕ → Sent
  sent : List ℕ → List WriteCall → Sent

-- The loop: what is left of the buffer, and what went out.
unfoldable pub send_loop : List WriteCall → List ℕ → List ℕ → Sent
send_loop [] [] out = sent out []
send_loop [] (b ∷ bytes) out = send_waits out
send_loop (call ∷ calls) [] out = sent out (call ∷ calls)
send_loop (write_interrupted ∷ calls) (b ∷ bytes) out = send_loop calls (b ∷ bytes) out
send_loop (write_error ∷ calls) (b ∷ bytes) out = send_error out
send_loop (write_takes n ∷ calls) (b ∷ bytes) out =
    send_loop calls (drop n (b ∷ bytes)) (out ++ take n (b ∷ bytes))

unfoldable pub network_send_buffer : List WriteCall → List ℕ → ℤ → List ℕ → Sent
unfolding send_loop
network_send_buffer calls buffer (negsuc n) out = sent out calls
network_send_buffer calls buffer (pos buffer_size) out =
    send_loop calls (take buffer_size buffer) out

unfoldable pub send_body : List ℕ → ℤ → Sent → Sent
unfolding network_send_buffer
send_body buffer buffer_size (send_waits out) = send_waits out
send_body buffer buffer_size (send_error out) = send_error out
send_body buffer buffer_size (sent out calls) = network_send_buffer calls buffer buffer_size out

unfoldable pub send_buffer : List WriteCall → Option (List ℕ) × ℤ → Sent
unfolding network_send_buffer htonl send_body
send_buffer calls (none, buffer_size) = send_error []
send_buffer calls (some buffer, negsuc n) = send_error []
send_buffer calls (some buffer, pos n) =
    send_body buffer (pos n) (network_send_buffer calls (htonl (pos n)) (pos 4) [])

unfoldable pub network_send_message : Codec Message → List WriteCall → Option Message → Sent
unfolding send_buffer
network_send_message codec calls message = send_buffer calls (message_to_buffer codec message)
