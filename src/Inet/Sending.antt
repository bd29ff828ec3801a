-- ===== src/Inet/Sending.antt =====
-- The sending loop of source/inet-private.c ends when `write` takes bytes often enough.
use sdistr2020_group.Prelude.{
  ℕ, zero, suc, ◌+◌, ◌^◌, ◌≤◌, ◌<◌, ◌≡◌, some, List, [], ◌∷◌, refl, ap, ◌∙◌, arith, pos, take, drop,
  length, take-length,
}
use sdistr2020_group.Message.{Message}
use sdistr2020_group.Serialization.{Codec, IsCodec, message_to_buffer}
use sdistr2020_group.Serialization.Buffers.{to_buffer_lem}
use sdistr2020_group.Inet.Socket.{
  htonl, WriteCall, write_interrupted, write_error, write_takes, Sent, send_waits, send_error, sent,
  send_loop, network_send_buffer, send_body, send_buffer, network_send_message,
}

-- The calls of `write` that do not fail, and how many of them take a byte.
abbrev pub IsTaking : List WriteCall → Type 0
IsTaking [] = Unit
IsTaking (write_interrupted ∷ calls) = IsTaking calls
IsTaking (write_error ∷ calls) = ⊥
IsTaking (write_takes n ∷ calls) = IsTaking calls

abbrev pub takes : List WriteCall → ℕ
takes [] = 0
takes (write_interrupted ∷ calls) = takes calls
takes (write_error ∷ calls) = takes calls
takes (write_takes zero ∷ calls) = takes calls
takes (write_takes (suc n) ∷ calls) = suc (takes calls)

abbrev Ends : ℕ → Sent → Type 0
Ends budget (send_waits out) = ⊥
Ends budget (send_error out) = ⊥
Ends budget (sent out calls) = IsTaking calls × (budget ≤ takes calls)

drop-le : (n : ℕ) (xs : List ℕ) → length (drop n xs) ≤ length xs
drop-le zero xs = omega arith
drop-le (suc n) [] = omega arith
drop-le (suc n) (x ∷ xs) = omega (arith, drop-le n xs)

send_loop-Ends :
    (calls : List WriteCall) (bytes out : List ℕ) (budget : ℕ)
    → IsTaking calls
    → budget + length bytes ≤ takes calls
    → Ends budget (send_loop calls bytes out)
unfolding send_loop
send_loop-Ends [] [] out budget c r = (tt, omega arith)
send_loop-Ends [] (b ∷ bytes) out budget c r = absurd (omega arith)
send_loop-Ends (call ∷ calls) [] out budget c r = (c, omega arith)
send_loop-Ends (write_interrupted ∷ calls) (b ∷ bytes) out budget c r =
    send_loop-Ends calls (b ∷ bytes) out budget c r
send_loop-Ends (write_error ∷ calls) (b ∷ bytes) out budget c r = absurd c
send_loop-Ends (write_takes zero ∷ calls) (b ∷ bytes) out budget c r =
    send_loop-Ends calls (b ∷ bytes) _ budget c r
send_loop-Ends (write_takes (suc n) ∷ calls) (b ∷ bytes) out budget c r =
    send_loop-Ends calls (drop n bytes) _ budget c (omega (arith, drop-le n bytes))

body-Ends :
    (buffer : List ℕ) (r : Sent)
    → Ends (length buffer) r
    → Ends 0 (send_body buffer (pos (length buffer)) r)
unfolding send_body network_send_buffer
body-Ends buffer (send_waits out) e = absurd e
body-Ends buffer (send_error out) e = absurd e
body-Ends buffer (sent out calls) e =
    send_loop-Ends calls (take (length buffer) buffer) out 0 e.0
      (omega (arith, ap length (take-length buffer), e.1))

ends : (r : Sent) → Ends 0 r → (out : List ℕ) × (rest : List WriteCall) × (r ≡ sent out rest)
ends (send_waits out) e = absurd e
ends (send_error out) e = absurd e
ends (sent out rest) e = (out, rest, refl)

-- Sending a message ends and succeeds, when no call of `write` fails, and as many of them take a
-- byte as the size and the message have; the message's bytes are counted by an `int`.
pub send_message_ends :
    (codec : Codec Message) (Wire : Message → Type 0)
    → IsCodec codec Wire
    → (writes : List WriteCall) (m : Message) → length (codec.pack m) < 2 ^ 31
    → IsTaking writes
    → 4 + length (codec.pack m) ≤ takes writes
    → (out : List ℕ) × (rest : List WriteCall) × (network_send_message codec writes (some m)
        ≡ sent out rest)
unfolding network_send_message message_to_buffer send_buffer network_send_buffer htonl
send_message_ends codec Wire law writes m small c r =
    let n = length (codec.pack m) in
    let first = send_loop-Ends writes (htonl (pos n)) [] n c (omega arith) in
    let (out, rest, e) = ends _ (body-Ends (codec.pack m) _ first) in
    (out, rest, ap (send_buffer writes) (to_buffer_lem codec Wire law m small) ∙ e)
