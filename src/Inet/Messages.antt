-- ===== src/Inet/Messages.antt =====
-- A message that `network_send_message` of source/inet-private.c sent is the message that
-- `network_receive_message` receives.
use mathlib.Core.List.{append_assoc, append-nil}
use mathlib.Core.Path.{subst}
use sdistr2020_group.Prelude.{
  ℕ, ◌+◌, ◌^◌, ◌≤◌, ◌<◌, ◌≡◌, some, List, [], ◌∷◌, ◌++◌, refl, sym, ap, ◌∙◌, arith, pos, negsuc,
  take, drop, length, take-length,
}
use sdistr2020_group.Message.{Message}
use sdistr2020_group.Serialization.{Codec, IsCodec, message_to_buffer, buffer_to_message}
use sdistr2020_group.Serialization.Buffers.{to_buffer_lem}
use sdistr2020_group.Inet.Socket.{
  ReadCall, Read, read_waits, read_null, read_bytes, read_loop, network_read_buffer, htonl,
  Received, receive_waits, receive_null, received, convert, receive_body, network_receive_message,
  WriteCall, write_interrupted, write_error, write_takes, Sent, send_waits, send_error, sent,
  send_loop, network_send_buffer, send_body, send_buffer, network_send_message,
}
use sdistr2020_group.Inet.Streams.{
  IsCalm, readies, Reads, Ends, read_loop-Reads, read_loop-Ends, ntohl-htonl, take-drop,
}

-- A read ends with the whole of what it waits for.
whole_read :
    (r : Read) (whole more : List ℕ) (budget : ℕ)
    → Reads whole more r
    → Ends budget r
    → (left : List ReadCall) × (r ≡ read_bytes whole more left)
      × IsCalm left
      × (budget ≤ readies left)
whole_read read_waits whole more budget h e = absurd e
whole_read read_null whole more budget h e = absurd e
whole_read (read_bytes buffer incoming calls) whole more budget h e =
    (calls, (λ i. read_bytes (h.0 i) (h.1 i) calls), e.0, e.1)

read_whole :
    (calls : List ReadCall) (xs more : List ℕ) (budget : ℕ)
    → IsCalm calls
    → budget + length xs ≤ readies calls
    → (left : List ReadCall) × (network_read_buffer calls (xs ++ more) (pos (length xs))
        ≡ read_bytes xs more left)
      × IsCalm left
      × (budget ≤ readies left)
unfolding network_read_buffer
read_whole calls xs more budget c r =
    whole_read (read_loop calls (xs ++ more) (length xs) []) xs more budget
      (read_loop-Reads calls xs more (xs ++ more) [] xs (length xs) refl refl refl)
      (read_loop-Ends calls xs more (xs ++ more) [] (length xs) budget refl refl c r)

-- What is sent when sending succeeds.
abbrev Sends : List ℕ → Sent → Type 0
Sends whole (send_waits out) = Unit
Sends whole (send_error out) = Unit
Sends whole (sent out calls) = out ≡ whole

send_loop-Sends :
    (calls : List WriteCall) (bytes out whole : List ℕ)
    → out ++ bytes ≡ whole
    → Sends whole (send_loop calls bytes out)
unfolding send_loop
send_loop-Sends [] [] out whole w = sym (append-nil out) ∙ w
send_loop-Sends [] (b ∷ bytes) out whole w = tt
send_loop-Sends (call ∷ calls) [] out whole w = sym (append-nil out) ∙ w
send_loop-Sends (write_interrupted ∷ calls) (b ∷ bytes) out whole w =
    send_loop-Sends calls (b ∷ bytes) out whole w
send_loop-Sends (write_error ∷ calls) (b ∷ bytes) out whole w = tt
send_loop-Sends (write_takes n ∷ calls) (b ∷ bytes) out whole w =
    send_loop-Sends calls (drop n (b ∷ bytes)) (out ++ take n (b ∷ bytes)) whole
      (append_assoc out _ _ ∙ ap (λ ys. out ++ ys) (take-drop n (b ∷ bytes)) ∙ w)

send_body-Sends :
    (buffer size_bytes : List ℕ) (r : Sent)
    → Sends size_bytes r
    → Sends (size_bytes ++ buffer) (send_body buffer (pos (length buffer)) r)
unfolding send_body network_send_buffer
send_body-Sends buffer size_bytes (send_waits out) h = tt
send_body-Sends buffer size_bytes (send_error out) h = tt
send_body-Sends buffer size_bytes (sent out calls) h =
    send_loop-Sends calls (take (length buffer) buffer) out (size_bytes ++ buffer)
      (ap (λ xs. out ++ xs) (take-length buffer) ∙ ap (λ xs. xs ++ buffer) h)

module _ (codec : Codec Message) (Wire : Message → Type 0) (law : IsCodec codec Wire) where
  -- The size in network order, then the packed message.
  abbrev pub frame_of : Message → List ℕ
  frame_of m = htonl (pos (length (codec.pack m))) ++ codec.pack m

  send_message-Sends :
      (calls : List WriteCall) (m : Message)
      → length (codec.pack m) < 2 ^ 31
      → Sends (frame_of m) (network_send_message codec calls (some m))
  unfolding network_send_message message_to_buffer send_buffer network_send_buffer htonl
  send_message-Sends calls m small =
      subst (λ b. Sends (frame_of m) (send_buffer calls b))
        (sym (to_buffer_lem codec Wire law m small)) (go calls)
    where
      go :
          (calls : List WriteCall)
          → Sends
              (frame_of m)
              (send_buffer calls (some (codec.pack m), pos (length (codec.pack m))))
      go calls =
          send_body-Sends (codec.pack m) (htonl (pos (length (codec.pack m)))) _
            (send_loop-Sends calls (htonl (pos (length (codec.pack m)))) [] _ refl)

  body_lem :
      (n : ℕ) (incoming : List ℕ) (calls : List ReadCall)
      → n < 2 ^ 31
      → receive_body codec (read_bytes (htonl (pos n)) incoming calls)
        ≡ convert codec (pos n) (network_read_buffer calls incoming (pos n))
  unfolding receive_body
  body_lem n incoming calls h =
      ap
        (λ z. elim z [
          | negsuc k ↦ receive_null
          | pos k ↦ convert codec (pos k) (network_read_buffer calls incoming (pos k))
        ])
        (ntohl-htonl n h)

  convert_lem :
      (m : Message) (more : List ℕ) (calls : List ReadCall)
      → Wire m
      → convert codec (pos (length (codec.pack m))) (read_bytes (codec.pack m) more calls)
        ≡ received (some m) more calls
  unfolding convert buffer_to_message
  convert_lem m more calls w =
      ap (λ o. received o more calls)
        (ap codec.unpack (take-length (codec.pack m)) ∙ law.unpacked m w)

  receive_message_frame :
      (calls : List ReadCall) (m : Message) (more : List ℕ)
      → Wire m
      → length (codec.pack m) < 2 ^ 31
      → IsCalm calls
      → 4 + length (codec.pack m) ≤ readies calls
      → (left : List ReadCall) × (network_receive_message codec calls (frame_of m ++ more)
          ≡ received (some m) more left)
  unfolding network_receive_message htonl
  receive_message_frame calls m more w small c r =
      let n = length (codec.pack m) in
      let (left, head, calm, enough) =
        read_whole calls (htonl (pos n)) (codec.pack m ++ more) n c (omega arith) in
      let (left', body, calm', enough') =
        read_whole left (codec.pack m) more 0 calm (omega arith) in
      (
        left',
        ap (receive_body codec) head
            ∙ body_lem n (codec.pack m ++ more) left small
            ∙ ap (convert codec (pos n)) body
            ∙ convert_lem m more left' w,
      )

  -- When sending a message succeeds, whatever `write` did, the other side receives this message,
  -- and what comes in behind it is left: if no call of its `read` fails, and as many of them read
  -- as there are bytes. The message keeps to the format, and an `int` counts its bytes.
  pub receive_message-send_message :
      (writes rest : List WriteCall) (out more : List ℕ) (reads : List ReadCall) (m : Message)
      → Wire m
      → length (codec.pack m) < 2 ^ 31
      → network_send_message codec writes (some m) ≡ sent out rest
      → IsCalm reads
      → 4 + length (codec.pack m) ≤ readies reads
      → (left : List ReadCall) × (network_receive_message codec reads (out ++ more)
          ≡ received (some m) more left)
  receive_message-send_message writes rest out more reads m w small e c r =
      let whole : out ≡ frame_of m =
        subst (Sends (frame_of m)) e (send_message-Sends writes m small) in
      let (left, got) = receive_message_frame reads m more w small c r in
      (left, ap (λ xs. network_receive_message codec reads (xs ++ more)) whole ∙ got)

  -- Nothing but this message, with what comes in behind it.
  abbrev pub Receives : Message → List ℕ → Received → Type 0
  Receives m more receive_waits = Unit
  Receives m more receive_null = Unit
  Receives m more (received msg incoming calls) = (msg ≡ some m) × (incoming ≡ more)

  convert-Receives :
      (m : Message) (more : List ℕ) (r : Read)
      → Wire m
      → Reads (codec.pack m) more r
      → Receives m more (convert codec (pos (length (codec.pack m))) r)
  unfolding convert buffer_to_message
  convert-Receives m more read_waits w h = tt
  convert-Receives m more read_null w h = tt
  convert-Receives m more (read_bytes buffer incoming calls) w h = (
    ap (λ b. codec.unpack (take (length (codec.pack m)) b)) h.0
        ∙ ap codec.unpack (take-length (codec.pack m))
        ∙ law.unpacked m w,
    h.1,
  )

  body-Receives :
      (m : Message) (more : List ℕ) (r : Read)
      → Wire m
      → length (codec.pack m) < 2 ^ 31
      → Reads (htonl (pos (length (codec.pack m)))) (codec.pack m ++ more) r
      → Receives m more (receive_body codec r)
  unfolding receive_body network_read_buffer
  body-Receives m more read_waits w small h = tt
  body-Receives m more read_null w small h = tt
  body-Receives m more (read_bytes size incoming calls) w small h =
      let n = length (codec.pack m) in
      let same : receive_body codec (read_bytes size incoming calls)
          ≡ convert codec (pos n) (network_read_buffer calls incoming (pos n)) =
        ap (λ b. receive_body codec (read_bytes b incoming calls)) h.0
        ∙ body_lem n incoming calls small in
      subst (Receives m more) (sym same) (
        convert-Receives m more (network_read_buffer calls incoming (pos n)) w
          (read_loop-Reads calls (codec.pack m) more incoming [] (codec.pack m) n h.1 refl refl))

  -- Of the bytes of a message that keeps to the format, and that an `int` counts, nothing else is
  -- received, however `read` cuts them, is interrupted or fails: receiving waits, returns `NULL`,
  -- or returns the message and leaves what comes in behind it.
  pub receive_message-Receives :
      (reads : List ReadCall) (m : Message) (more : List ℕ)
      → Wire m
      → length (codec.pack m) < 2 ^ 31
      → Receives m more (network_receive_message codec reads (frame_of m ++ more))
  unfolding network_receive_message network_read_buffer htonl
  receive_message-Receives reads m more w small = body-Receives m more _ w small (
      read_loop-Reads reads (htonl (pos (length (codec.pack m)))) (codec.pack m ++ more) _ [] _ 4
        refl refl refl)
