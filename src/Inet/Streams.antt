-- ===== src/Inet/Streams.antt =====
-- What goes over a socket of source/inet-private.c comes out whole, in whatever chunks.
use mathlib.Core.List.{append_assoc, append-nil}
use sdistr2020_group.Prelude.{
  ℕ, zero, suc, ◌+◌, ◌-◌, ◌^◌, ◌≤◌, ◌<◌, ◌≡◌, List, [], ◌∷◌, ◌++◌, refl, sym, ap, ◌∙◌, arith, pos,
  take, drop, length, take-append,
}
use sdistr2020_group.Message.{to_int}
use sdistr2020_group.Inet.Socket.{
  ReadCall, read_interrupted, read_error, connection_closed, read_ready, Read, read_waits,
  read_null, read_bytes, read_loop, htonl, ntohl,
}

pub ntohl-htonl : (n : ℕ) → n < 2 ^ 31 → ntohl (htonl (pos n)) ≡ pos n
unfolding ntohl htonl to_int
ntohl-htonl n h = ground arith

pub take-drop : (n : ℕ) (xs : List ℕ) → take n xs ++ drop n xs ≡ xs
take-drop zero xs = refl
take-drop (suc n) [] = refl
take-drop (suc n) (x ∷ xs) = ap (λ ys. x ∷ ys) (take-drop n xs)

length-take-drop : (n : ℕ) (xs : List ℕ) → length xs ≡ length (take n xs) + length (drop n xs)
length-take-drop zero xs = omega arith
length-take-drop (suc n) [] = omega arith
length-take-drop (suc n) (x ∷ xs) = omega (arith, length-take-drop n xs)

drop-take : (n : ℕ) (xs more : List ℕ) → drop (length (take n xs)) (xs ++ more) ≡ drop n xs ++ more
drop-take zero xs more = refl
drop-take (suc n) [] more = refl
drop-take (suc n) (x ∷ xs) more = drop-take n xs more

-- The calls of `read` that do not fail, and how many of them read.
abbrev pub IsCalm : List ReadCall → Type 0
IsCalm [] = Unit
IsCalm (read_interrupted ∷ calls) = IsCalm calls
IsCalm (read_error ∷ calls) = ⊥
IsCalm (connection_closed ∷ calls) = ⊥
IsCalm (read_ready n ∷ calls) = IsCalm calls

abbrev pub readies : List ReadCall → ℕ
readies [] = 0
readies (read_interrupted ∷ calls) = readies calls
readies (read_error ∷ calls) = readies calls
readies (connection_closed ∷ calls) = readies calls
readies (read_ready n ∷ calls) = suc (readies calls)

-- A read of `whole`, behind which `more` comes in, gives nothing else.
abbrev pub Reads : List ℕ → List ℕ → Read → Type 0
Reads whole more read_waits = Unit
Reads whole more read_null = Unit
Reads whole more (read_bytes buffer incoming calls) = (buffer ≡ whole) × (incoming ≡ more)

-- It ends, at the cost of a call for each byte at most.
abbrev pub Ends : ℕ → Read → Type 0
Ends budget read_waits = ⊥
Ends budget read_null = ⊥
Ends budget (read_bytes buffer incoming calls) = IsCalm calls × (budget ≤ readies calls)

pub read_loop-Reads :
    (calls : List ReadCall) (xs more incoming buffer whole : List ℕ) (missing : ℕ)
    → incoming ≡ xs ++ more
    → missing ≡ length xs
    → buffer ++ xs ≡ whole
    → Reads whole more (read_loop calls incoming missing buffer)
unfolding read_loop
read_loop-Reads [] [] more incoming buffer whole zero h m w = (sym (append-nil buffer) ∙ w, h)
read_loop-Reads [] xs more incoming buffer whole (suc k) h m w = tt
read_loop-Reads (call ∷ calls) [] more incoming buffer whole zero h m w =
    (sym (append-nil buffer) ∙ w, h)
read_loop-Reads calls (x ∷ xs) more incoming buffer whole zero h m w = absurd (omega arith)
read_loop-Reads (read_interrupted ∷ calls) xs more incoming buffer whole (suc k) h m w =
    read_loop-Reads calls xs more incoming buffer whole (suc k) h m w
read_loop-Reads (read_error ∷ calls) xs more incoming buffer whole (suc k) h m w = tt
read_loop-Reads (connection_closed ∷ calls) xs more incoming buffer whole (suc k) h m w = tt
read_loop-Reads (read_ready n ∷ calls) xs more incoming buffer whole (suc k) h m w =
    let asked : take (suc k) incoming ≡ xs = ap (take (suc k)) h ∙ take-append xs more (suc k) m in
    let chunk : take (suc n) (take (suc k) incoming) ≡ take (suc n) xs = ap (take (suc n)) asked in
    read_loop-Reads calls (drop (suc n) xs) more _ (buffer ++ take (suc n) (take (suc k) incoming))
      whole _
      (ap (λ c. drop (length c) incoming) chunk
        ∙ ap (drop (length (take (suc n) xs))) h
        ∙ drop-take (suc n) xs more)
      (ap (λ c. suc k - length c) chunk ∙ omega (arith, length-take-drop (suc n) xs))
      (ap (λ c. (buffer ++ c) ++ drop (suc n) xs) chunk
        ∙ append_assoc buffer _ _
        ∙ ap (λ ys. buffer ++ ys) (take-drop (suc n) xs)
        ∙ w)

pub read_loop-Ends :
    (calls : List ReadCall) (xs more incoming buffer : List ℕ) (missing budget : ℕ)
    → incoming ≡ xs ++ more
    → missing ≡ length xs
    → IsCalm calls
    → budget + missing ≤ readies calls
    → Ends budget (read_loop calls incoming missing buffer)
unfolding read_loop
read_loop-Ends [] xs more incoming buffer zero budget h m c r = (tt, omega arith)
read_loop-Ends [] xs more incoming buffer (suc k) budget h m c r = absurd (omega arith)
read_loop-Ends (call ∷ calls) xs more incoming buffer zero budget h m c r = (c, omega arith)
read_loop-Ends (read_interrupted ∷ calls) xs more incoming buffer (suc k) budget h m c r =
    read_loop-Ends calls xs more incoming buffer (suc k) budget h m c r
read_loop-Ends (read_error ∷ calls) xs more incoming buffer (suc k) budget h m c r = absurd c
read_loop-Ends (connection_closed ∷ calls) xs more incoming buffer (suc k) budget h m c r = absurd c
read_loop-Ends (read_ready n ∷ calls) [] more incoming buffer (suc k) budget h m c r =
    absurd (omega arith)
read_loop-Ends (read_ready n ∷ calls) (x ∷ xs) more incoming buffer (suc k) budget h m c r =
    let asked : take (suc k) incoming ≡ x ∷ xs =
      ap (take (suc k)) h ∙ take-append (x ∷ xs) more (suc k) m in
    let chunk : take (suc n) (take (suc k) incoming) ≡ x ∷ take n xs = ap (take (suc n)) asked in
    let left : suc k - length (take (suc n) (take (suc k) incoming)) ≡ length (drop n xs) =
      ap (λ c. suc k - length c) chunk ∙ omega (arith, length-take-drop n xs) in
    read_loop-Ends calls (drop n xs) more _ _ _ budget
      (ap (λ c. drop (length c) incoming) chunk
        ∙ ap (drop (suc (length (take n xs)))) h
        ∙ drop-take n xs more)
      left c (omega (arith, left, length-take-drop n xs))
