-- ===== src/Inet/Address.antt =====
-- The addresses that source/zk-private.c prints are read back by `parse_address_port`.
use sdistr2020_group.Prelude.{◌^◌}
use sdistr2020_group.Prelude.{
  ℕ, zero, suc, ◌+◌, ◌-◌, ◌*◌, ◌/◌, ◌%◌, ◌≤◌, ◌<◌, ◌≡◌, ◌≢◌, ap, refl, ◌∙◌, true, some, [], ◌∷◌,
  ◌++◌, pos, arith, ltb, ltb→lt, Bool-cases, inl, inr, if◌then◌else◌,
}
use mathlib.Core.Path.{subst, sym}
use sdistr2020_group.Entry.{Str}
use sdistr2020_group.Message.{wrap_int, to_int}
use sdistr2020_group.Inet.{clip_long, signed_value, skip_space}
use sdistr2020_group.Inet.{token, behind, strtok, is_digit, digits_value, atoi, parse_address_port}

-- Every byte of a text satisfies `P`.
abbrev pub Every : (ℕ → Type 0) → Str → Type 0
Every P [] = Unit
Every P (c ∷ s) = P c × Every P s

abbrev pub IsDigit : ℕ → Type 0
IsDigit c = (48 ≤ c) × (c ≤ 57)

-- `%d` of the C library for a number that is not negative: on fuel for its digits.
unfoldable pub print_digits : ℕ → ℕ → Str → Str
print_digits zero n rest = rest
print_digits (suc fuel) n rest =
    let more = print_digits fuel (n / 10) ((48 + n % 10) ∷ rest) in
    if ltb n 10 then (48 + n) ∷ rest else more

one_digit :
    (m d : ℕ) (rest : Str)
    → d < 10
    → digits_value m ((48 + d) ∷ rest) ≡ digits_value (m * 10 + d) rest
unfolding digits_value
one_digit m d rest h =
    let e : 48 + d - 48 ≡ d = omega arith in
    let t : is_digit (48 + d) ≡ true = unfold is_digit in ground arith in rw (t, e) refl

digits_value-print :
    (fuel n : ℕ) (rest : Str)
    → n < fuel
    → digits_value 0 (print_digits fuel n rest) ≡ digits_value n rest
unfolding print_digits
digits_value-print zero n rest h = absurd (omega arith)
digits_value-print (suc fuel) n rest h = elim (Bool-cases (ltb n 10)) [
  | inl small ↦
      rw small
        (one_digit 0 n rest (ltb→lt n 10 small) ∙ ap (λ m. digits_value m rest) (omega arith))
  | inr large ↦ rw large (
      digits_value-print fuel (n / 10) ((48 + n % 10) ∷ rest) (ground arith)
      ∙ one_digit (n / 10) (n % 10) rest (omega arith)
      ∙ ap (λ m. digits_value m rest) (omega arith))
]

print_digits-digits :
    (fuel n : ℕ) (rest : Str) → Every IsDigit rest → Every IsDigit (print_digits fuel n rest)
unfolding print_digits
print_digits-digits zero n rest h = h
print_digits-digits (suc fuel) n rest h = elim (Bool-cases (ltb n 10)) [
  | inl small ↦ rw small (let l = ltb→lt n 10 small in ((omega arith, omega arith), h))
  | inr large ↦ rw large (print_digits-digits fuel (n / 10) _ ((omega arith, omega arith), h))
]

-- A text of digits has no sign and no space before it.
digits_signed :
    (c : ℕ) (s : Str) → IsDigit c → signed_value (skip_space (c ∷ s)) ≡ pos (digits_value 0 (c ∷ s))
unfolding signed_value skip_space
digits_signed c s h = ground arith

-- A number that an `int` holds is not cut.
small_kept : (n : ℕ) → n < 2 ^ 31 → wrap_int (clip_long (pos n)) ≡ pos n
unfolding wrap_int clip_long to_int
small_kept n h = ground arith

atoi-digits :
    (c : ℕ) (s : Str) (n : ℕ)
    → IsDigit c
    → digits_value 0 (c ∷ s) ≡ n
    → n < 2 ^ 31
    → atoi (c ∷ s) ≡ pos n
unfolding atoi
atoi-digits c s n h e lt =
    ap (λ z. wrap_int (clip_long z)) (digits_signed c s h ∙ ap pos e) ∙ small_kept n lt

-- `sprintf(…, "%s:%d", server_ip_address, server_port)` in `zk_register_tree_server`.
unfoldable pub print_address : Str → ℕ → Str
unfolding print_digits
print_address ip_address port = ip_address ++ (b':' ∷ print_digits (suc port) port [])

abbrev pub NotColon : ℕ → Type 0
NotColon c = c ≢ b':'

token-colon : (a r : Str) → Every NotColon a → token b':' (a ++ (b':' ∷ r)) ≡ a
unfolding token
token-colon [] r h = refl
token-colon (c ∷ a) r h = ground (arith, token-colon a r h.1, h.0)

behind-colon : (a r : Str) → Every NotColon a → behind b':' (a ++ (b':' ∷ r)) ≡ r
unfolding behind
behind-colon [] r h = refl
behind-colon (c ∷ a) r h = ground (arith, behind-colon a r h.1, h.0)

token-digits : (r : Str) → Every IsDigit r → token b':' r ≡ r
unfolding token
token-digits [] h = refl
token-digits (c ∷ r) h = ground (arith, token-digits r h.1)

strtok-address :
    (c : ℕ) (a r : Str)
    → Every NotColon (c ∷ a)
    → strtok b':' ((c ∷ a) ++ (b':' ∷ r)) ≡ some (c ∷ a, r)
unfolding strtok
strtok-address c a r h = ground (arith, token-colon a r h.1, behind-colon a r h.1, h.0)

strtok-digits :
    (c : ℕ) (r : Str)
    → Every IsDigit (c ∷ r)
    → strtok b':' (c ∷ r) ≡ some (c ∷ r, behind b':' (c ∷ r))
unfolding strtok
strtok-digits c r h = ground (arith, token-digits r h.1)

abbrev Starts : Str → Type 0
Starts text = (c : ℕ) × (s : Str) × (text ≡ c ∷ s)

print_digits_onto : (fuel m c : ℕ) (s : Str) → Starts (print_digits fuel m (c ∷ s))
unfolding print_digits
print_digits_onto zero m c s = (c, s, refl)
print_digits_onto (suc fuel) m c s = elim (Bool-cases (ltb m 10)) [
  | inl small ↦ (48 + m, c ∷ s, rw small refl)
  | inr large ↦
      let (d, r, e) = print_digits_onto fuel (m / 10) (48 + m % 10) (c ∷ s) in (d, r, rw large e)
]

print_digits-cons : (fuel m : ℕ) → Starts (print_digits (suc fuel) m [])
unfolding print_digits
print_digits-cons fuel m = elim (Bool-cases (ltb m 10)) [
  | inl small ↦ (48 + m, [], rw small refl)
  | inr large ↦
      let (d, r, e) = print_digits_onto fuel (m / 10) (48 + m % 10) [] in (d, r, rw large e)
]

-- A number that is printed reads back, if an `int` holds it.
pub atoi-print : (n : ℕ) → n < 2 ^ 31 → atoi (print_digits (suc n) n []) ≡ pos n
atoi-print n lt =
    let (d, s, e) = print_digits-cons n n in
    let ds = subst (Every IsDigit) e (print_digits-digits (suc n) n [] tt) in
    ap atoi e
    ∙ atoi-digits d s n ds.0
        (ap (digits_value 0) (sym e)
          ∙ digits_value-print (suc n) n [] (omega arith)
          ∙ (unfold digits_value in refl))
        lt

parse_digits :
    (c : ℕ) (a text : Str) (n : ℕ)
    → Every NotColon (c ∷ a)
    → Every IsDigit text
    → Starts text
    → digits_value 0 text ≡ n
    → 0 < n
    → n < 2 ^ 31
    → parse_address_port (some ((c ∷ a) ++ (b':' ∷ text))) ≡ some (c ∷ a, pos n)
unfolding parse_address_port
parse_digits c a text n h ds (d, s, e) v p lt =
    let ds' = subst (Every IsDigit) e ds in
    let v' = atoi-digits d s n ds'.0 (ap (digits_value 0) (sym e) ∙ v) lt in
    let t = ap (strtok b':') e ∙ strtok-digits d s ds' in
    ground (arith, strtok-address c a text h, t, ap atoi e ∙ v', p)

-- What a server registers as its address, with a port that an `int` holds, reads back as its address
-- and its port.
pub parse_address_port-print :
    (c : ℕ) (ip_address : Str) (port : ℕ)
    → Every NotColon (c ∷ ip_address)
    → 0 < port
    → port < 2 ^ 31
    → parse_address_port (some (print_address (c ∷ ip_address) port))
      ≡ some (c ∷ ip_address, pos port)
unfolding print_address
parse_address_port-print c a port h n lt =
    parse_digits c a (print_digits (suc port) port []) port h
      (print_digits-digits (suc port) port [] tt) (print_digits-cons port port)
      (digits_value-print (suc port) port [] (omega arith) ∙ (unfold digits_value in refl)) n lt
