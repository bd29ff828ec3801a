-- ===== src/NetworkServer/Compaction.antt =====
-- The compaction of the array of sockets in source/server/network_server.c.
use mathlib.Core.Path.{subst, subst₂}
use mathlib.Core.List.{append_assoc, append-nil}
use sdistr2020_group.Prelude.{
  ℕ, zero, suc, ◌+◌, ◌-◌, ◌<◌, ◌≡◌, Bool, true, false, List, [], ◌∷◌, ◌++◌, refl, sym, ap, ◌∙◌,
  arith, length, length-append, drop, take-append, drop-append, if◌then◌else◌, Bool-cases, inl, inr,
  ◌⊎◌,
}
use sdistr2020_group.NetworkServer.{
  Pollfd, is_closed, is_closed_at, last_open, index_of_last_connected, move_to_end, move_closed,
  compact,
}

-- The sockets that are open, in their order.
abbrev pub open_sockets : List Pollfd → List Pollfd
open_sockets [] = []
open_sockets (p ∷ ps) = let rest = open_sockets ps in if is_closed p then rest else p ∷ rest

abbrev pub AllClosed : List Pollfd → Type 0
AllClosed [] = Unit
AllClosed (p ∷ ps) = (is_closed p ≡ true) × AllClosed ps

abbrev AllOpen : List Pollfd → Type 0
AllOpen [] = Unit
AllOpen (p ∷ ps) = (is_closed p ≡ false) × AllOpen ps

rev : List Pollfd → List Pollfd
rev [] = []
rev (p ∷ ps) = rev ps ++ (p ∷ [])

length-rev : (ps : List Pollfd) → length (rev ps) ≡ length ps
unfolding rev
length-rev [] = refl
length-rev (p ∷ ps) = omega (arith, length-append (rev ps) (p ∷ []), length-rev ps)

rev-append : (xs ys : List Pollfd) → rev (xs ++ ys) ≡ rev ys ++ rev xs
unfolding rev
rev-append [] ys = sym (append-nil (rev ys))
rev-append (x ∷ xs) ys =
    ap (λ zs. zs ++ (x ∷ [])) (rev-append xs ys) ∙ append_assoc (rev ys) (rev xs) (x ∷ [])

rev-rev : (xs : List Pollfd) → rev (rev xs) ≡ xs
unfolding rev
rev-rev [] = refl
rev-rev (x ∷ xs) = rev-append (rev xs) (x ∷ []) ∙ ap (λ zs. x ∷ zs) (rev-rev xs)

open-append : (xs ys : List Pollfd) → open_sockets (xs ++ ys) ≡ open_sockets xs ++ open_sockets ys
open-append [] ys = refl
open-append (x ∷ xs) ys = ground (arith, open-append xs ys)

open-AllClosed : (xs : List Pollfd) → AllClosed xs → open_sockets xs ≡ []
open-AllClosed [] h = refl
open-AllClosed (x ∷ xs) h = ground (arith, open-AllClosed xs)

closed_at :
    (xs : List Pollfd) (p : Pollfd) (ys : List Pollfd) (i : ℕ)
    → i ≡ length xs
    → is_closed_at (xs ++ (p ∷ ys)) i ≡ is_closed p
unfolding is_closed_at
closed_at [] p ys i h = rw h refl
closed_at (x ∷ xs) p ys zero h = absurd (omega arith)
closed_at (x ∷ xs) p ys (suc i) h = closed_at xs p ys i (omega arith)

move_lem :
    (a b c : List Pollfd) (p : Pollfd) (i last : ℕ)
    → i ≡ length a
    → last ≡ suc (length a + length b)
    → move_to_end i last (a ++ (p ∷ (b ++ c))) ≡ a ++ (b ++ (p ∷ c))
unfolding move_to_end
move_lem [] b c p i zero h k = absurd (omega arith)
move_lem [] b c p zero (suc n) h k =
    let m : n ≡ length b = omega arith in
    ap (λ xs. xs ++ (p ∷ drop n (b ++ c))) (take-append b c n m)
    ∙ ap (λ xs. b ++ (p ∷ xs)) (drop-append b c n m)
move_lem [] b c p (suc i) (suc n) h k = absurd (omega arith)
move_lem (x ∷ a) b c p i zero h k = absurd (omega arith)
move_lem (x ∷ a) b c p zero (suc n) h k = absurd (omega arith)
move_lem (x ∷ a) b c p (suc i) (suc n) h k =
    ap (λ xs. x ∷ xs) (move_lem a b c p i n (omega arith) (omega arith))

-- The open sockets, their number, and closed ones behind them.
Compacted : List Pollfd → List Pollfd × ℕ → Type 0
Compacted target r =
    (rest : List Pollfd) × (r.0 ≡ target ++ rest) × AllClosed rest × (r.1 ≡ length target)

open-rev :
    (p : Pollfd) (r b : List Pollfd)
    → is_closed p ≡ false
    → open_sockets (rev r) ++ (p ∷ b) ≡ open_sockets (rev (p ∷ r)) ++ b
unfolding rev
open-rev p r b h =
    sym (append_assoc (open_sockets (rev r)) (p ∷ []) b)
    ∙ ap (λ xs. (open_sockets (rev r) ++ xs) ++ b) (sym (open_one p h))
    ∙ ap (λ xs. xs ++ b) (sym (open-append (rev r) (p ∷ [])))
  where
    open_one : (p : Pollfd) → is_closed p ≡ false → open_sockets (p ∷ []) ≡ p ∷ []
    open_one p h = ground (arith, h)

closed-rev :
    (p : Pollfd) (r b : List Pollfd)
    → is_closed p ≡ true
    → open_sockets (rev r) ++ b ≡ open_sockets (rev (p ∷ r)) ++ b
unfolding rev
closed-rev p r b h =
    ap (λ xs. xs ++ b)
      (sym (append-nil _)
        ∙ ap (λ xs. open_sockets (rev r) ++ xs) (sym (open-AllClosed (p ∷ []) (h, tt)))
        ∙ sym (open-append (rev r) (p ∷ [])))

move_closed-Compacted :
    (r b c ps : List Pollfd) (i last : ℕ)
    → ps ≡ rev r ++ (b ++ c)
    → i ≡ length r
    → last ≡ length r + length b
    → AllOpen b
    → AllClosed c
    → Compacted (open_sockets (rev r) ++ b) (move_closed i ps last)
unfolding move_closed Compacted rev
move_closed-Compacted [] b c ps zero last e h k o cl = (c, e, cl, omega arith)
move_closed-Compacted [] b c ps (suc i) last e h k o cl = absurd (omega arith)
move_closed-Compacted (p ∷ r) b c ps zero last e h k o cl = absurd (omega arith)
move_closed-Compacted (p ∷ r) b c ps (suc i) last e h k o cl =
    let e' : ps ≡ rev r ++ (p ∷ (b ++ c)) = e ∙ append_assoc (rev r) (p ∷ []) (b ++ c) in
    let len : i ≡ length (rev r) = omega (arith, length-rev r) in
    let test : is_closed_at ps i ≡ is_closed p =
      ap (λ xs. is_closed_at xs i) e' ∙ closed_at (rev r) p (b ++ c) i len in
    let go = λ (x : Bool).
      if x then move_closed i (move_to_end i last ps) (last - 1) else move_closed i ps last in
    elim (Bool-cases (is_closed p)) [
      | inl y ↦ subst₂ Compacted (closed-rev p r b y) (sym (ap go (test ∙ y))) (
          move_closed-Compacted r b (p ∷ c) (move_to_end i last ps) i (last - 1)
            (ap (move_to_end i last) e'
              ∙ move_lem (rev r) b c p i last len (omega (arith, length-rev r)))
            (omega arith) (omega arith) o (y, cl))
      | inr n ↦
          subst₂ Compacted (open-rev p r b n) (sym (ap go (test ∙ n)))
            (move_closed-Compacted r (p ∷ b) c ps i last e' (omega arith) (omega arith) (n, o) cl)
    ]

-- Where the last open socket stands.
pub LastOpen : List Pollfd → ℕ → Type 0
LastOpen ps n =
    (n ≡ 0) × AllClosed ps
    ⊎ ((a : List Pollfd) × (x : Pollfd) × (c : List Pollfd) × (ps ≡ a ++ (x ∷ c))
        × (is_closed x ≡ false)
        × AllClosed c
        × (n ≡ suc (length a)))

pub last_open-LastOpen : (ps : List Pollfd) → LastOpen ps (last_open ps)
unfolding last_open LastOpen
last_open-LastOpen [] = inl (refl, tt)
last_open-LastOpen (p ∷ ps) = elim (last_open-LastOpen ps) [
  | inl (e, cl) ↦ elim (Bool-cases (is_closed p)) [
    | inl y ↦ inl (ground (arith, e, y), (y, cl))
    | inr n ↦ inr ([], p, ps, refl, n, cl, ground (arith, e, n))
  ]
  | inr (a, x, c, e, o, cl, n) ↦ inr (p ∷ a, x, c, ap (λ xs. p ∷ xs) e, o, cl, ground (arith, n))
]

compact_found :
    (ps a c : List Pollfd) (x : Pollfd)
    → ps ≡ a ++ (x ∷ c)
    → is_closed x ≡ false
    → AllClosed c
    → last_open ps ≡ suc (length a)
    → Compacted (open_sockets ps) (compact ps)
unfolding compact index_of_last_connected
compact_found ps a c x e o cl n =
    let last : index_of_last_connected ps ≡ suc (length a) = ground (arith, n) in
    let target : open_sockets (rev (rev a)) ++ (x ∷ []) ≡ open_sockets ps =
      ap (λ xs. open_sockets xs ++ (x ∷ [])) (rev-rev a)
      ∙ ap (λ xs. open_sockets a ++ xs) (ground (arith, o, open-AllClosed c cl))
      ∙ sym (ap open_sockets e ∙ open-append a (x ∷ c)) in
    subst (λ xs. Compacted xs (compact ps)) target
      (move_closed-Compacted (rev a) (x ∷ []) c ps (index_of_last_connected ps - 1)
        (index_of_last_connected ps) (e ∙ ap (λ xs. xs ++ (x ∷ c)) (sym (rev-rev a)))
        (omega (arith, last, length-rev a)) (omega (arith, last, length-rev a)) (o, tt) cl)

-- If a client is still connected, the open sockets stand at the front of the array afterwards, in
-- the order in which they stood, the closed ones behind them, and the count is their number.
pub compact_open :
    (ps : List Pollfd)
    → 0 < length (open_sockets ps)
    → (rest : List Pollfd) × ((compact ps).0 ≡ open_sockets ps ++ rest)
      × AllClosed rest
      × ((compact ps).1 ≡ length (open_sockets ps))
unfolding LastOpen Compacted
compact_open ps h = elim (last_open-LastOpen ps) [
  | inl (e, cl) ↦ absurd (omega (arith, h, ap length (open-AllClosed ps cl)))
  | inr (a, x, c, e, o, cl, n) ↦ compact_found ps a c x e o cl n
]

-- When the last client is gone, the count is 1 and not 0: the array of five closed sockets keeps a
-- place that is counted.
pub compact_none_open :
    (a b c d e : Pollfd)
    → AllClosed (a ∷ b ∷ c ∷ d ∷ e ∷ [])
    → (open_sockets (a ∷ b ∷ c ∷ d ∷ e ∷ []) ≡ []) × ((compact (a ∷ b ∷ c ∷ d ∷ e ∷ [])).1 ≡ 1)
unfolding compact index_of_last_connected last_open move_closed move_to_end is_closed_at
compact_none_open a b c d e h = (open-AllClosed (a ∷ b ∷ c ∷ d ∷ e ∷ []) h, ground (arith, h))
