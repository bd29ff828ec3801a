-- ===== src/NetworkServer/Moves.antt =====
-- What moving closed sockets behind the others in source/server/network_server.c keeps: closed
-- sockets stay closed, and the array keeps its length.
use sdistr2020_group.Prelude.{
  ℕ, zero, suc, ◌-◌, ◌≤◌, ◌<◌, ◌≡◌, List, [], ◌∷◌, ◌++◌, refl, ap, arith, length, take, drop,
  Bool-cases, inl, inr,
}
use sdistr2020_group.NetworkServer.{Pollfd, is_closed_at, move_to_end, move_closed}
use sdistr2020_group.NetworkServer.Compaction.{AllClosed}

pub closed-append : (xs ys : List Pollfd) → AllClosed xs → AllClosed ys → AllClosed (xs ++ ys)
closed-append [] ys a b = b
closed-append (x ∷ xs) ys a b = (a.0, closed-append xs ys a.1 b)

closed-take : (n : ℕ) (xs : List Pollfd) → AllClosed xs → AllClosed (take n xs)
closed-take zero xs a = tt
closed-take (suc n) [] a = tt
closed-take (suc n) (x ∷ xs) a = (a.0, closed-take n xs a.1)

pub closed-drop : (n : ℕ) (xs : List Pollfd) → AllClosed xs → AllClosed (drop n xs)
closed-drop zero xs a = a
closed-drop (suc n) [] a = tt
closed-drop (suc n) (x ∷ xs) a = closed-drop n xs a.1

closed-move_to_end :
    (i last : ℕ) (ps : List Pollfd) → AllClosed ps → AllClosed (move_to_end i last ps)
unfolding move_to_end
closed-move_to_end i last ps a = closed-append (take i ps) _ (closed-take i ps a) (
    closed-append (drop (suc i) (take last ps)) _
      (closed-drop (suc i) (take last ps) (closed-take last ps a))
      (closed-append (take 1 (drop i ps)) _ (closed-take 1 (drop i ps) (closed-drop i ps a))
        (closed-drop last ps a)))

pub closed-move_closed :
    (i last : ℕ) (ps : List Pollfd) → AllClosed ps → AllClosed (move_closed i ps last).0
unfolding move_closed
closed-move_closed zero last ps a = a
closed-move_closed (suc i) last ps a = elim (Bool-cases (is_closed_at ps i)) [
  | inl y ↦ ground (
    arith,
    y,
    closed-move_closed i (last - 1) (move_to_end i last ps) (closed-move_to_end i last ps a),
  )
  | inr n ↦ ground (arith, n, closed-move_closed i last ps a)
]

length_with :
    (n : ℕ) (x : Pollfd) (xs : List Pollfd)
    → length (take n xs ++ (x ∷ drop n xs)) ≡ suc (length xs)
length_with zero x xs = refl
length_with (suc n) x [] = refl
length_with (suc n) x (y ∷ xs) = ap suc (length_with n x xs)

length-move_to_end :
    (i last : ℕ) (ps : List Pollfd) → i < last → length (move_to_end i last ps) ≡ length ps
unfolding move_to_end
length-move_to_end i zero ps h = absurd (omega arith)
length-move_to_end zero (suc n) [] h = refl
length-move_to_end (suc i) (suc n) [] h = refl
length-move_to_end zero (suc n) (p ∷ ps) h = length_with n p ps
length-move_to_end (suc i) (suc n) (p ∷ ps) h = ap suc (length-move_to_end i n ps (omega arith))

-- The loop keeps the length, and the index only falls.
pub move_closed_bounds :
    (i last : ℕ) (ps : List Pollfd)
    → i < last
    → (length (move_closed i ps last).0 ≡ length ps) × ((move_closed i ps last).1 ≤ last)
unfolding move_closed
move_closed_bounds zero last ps h = (refl, omega arith)
move_closed_bounds (suc i) last ps h = elim (Bool-cases (is_closed_at ps i)) [
  | inl y ↦ ground (
    arith,
    y,
    move_closed_bounds i (last - 1) (move_to_end i last ps) (omega arith),
    length-move_to_end i last ps (omega arith),
  )
  | inr n ↦ ground (arith, n, move_closed_bounds i last ps (omega arith))
]
