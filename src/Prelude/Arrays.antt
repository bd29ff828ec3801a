-- ===== src/Prelude/Arrays.antt =====
-- An array that is filled from an index on: what is written, the room left and what follows.
use Prim.Native.Nat.{ℕ, zero, suc, ◌+◌}
use mathlib.Core.Path.{◌≡◌, refl, ap, sym, ◌∙◌}
use mathlib.Core.List.{List, [], ◌∷◌, ◌++◌, append_assoc}
use native.Mathlib.Omega.{arith}
use sdistr2020_group.Prelude.Lists.{length, set, replicate, drop, take, length-append}

module _ {ℓ} {A : Type ℓ} where
  pub replicate-split :
      (x : A) (n a b : ℕ) → n ≡ suc (a + b) → replicate n x ≡ replicate a x ++ (x ∷ replicate b x)
  replicate-split x n zero b h = let e : n ≡ suc b = omega arith in rw e refl
  replicate-split x zero (suc a) b h = absurd (omega arith)
  replicate-split x (suc n) (suc a) b h = ap (λ xs. x ∷ xs) (replicate-split x n a b (omega arith))

  pub replicate-append :
      (x : A) (n a b : ℕ) → n ≡ a + b → replicate n x ≡ replicate a x ++ replicate b x
  replicate-append x n zero b h = let e : n ≡ b = omega arith in rw e refl
  replicate-append x zero (suc a) b h = absurd (omega arith)
  replicate-append x (suc n) (suc a) b h =
      ap (λ xs. x ∷ xs) (replicate-append x n a b (omega arith))

  pub set-append :
      (done rest : List A) (x v : A) (i : ℕ)
      → i ≡ length done
      → set (done ++ (x ∷ rest)) i v ≡ done ++ (v ∷ rest)
  set-append [] rest x v i h = rw h refl
  set-append (y ∷ done) rest x v zero h = absurd (omega arith)
  set-append (y ∷ done) rest x v (suc i) h =
      ap (λ xs. y ∷ xs) (set-append done rest x v i (omega arith))

  pub written_at :
      (xs done ks rest : List A) (x v : A) (i : ℕ)
      → xs ≡ done ++ (ks ++ (x ∷ rest))
      → i ≡ length done + length ks
      → set xs i v ≡ ((done ++ ks) ++ (v ∷ [])) ++ rest
  written_at xs done ks rest x v i h at_end =
      ap (λ ys. set ys i v) (h ∙ sym (append_assoc done ks _))
      ∙ set-append (done ++ ks) rest x v i (omega (arith, length-append done ks))
      ∙ sym (append_assoc (done ++ ks) (v ∷ []) rest)

  -- An array that holds `done`, room for `n` cells and `rest`.
  abbrev pub room : A → List A → ℕ → List A → List A
  room junk done n rest = done ++ (replicate n junk ++ rest)

  pub room-split :
      (junk : A) (done rest : List A) (n a b : ℕ)
      → n ≡ suc (a + b)
      → room junk done n rest ≡ room junk done a (junk ∷ (replicate b junk ++ rest))
  room-split junk done rest n a b h =
      ap (λ xs. done ++ xs)
        (ap (λ xs. xs ++ rest) (replicate-split junk n a b h) ∙ append_assoc (replicate a junk) _ _)

  -- Behind what is written stands the rest.
  pub drop-append : (xs ys : List A) (i : ℕ) → i ≡ length xs → drop i (xs ++ ys) ≡ ys
  drop-append [] ys i h = rw h refl
  drop-append (x ∷ xs) ys zero h = absurd (omega arith)
  drop-append (x ∷ xs) ys (suc i) h = drop-append xs ys i (omega arith)

  pub take-append : (xs ys : List A) (i : ℕ) → i ≡ length xs → take i (xs ++ ys) ≡ xs
  take-append [] ys i h = rw h refl
  take-append (x ∷ xs) ys zero h = absurd (omega arith)
  take-append (x ∷ xs) ys (suc i) h = ap (λ zs. x ∷ zs) (take-append xs ys i (omega arith))
