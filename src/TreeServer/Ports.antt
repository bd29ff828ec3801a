-- ===== src/TreeServer/Ports.antt =====
-- The port that source/server/tree_server.c accepts.
use sdistr2020_group.Prelude.{
  ℕ, ◌+◌, ◌*◌, ◌/◌, ◌%◌, ◌≡◌, refl, true, false, pos, negsuc, ltb_ℤ, ◌==◌, if◌then◌else◌, arith,
  Bool-cases, inl, inr,
}
use sdistr2020_group.Entry.{Str}
use sdistr2020_group.Inet.{atoi}
use sdistr2020_group.TreeServer.{to_uint16, htons, validate_args}

swapped :
    (u : ℕ)
    → (if ltb_ℤ (pos (u % 256 * 256 + u / 256)) (pos 1) then negsuc 0 else pos 0)
      ≡ (if u == 0 then negsuc 0 else pos 0)
swapped u = elim (Bool-cases (u == 0)) [
  | inl y ↦
      let e : ltb_ℤ (pos (u % 256 * 256 + u / 256)) (pos 1) ≡ true = ground (arith, y) in
      rw (e, y) refl
  | inr n ↦
      let e : ltb_ℤ (pos (u % 256 * 256 + u / 256)) (pos 1) ≡ false = ground (arith, n) in
      rw (e, n) refl
]

-- With three arguments a port is accepted unless the number that it starts with is 0 in its low 16
-- bits: the other numbers, negative ones and those too large for a port, pass, since they are tested
-- after the conversion.
pub validate_args_exact :
    (port : Str) → validate_args 3 port ≡ (if to_uint16 (atoi port) == 0 then negsuc 0 else pos 0)
unfolding validate_args htons
validate_args_exact port = swapped (to_uint16 (atoi port))
