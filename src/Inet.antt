-- ===== src/Inet.antt =====
-- source/inet-private.c: addresses as text; Socket models the messages over sockets.
pub mod Address
pub mod Socket
pub mod Streams
pub mod Messages
pub mod Sending
pub mod Connecting
use sdistr2020_group.Prelude.{
  ℕ, zero, suc, ◌+◌, ◌-◌, ◌*◌, ◌/◌, ◌%◌, Bool, Option, none, some, List, [], ◌∷◌, ◌++◌, ℤ, pos,
  negsuc, leb, ltb, ◌==◌, eqb_ℤ, ◌&&◌, ◌||◌, if◌then◌else◌,
}
use sdistr2020_group.Prelude.{ltb_ℤ}
use sdistr2020_group.Prelude.{◌^◌}
use sdistr2020_group.Message.{wrap_int}
use sdistr2020_group.Entry.{Str}

-- `strtok` of the C library with one delimiter: leading delimiters are skipped, and the next call
-- goes on behind the delimiter that ends the token. The token and that rest, or `NULL`.
unfoldable pub skip : ℕ → Str → Str
skip delimiter [] = []
skip delimiter (c ∷ s) = let rest = skip delimiter s in if c == delimiter then rest else c ∷ s

unfoldable pub token : ℕ → Str → Str
token delimiter [] = []
token delimiter (c ∷ s) = let rest = token delimiter s in if c == delimiter then [] else c ∷ rest

unfoldable pub behind : ℕ → Str → Str
behind delimiter [] = []
behind delimiter (c ∷ s) = let rest = behind delimiter s in if c == delimiter then s else rest

unfoldable pub strtok : ℕ → Str → Option (Str × Str)
unfolding skip token behind
strtok delimiter s = elim (skip delimiter s) [
  | [] ↦ none
  | c ∷ rest ↦ some (token delimiter (c ∷ rest), behind delimiter (c ∷ rest))
]

-- `atoi` of the C library: white space, a sign, and digits up to the first other byte. As in glibc,
-- the number is read by `strtol`, which stops at the bounds of a 64-bit `long`, and cut to an `int`.
unfoldable pub is_digit : ℕ → Bool
is_digit c = leb b'0' c && leb c b'9'

unfoldable pub digits_value : ℕ → Str → ℕ
unfolding is_digit
digits_value acc [] = acc
digits_value acc (c ∷ s) =
    let rest = digits_value (acc * 10 + (c - b'0')) s in if is_digit c then rest else acc

unfoldable pub skip_space : Str → Str
skip_space [] = []
skip_space (c ∷ s) =
    let rest = skip_space s in if c == 32 || (leb 9 c && leb c 13) then rest else c ∷ s

unfoldable pub negate : ℕ → ℤ
negate zero = pos 0
negate (suc n) = negsuc n

unfoldable pub signed_value : Str → ℤ
unfolding negate digits_value
signed_value [] = pos 0
signed_value (c ∷ s) =
    if c == b'-'
    then negate (digits_value 0 s)
    else if c == b'+'
    then pos (digits_value 0 s)
    else pos (digits_value 0 (c ∷ s))

unfoldable pub clip_long : ℤ → ℤ
clip_long (pos n) = if ltb n (2 ^ 63) then pos n else pos (2 ^ 63 - 1)
clip_long (negsuc n) = if ltb n (2 ^ 63) then negsuc n else negsuc (2 ^ 63 - 1)

unfoldable pub atoi : Str → ℤ
unfolding skip_space signed_value wrap_int clip_long
atoi s = wrap_int (clip_long (signed_value (skip_space s)))

-- The address and the port that are stored through the two pointers when the call returns 0;
-- `none` when it returns -1.
unfoldable pub parse_address_port : Option Str → Option (Str × ℤ)
parse_address_port none = none
parse_address_port (some address_port) = elim (strtok b':' address_port) [
  | none ↦ none
  | some (ip_address, rest) ↦ elim (strtok b':' rest) [
    | none ↦ none
    | some (port_str, rest') ↦
        if eqb_ℤ (atoi port_str) (pos 0) then none else some (ip_address, atoi port_str)
  ]
]

-- The descriptor that a call of `socket` or `accept` opens, by its result.
abbrev pub opened_by : ℤ → List ℤ
opened_by socket = if ltb_ℤ socket (pos 0) then [] else socket ∷ []

-- The results of the calls of `server_connect`.
pub record ConnectCalls : Type 0 where
  pub socket : ℤ
  pub inet_pton : ℤ
  pub connect : ℤ

-- The descriptors that are closed, and the result.
unfoldable pub server_connect : ConnectCalls → List ℤ × ℤ
server_connect calls =
    if ltb_ℤ calls.socket (pos 0)
    then ([], negsuc 0)
    else if ltb_ℤ calls.inet_pton (pos 1)
    then (calls.socket ∷ [], negsuc 0)
    else if ltb_ℤ calls.connect (pos 0)
    then (calls.socket ∷ [], negsuc 0)
    else ([], calls.socket)
