-- ===== src/TreeClient/Words.antt =====
-- The lines that a user types in source/client/tree_client.c, and the words in them.
use sdistr2020_group.Prelude.{
  ℕ, zero, suc, ◌<◌, ◌≡◌, ◌≢◌, refl, ap, ◌∙◌, Option, none, some, List, [], ◌∷◌, ◌++◌, length,
  arith,
}
use sdistr2020_group.Entry.{Str}
use sdistr2020_group.Inet.{token, behind, strtok}
use sdistr2020_group.Inet.Address.{Every}
use sdistr2020_group.TreeClient.{
  c_string, fgets, drop_line_feed, prune_input, collect_input, max_input_len, rest_of,
  parse_command,
}

abbrev pub NotSpace : ℕ → Type 0
NotSpace c = c ≢ b' '

-- A byte that is neither the end of a string nor that of a line.
abbrev pub IsTyped : ℕ → Type 0
IsTyped c = (c ≢ 0) × (c ≢ 10)

Every-append : (P : ℕ → Type 0) (a r : Str) → Every P a → Every P r → Every P (a ++ r)
Every-append P [] r h k = k
Every-append P (c ∷ a) r h k = (h.0, Every-append P a r h.1 k)

token-word : (a : Str) → Every NotSpace a → token b' ' a ≡ a
unfolding token
token-word [] h = refl
token-word (c ∷ a) h = ground (arith, token-word a h.1, h.0)

behind-word : (a : Str) → Every NotSpace a → behind b' ' a ≡ []
unfolding behind
behind-word [] h = refl
behind-word (c ∷ a) h = ground (arith, behind-word a h.1, h.0)

token-space : (a r : Str) → Every NotSpace a → token b' ' (a ++ (b' ' ∷ r)) ≡ a
unfolding token
token-space [] r h = refl
token-space (c ∷ a) r h = ground (arith, token-space a r h.1, h.0)

behind-space : (a r : Str) → Every NotSpace a → behind b' ' (a ++ (b' ' ∷ r)) ≡ r
unfolding behind
behind-space [] r h = refl
behind-space (c ∷ a) r h = ground (arith, behind-space a r h.1, h.0)

strtok-word : (c : ℕ) (a : Str) → Every NotSpace (c ∷ a) → strtok b' ' (c ∷ a) ≡ some (c ∷ a, [])
unfolding strtok
strtok-word c a h = ground (arith, token-word a h.1, behind-word a h.1, h.0)

strtok-space :
    (c : ℕ) (a r : Str)
    → Every NotSpace (c ∷ a)
    → strtok b' ' ((c ∷ a) ++ (b' ' ∷ r)) ≡ some (c ∷ a, r)
unfolding strtok
strtok-space c a r h = ground (arith, token-space a r h.1, behind-space a r h.1, h.0)

strtok_empty : strtok b' ' [] ≡ none
unfolding strtok
strtok_empty = refl

pub parse_alone :
    (c : ℕ) (command : Str)
    → Every NotSpace (c ∷ command)
    → parse_command (c ∷ command) ≡ (some (c ∷ command), none, none)
unfolding parse_command
parse_alone c command h = ground (arith, strtok-word c command h, strtok_empty)

pub parse_argument :
    (c k : ℕ) (command key : Str)
    → Every NotSpace (c ∷ command)
    → Every NotSpace (k ∷ key)
    → parse_command ((c ∷ command) ++ (b' ' ∷ (k ∷ key)))
      ≡ (some (c ∷ command), some (k ∷ key), none)
unfolding parse_command rest_of
parse_argument c k command key h h' =
    ground (arith, strtok-space c command (k ∷ key) h, strtok-word k key h')

pub parse_arguments :
    (c k : ℕ) (command key text : Str)
    → Every NotSpace (c ∷ command)
    → Every NotSpace (k ∷ key)
    → parse_command ((c ∷ command) ++ (b' ' ∷ ((k ∷ key) ++ (b' ' ∷ text))))
      ≡ (some (c ∷ command), some (k ∷ key), rest_of text)
unfolding parse_command
parse_arguments c k command key text h h' =
    ground
      (arith, strtok-space c command ((k ∷ key) ++ (b' ' ∷ text)) h, strtok-space k key text h')

fgets-line :
    (room : ℕ) (line rest : List ℕ)
    → Every IsTyped line
    → length line < room
    → fgets room (line ++ (10 ∷ rest)) ≡ (line ++ (10 ∷ []), rest)
unfolding fgets
fgets-line zero line rest h l = absurd (omega arith)
fgets-line (suc room) [] rest h l = refl
fgets-line (suc room) (c ∷ line) rest h l =
    let ih = fgets-line room line rest h.1 (omega arith) in ground (arith, ih, h.0.1)

c_string-typed :
    (line : List ℕ)
    → Every IsTyped line
    → c_string ((line ++ (10 ∷ [])) ++ (0 ∷ [])) ≡ some (line ++ (10 ∷ []))
unfolding c_string
c_string-typed [] h = refl
c_string-typed (c ∷ line) h = let ih = c_string-typed line h.1 in ground (arith, ih, h.0.0)

drop_line_feed-typed : (line : Str) → drop_line_feed (line ++ (10 ∷ [])) ≡ line
unfolding drop_line_feed
drop_line_feed-typed [] = refl
drop_line_feed-typed (c ∷ []) = refl
drop_line_feed-typed (c ∷ d ∷ line) = ap (λ s. c ∷ s) (drop_line_feed-typed (d ∷ line))

prune_typed : (line : Str) → prune_input (some (line ++ (10 ∷ []))) ≡ some line
unfolding prune_input
prune_typed [] = unfold drop_line_feed in refl
prune_typed (c ∷ line) = ap some (drop_line_feed-typed (c ∷ line))

abbrev read_line : List ℕ × List ℕ → Option Str × List ℕ
read_line (line, rest) = (prune_input (c_string (line ++ (0 ∷ []))), rest)

collect_input-fgets :
    (junk line rest : List ℕ)
    → collect_input junk (line ++ (10 ∷ rest)) ≡ read_line (fgets 4999 (line ++ (10 ∷ rest)))
unfolding collect_input max_input_len
collect_input-fgets junk [] rest = refl
collect_input-fgets junk (c ∷ line) rest = refl

-- A line that fits the buffer is read whole, and what follows it stays for the next call.
pub collect_line :
    (junk line rest : List ℕ)
    → Every IsTyped line
    → length line < 4999
    → collect_input junk (line ++ (10 ∷ rest)) ≡ (some line, rest)
collect_line junk line rest h l =
    collect_input-fgets junk line rest
    ∙ ap read_line (fgets-line 4999 line rest h l)
    ∙ ap (λ s. (prune_input s, rest)) (c_string-typed line h)
    ∙ ap (λ s. (s, rest)) (prune_typed line)

-- A command with a key and a text, typed on one line that fits the buffer, is read whole, what
-- follows it stays for the next call, and it comes apart into the command, the key and the text. No
-- byte of the command or the key is a space, and no byte of the line is 0 or a line feed.
pub collect_input-parse_command :
    (junk rest : List ℕ) (c k : ℕ) (command key text : Str)
    → let typed = (c ∷ command) ++ (b' ' ∷ ((k ∷ key) ++ (b' ' ∷ text))) in
      Every NotSpace (c ∷ command)
      → Every NotSpace (k ∷ key)
      → Every IsTyped typed
      → length typed < 4999
      → (collect_input junk (typed ++ (10 ∷ rest)) ≡ (some typed, rest))
        × (parse_command typed ≡ (some (c ∷ command), some (k ∷ key), rest_of text))
collect_input-parse_command junk rest c k command key text h h' t l =
    (collect_line junk _ rest t l, parse_arguments c k command key text h h')
