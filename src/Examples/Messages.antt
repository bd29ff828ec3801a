-- ===== src/Examples/Messages.antt =====
-- source/message-private.c and the addresses of source/inet-private.c at small inputs.
use sdistr2020_group.Prelude.{◌≡◌, refl, none, some, [], ◌∷◌, pos, arith}
use sdistr2020_group.Entry.{Entry}
use sdistr2020_group.Message.{Message, Content, op_put}
use sdistr2020_group.Inet.{parse_address_port, strtok, atoi}
use sdistr2020_group.Inet.Address.{print_address, parse_address_port-print}

abbrev pair : Entry
pair = record {
  key = some (b'k' ∷ []);
  value = some (record { datasize = pos 2; block = some (7 ∷ 0 ∷ []) });
}

abbrev put_request : Message
put_request = record {
  op_code = op_put;
  content = Content.entry (
      some (record {
        key = some (record { str = b'k' ∷ [] });
        value = some (record { len = 2; block = some (7 ∷ 0 ∷ []) });
      }));
}

-- "ab:"
no_port : parse_address_port (some (b'a' ∷ b'b' ∷ b':' ∷ [])) ≡ none
unfolding parse_address_port strtok
no_port = refl

-- "h:80x" is read as port 80.
trailing :
    parse_address_port (some (b'h' ∷ b':' ∷ b'8' ∷ b'0' ∷ b'x' ∷ [])) ≡ some (b'h' ∷ [], pos 80)
unfolding parse_address_port strtok atoi
trailing = refl

parse_address_port-print_example :
    parse_address_port (some (print_address (b'h' ∷ []) 9000)) ≡ some (b'h' ∷ [], pos 9000)
parse_address_port-print_example =
    parse_address_port-print b'h' [] 9000 ((λ e. absurd (omega arith)), tt) (omega arith)
      (omega arith)
