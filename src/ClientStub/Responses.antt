-- ===== src/ClientStub/Responses.antt =====
-- The responses of source/server/tree_skel.c to a get and to a request for the keys, and what
-- source/client/client_stub.c reads in them.
use sdistr2020_group.Prelude.{◌+◌, ◌≡◌, Option, none, some, List, [], ◌∷◌, map, refl, ap, arith}
use sdistr2020_group.Data.{Data}
use sdistr2020_group.Entry.{Str}
use sdistr2020_group.Message.{
  op_get, op_getkeys, op_error, Message, Content, data_to_msg, keys_to_msg,
}
use sdistr2020_group.Message.Copies.{IsStorable, msg_to_data-data_to_msg}
use sdistr2020_group.Tree.Invariant.{IsNamed}
use sdistr2020_group.Tree.Keys.{Each}
use sdistr2020_group.Skel.{fill_error}
use sdistr2020_group.ClientStub.{response_value}

unfoldable pub value_response : Option Data → Message
value_response (some value) = record {
  op_code = op_get + 1;
  content = Content.value (data_to_msg (some value));
}
value_response none = record { op_code = op_error; content = Content.not_set }

pub value_response_lem :
    (v : Option Data)
    → ◌≡◌ {A = Message}
        (elim v [
          | some value ↦ record {
            op_code = op_get + 1;
            content = Content.value (data_to_msg (some value));
          }
          | none ↦ record { op_code = op_error; content = Content.not_set }
        ])
        (value_response v)
unfolding value_response
value_response_lem none = refl
value_response_lem (some d) = refl

pub response_value_lem :
    (v : Option Data) → IsStorable v → response_value (some (fill_error (value_response v))) ≡ v
unfolding response_value fill_error value_response
response_value_lem none h = refl
response_value_lem (some d) h = msg_to_data-data_to_msg (some d) h

unfoldable pub keys_response : Option (List (Option Str)) → Message
keys_response (some ks) = record {
  op_code = op_getkeys + 1;
  content = Content.keys (keys_to_msg (some ks));
}
keys_response none = record { op_code = op_error; content = Content.not_set }

pub keys_response_lem :
    (ks : Option (List (Option Str)))
    → ◌≡◌ {A = Message}
        (elim ks [
          | some xs ↦ record {
            op_code = op_getkeys + 1;
            content = Content.keys (keys_to_msg (some xs));
          }
          | none ↦ record { op_code = op_error; content = Content.not_set }
        ])
        (keys_response ks)
unfolding keys_response
keys_response_lem none = refl
keys_response_lem (some ks) = refl

pub named_keys : (xs : List (Option Str)) → Each IsNamed xs → (ks : List Str) × (xs ≡ map some ks)
named_keys [] n = ([], refl)
named_keys (none ∷ xs) n = absurd (ground (arith, n.0))
named_keys (some k ∷ xs) n = let (ks, e) = named_keys xs n.1 in (k ∷ ks, ap (λ ys. some k ∷ ys) e)
