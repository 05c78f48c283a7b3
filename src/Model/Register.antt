-- ===== src/Model/Register.antt =====
-- go/pkg/types/register.go: `DecodeRegisterModelRequest`. The JSON reader of a value is a parameter:
-- it returns the request and the bytes that it has not read. `More` is encoding/json's.
use aegis_labs.Common.{
  ℕ, ◌≡◌, ◌↔◌, ◌⊎◌, Bool, false, not, ◌||◌, Option, none, some, [], ◌∷◌, arith, ◌==◌, if◌then◌else◌,
  check, Outcome, ok, err,
}
use aegis_labs.Common.Bytes.{Bytes, zero_hash, bytes_eq}
use aegis_labs.Model.{RegisterModelRequest, ModelFault, validate}

pub data RegisterFault : Type 0 where
  invalid_payload trailing_data policy_id_zero : RegisterFault
  rejected : ModelFault → RegisterFault

abbrev pub is_space : ℕ → Bool
is_space c = c == 32 || c == 9 || c == 13 || c == 10

-- The decoder's `peek`: the next byte that is not white space.
unfoldable pub peek : Bytes → Option ℕ
peek [] = none
peek (c ∷ rest) = if is_space c then peek rest else some c

-- `decoder.More()`: there is a next byte, and it closes neither an array nor an object.
unfoldable pub more : Bytes → Bool
unfolding peek
more rest = elim (peek rest) [ none ↦ false | some c ↦ not (c == b']' || c == b'}') ]

abbrev pub reject : Option ModelFault → Option RegisterFault
reject none = none
reject (some e) = some (rejected e)

-- The checks behind the parser.
unfoldable pub accept : RegisterModelRequest → Outcome RegisterFault RegisterModelRequest
accept req =
    if bytes_eq req.policy_id zero_hash
    then err policy_id_zero
    else check (reject (validate req.model)) (ok req)

unfoldable pub after_parse :
    Option (RegisterModelRequest × Bytes) → Outcome RegisterFault RegisterModelRequest
unfolding accept
after_parse none = err invalid_payload
after_parse (some (req, rest)) = if more rest then err trailing_data else accept req

-- `DisallowUnknownFields` is an option of the reader.
unfoldable pub decode_register_model_request :
    (Bytes → Option (RegisterModelRequest × Bytes))
    → Bytes
    → Outcome RegisterFault RegisterModelRequest
unfolding after_parse
decode_register_model_request read_json plaintext = after_parse (read_json plaintext)

after_parse_iff :
    (parsed : Option (RegisterModelRequest × Bytes)) (req : RegisterModelRequest)
    → (after_parse parsed ≡ ok req) ↔ (
        (rest : Bytes) × (parsed ≡ some (req, rest))
        × (more rest ≡ false)
        × (bytes_eq req.policy_id zero_hash ≡ false)
        × (validate req.model ≡ none))
unfolding after_parse
after_parse_iff none req = (λ e. cc, λ (rest, p, m, z, v). cc)
after_parse_iff (some (r, rest)) req = (
  λ e. (rest, ground arith, ground arith, ground arith, ground arith),
  λ (rest', p, m, z, v). ground arith,
)

-- A payload is accepted as a request exactly when the JSON reader gives that request with bytes
-- behind it for which `more` is false, its policy id is not zero and its model passes `Validate`.
pub decode_register_iff :
    (read_json : Bytes → Option (RegisterModelRequest × Bytes)) (plaintext : Bytes)
    (req : RegisterModelRequest)
    → (decode_register_model_request read_json plaintext ≡ ok req) ↔ (
        (rest : Bytes) × (read_json plaintext ≡ some (req, rest))
        × (more rest ≡ false)
        × (bytes_eq req.policy_id zero_hash ≡ false)
        × (validate req.model ≡ none))
unfolding decode_register_model_request
decode_register_iff read_json plaintext req = after_parse_iff (read_json plaintext) req

-- When the bytes that the JSON reader leaves begin with a closing brace or bracket, the request
-- goes on to the checks behind the parser, whatever follows.
pub closing_bytes_accepted :
    (read_json : Bytes → Option (RegisterModelRequest × Bytes)) (plaintext rest : Bytes) (c : ℕ)
    (req : RegisterModelRequest)
    → read_json plaintext ≡ some (req, c ∷ rest)
    → (c ≡ b']') ⊎ (c ≡ b'}')
    → decode_register_model_request read_json plaintext ≡ accept req
unfolding decode_register_model_request more
closing_bytes_accepted read_json plaintext rest c req h e = ground arith
