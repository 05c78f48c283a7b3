-- ===== src/Examples/Codecs.antt =====
-- The codec theorems at one response and one registration.
use aegis_labs.Common.{◌≡◌, refl, inr, ◌↔◌, Option, some, none, [], ◌∷◌, false, length, ok}
use aegis_labs.Common.Int.{pos}
use aegis_labs.Common.Bytes.{Bytes, bytes_eq, zero_hash}
use aegis_labs.Model.{EvaluateResponse, RegisterModelRequest, validate}
use aegis_labs.Model.Abi.{static_abi, static_abi_laws}
use aegis_labs.Model.Codec.{encode_response, decode_evaluate_response}
use aegis_labs.Model.Register.{
  more, accept, decode_register_model_request, decode_register_iff, closing_bytes_accepted,
}
use aegis_labs.Model.RoundTrip.{decode-encode_response}
use aegis_labs.Examples.Data.{policy, payee, fits_800, drought_request}

abbrev response : EvaluateResponse
response = record { policy_id = policy; payout_amount = some (pos 800); payout_to = payee }

decode-encode_response_example :
    (b : Bytes) × (encode_response static_abi response ≡ ok b)
    × (length b ≡ 96)
    × (decode_evaluate_response static_abi b ≡ ok response)
decode-encode_response_example =
    decode-encode_response static_abi static_abi_laws response 800 refl fits_800

abbrev read_all : Bytes → Option (RegisterModelRequest × Bytes)
read_all plaintext = some (drought_request, [])

decode_register_iff_example :
    (decode_register_model_request read_all (1 ∷ []) ≡ ok drought_request) ↔ (
      (rest : Bytes) × (read_all (1 ∷ []) ≡ some (drought_request, rest))
      × (more rest ≡ false)
      × (bytes_eq policy zero_hash ≡ false)
      × (validate drought_request.model ≡ none))
decode_register_iff_example = decode_register_iff read_all (1 ∷ []) drought_request

-- The request, and a brace behind it.
abbrev read_first : Bytes → Option (RegisterModelRequest × Bytes)
read_first plaintext = some (drought_request, b'}' ∷ b'{' ∷ [])

closing_bytes_accepted_example :
    decode_register_model_request read_first (1 ∷ b'}' ∷ b'{' ∷ []) ≡ accept drought_request
closing_bytes_accepted_example =
    closing_bytes_accepted read_first (1 ∷ b'}' ∷ b'{' ∷ []) (b'{' ∷ []) b'}' drought_request refl
      (inr refl)
