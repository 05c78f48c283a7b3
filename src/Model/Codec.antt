-- ===== src/Model/Codec.antt =====
-- go/pkg/types/register.go: the ABI codec of the evaluate request and response.
use aegis_labs.Common.{
  ℕ, Option, none, some, List, [], ◌∷◌, length, ◌==◌, if◌then◌else◌, Outcome, ok, err, map_err,
  ◌>>=◌,
}
use aegis_labs.Common.Int.{ℤ, is_neg, exceeds_256_bits}
use aegis_labs.Common.Bytes.{Bytes, Hash, Address}
use aegis_labs.Model.{EvaluateRequest, EvaluateResponse}
use aegis_labs.Model.Abi.{AbiValue, bytes32, big_int, address, Abi}

pub data CodecFault : Type 0 where
  value_nil value_negative value_exceeds_uint256 pack_failed : CodecFault
  wrong_size : ℕ → CodecFault
  unpack_failed : CodecFault
  wrong_count : ℕ → CodecFault
  wrong_field : ℕ → CodecFault

-- The two wrappers of the decoders' errors.
pub data DecodeFault : Type 0 where
  evaluate_request evaluate_response : CodecFault → DecodeFault

abbrev pub evaluate_tuple_size : ℕ
evaluate_tuple_size = 96

abbrev packed : Option Bytes → Outcome CodecFault Bytes
packed none = err pack_failed
packed (some b) = ok b

module _ (abi : Abi) where
  unfoldable pub encode_evaluate_tuple : Hash → Option ℤ → Address → Outcome CodecFault Bytes
  encode_evaluate_tuple id none to = err value_nil
  encode_evaluate_tuple id (some v) to =
      if is_neg v
      then err value_negative
      else if exceeds_256_bits v
      then err value_exceeds_uint256
      else packed (abi.pack id v to)

-- The type assertions on the three values.
to_address : Bytes → Option ℤ → AbiValue → Outcome CodecFault (Hash × Option ℤ × Address)
to_address id v (address to) = ok (id, v, to)
to_address id v _ = err (wrong_field 2)

value_and_to : Bytes → AbiValue → AbiValue → Outcome CodecFault (Hash × Option ℤ × Address)
unfolding to_address
value_and_to id (big_int v) third = to_address id v third
value_and_to id _ third = err (wrong_field 1)

fields : AbiValue → AbiValue → AbiValue → Outcome CodecFault (Hash × Option ℤ × Address)
unfolding value_and_to
fields (bytes32 id) second third = value_and_to id second third
fields _ second third = err (wrong_field 0)

three_values : List AbiValue → Outcome CodecFault (Hash × Option ℤ × Address)
unfolding fields
three_values (a ∷ b ∷ c ∷ []) = fields a b c
three_values values = err (wrong_count (length values))

abbrev unpacked : Option (List AbiValue) → Outcome CodecFault (List AbiValue)
unpacked none = err unpack_failed
unpacked (some values) = ok values

module _ (abi : Abi) where
  unfoldable pub decode_evaluate_tuple : Bytes → Outcome CodecFault (Hash × Option ℤ × Address)
  unfolding three_values
  decode_evaluate_tuple buf =
      if length buf == evaluate_tuple_size
      then (do values ← unpacked (abi.unpack buf); three_values values)
      else err (wrong_size (length buf))

  unfoldable pub encode_request : EvaluateRequest → Outcome CodecFault Bytes
  unfolding encode_evaluate_tuple
  encode_request r = encode_evaluate_tuple abi r.policy_id r.rainfall_tenths_mm r.payout_to

  unfoldable pub encode_response : EvaluateResponse → Outcome CodecFault Bytes
  unfolding encode_evaluate_tuple
  encode_response r = encode_evaluate_tuple abi r.policy_id r.payout_amount r.payout_to

  unfoldable pub decode_evaluate_request : Bytes → Outcome DecodeFault EvaluateRequest
  decode_evaluate_request buf = do
    (id, rainfall, to) ← map_err evaluate_request (decode_evaluate_tuple buf)
    ok (record { policy_id = id; rainfall_tenths_mm = rainfall; payout_to = to })

  unfoldable pub decode_evaluate_response : Bytes → Outcome DecodeFault EvaluateResponse
  decode_evaluate_response buf = do
    (id, payout, to) ← map_err evaluate_response (decode_evaluate_tuple buf)
    ok (record { policy_id = id; payout_amount = payout; payout_to = to })
