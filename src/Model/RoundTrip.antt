-- ===== src/Model/RoundTrip.antt =====
-- go/pkg/types/register.go: what the two directions of the tuple codec promise one another.
use aegis_labs.Common.{ℕ, ◌<◌, ◌≡◌, false, some, arith, length, ok}
use aegis_labs.Common.Int.{pos, exceeds_256_bits, uint256_mod}
use aegis_labs.Common.Bytes.{Bytes, Hash, Address}
use aegis_labs.Model.{EvaluateResponse}
use aegis_labs.Model.Abi.{Abi, AbiLaws, FitsTuple, tuple_bytes, length-tuple_bytes}
use aegis_labs.Model.Codec.{
  encode_evaluate_tuple, decode_evaluate_tuple, encode_response, decode_evaluate_response,
}

fits_256 : (v : ℕ) → v < uint256_mod → exceeds_256_bits (pos v) ≡ false
fits_256 v h = ground arith

module _ (abi : Abi) (laws : AbiLaws abi) (id : Hash) (value : ℕ) (to : Address)
    (h : FitsTuple id value to) where
  pub encode_tuple_fits :
      encode_evaluate_tuple abi id (some (pos value)) to ≡ ok (tuple_bytes id value to)
  unfolding encode_evaluate_tuple
  encode_tuple_fits = rw (fits_256 value h.value_256) (rw (laws.pack_fits id value to h))

  pub decode_tuple_fits :
      decode_evaluate_tuple abi (tuple_bytes id value to) ≡ ok (id, some (pos value), to)
  unfolding decode_evaluate_tuple
  decode_tuple_fits = rw (length-tuple_bytes id value to h) (rw (laws.unpack_fits id value to h))

-- A response whose fields fit the tuple is encoded without error, in 96 bytes, and the consumer's
-- decoder reads the same response back.
pub decode-encode_response :
    (abi : Abi)
    → AbiLaws abi
    → (r : EvaluateResponse) (v : ℕ) → r.payout_amount ≡ some (pos v)
    → FitsTuple r.policy_id v r.payout_to
    → (b : Bytes) × (encode_response abi r ≡ ok b)
      × (length b ≡ 96)
      × (decode_evaluate_response abi b ≡ ok r)
unfolding encode_response decode_evaluate_response
decode-encode_response abi laws r v e h = (
  tuple_bytes r.policy_id v r.payout_to,
  rw e (encode_tuple_fits abi laws r.policy_id v r.payout_to h),
  length-tuple_bytes r.policy_id v r.payout_to h,
  rw (decode_tuple_fits abi laws r.policy_id v r.payout_to h) (cc),
)
