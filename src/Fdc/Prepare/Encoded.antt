-- ===== src/Fdc/Prepare/Encoded.antt =====
-- `PrepareRequest` of go/tools/pkg/fdc/web2json.go: what it returns are bytes.
use aegis_labs.Common.{
  ◌≡◌, refl, ◌∙◌, ℕ, ◌<◌, ◌+◌, ◌*◌, String, Option, none, some, ◌∷◌, ok, All, arith, bind_ok,
  map_err, [], str_eq, Bool-cases, inl, inr,
}
use aegis_labs.Common.Bytes.{Bytes}
use aegis_labs.Fdc.Feed.{RequestBody}
use aegis_labs.Fdc.HexText.{
  digit_value, byte_of, decode_string, hexutil_decode, IsByte, encode_attestation_name,
}
use aegis_labs.Fdc.Prepare.{
  Verifier, PrepareResponse, or_fault, name_fault, encoding_payload, post_fault, decoding_response,
  post, decoding_request, encoded_request, prepare_request,
}
use Prim.Native.Char.{code}

digit_below : (c v : ℕ) → digit_value c ≡ some v → v < 16
unfolding digit_value
digit_below c v h = ground arith

byte_of_ok :
    (high low : Option ℕ) (rest : Option Bytes) (b : Bytes)
    → ((v : ℕ) → high ≡ some v → v < 16)
    → ((v : ℕ) → low ≡ some v → v < 16)
    → ((r : Bytes) → rest ≡ some r → All IsByte r)
    → byte_of high low rest ≡ some b
    → All IsByte b
byte_of_ok none low rest b p q r h = absurd cc
byte_of_ok (some x) none rest b p q r h = absurd cc
byte_of_ok (some x) (some y) none b p q r h = absurd cc
byte_of_ok (some x) (some y) (some more) b p q r h =
    let below = p x refl in
    let under = q y refl in
    let is : (x * 16 + y) ∷ more ≡ b = cc in rw⁻¹ is (omega arith, r more refl)

pub decode_string-All : (s : String) (b : Bytes) → decode_string s ≡ some b → All IsByte b
unfolding decode_string
decode_string-All String.[] b h = let is : [] ≡ b = cc in rw⁻¹ is tt
decode_string-All (String.◌∷◌ x String.[]) b h = absurd cc
decode_string-All (String.◌∷◌ x (String.◌∷◌ y rest)) b h =
    byte_of_ok (digit_value (code x)) (digit_value (code y)) (decode_string rest) b
      (digit_below (code x)) (digit_below (code y)) (decode_string-All rest) h

encoded_request_bytes : (p : PrepareResponse) (b : Bytes) → encoded_request p ≡ ok b → All IsByte b
unfolding encoded_request hexutil_decode or_fault
encoded_request_bytes p b h = elim (Bool-cases (str_eq p.status "VALID")) [
  | inl e ↦ given (hexutil_decode p.abi_encoded_request) refl (rw e at h)
  | inr e ↦ absurd (ground (arith, h, e))
]
  where
    given :
        (o : Option Bytes)
        → hexutil_decode p.abi_encoded_request ≡ o
        → or_fault decoding_request o ≡ ok b
        → All IsByte b
    given none is k = absurd cc
    given (some d) is k = decode_string-All _ b (is ∙ cc)

pub prepare_request-All :
    (v : Verifier) (body : RequestBody) (b : Bytes) → prepare_request v body ≡ ok b → All IsByte b
unfolding prepare_request
prepare_request-All v body b h =
    let (kind, named, h1) =
      bind_ok (map_err name_fault (encode_attestation_name v.web2json_name)) _ h in
    let (source, also, h2) =
      bind_ok (map_err name_fault (encode_attestation_name v.public_web2_name)) _ h1 in
    let (payload, marshalled, h3) =
      bind_ok (or_fault encoding_payload (v.marshal kind source body)) _ h2 in
    let (answer, posted, h4) = bind_ok (map_err post_fault (post (v.send payload))) _ h3 in
    let (parsed, read, h5) = bind_ok (or_fault decoding_response (v.unmarshal answer)) _ h4 in
    encoded_request_bytes parsed b h5
