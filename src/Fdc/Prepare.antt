-- ===== src/Fdc/Prepare.antt =====
-- `PrepareRequest` and `post` of go/tools/pkg/fdc/web2json.go: the verifier encodes a request. The JSON
-- codec and what the network answers are the parameter `Verifier`.
pub mod Encoded
use aegis_labs.Common.{
  String, ◌==◌, Option, none, some, if◌then◌else◌, Outcome, ok, err, map_err, ◌>>=◌, str_eq,
}
use aegis_labs.Common.Bytes.{Bytes}
use aegis_labs.Extension.Actions.{HttpResponse}
use aegis_labs.Fdc.HexText.{NameFault, encode_attestation_name, hexutil_decode}
use aegis_labs.Fdc.Feed.{RequestBody}

-- What a POST comes to.
pub data Sending : Type 0 where
  not_built no_answer cut_off : Sending
  answered : HttpResponse → Sending

pub data PostFault : Type 0 where
  building_request calling reading_response : PostFault
  returned : HttpResponse → PostFault

unfoldable pub post : Sending → Outcome PostFault Bytes
post not_built = err building_request
post no_answer = err calling
post cut_off = err reading_response
post (answered r) = if r.status == 200 then ok r.body else err (returned r)

pub record PrepareResponse : Type 0 where
  pub status : String
  pub abi_encoded_request : String

pub record Verifier : Type 0 where
  -- the two names as bytes
  pub web2json_name : Bytes
  pub public_web2_name : Bytes
  pub marshal : String → String → RequestBody → Option Bytes
  pub send : Bytes → Sending
  pub unmarshal : Bytes → Option PrepareResponse

pub data PrepareFault : Type 0 where
  name_fault : NameFault → PrepareFault
  encoding_payload : PrepareFault
  post_fault : PostFault → PrepareFault
  decoding_response : PrepareFault
  rejected : String → PrepareFault
  decoding_request : PrepareFault

or_fault : {A : Type 0} → PrepareFault → Option A → Outcome PrepareFault A
or_fault f none = err f
or_fault f (some a) = ok a

-- What is left to do with an answer that parses.
encoded_request : PrepareResponse → Outcome PrepareFault Bytes
unfolding or_fault
encoded_request parsed =
    if str_eq parsed.status "VALID"
    then or_fault decoding_request (hexutil_decode parsed.abi_encoded_request)
    else err (rejected parsed.status)

unfoldable pub prepare_request : Verifier → RequestBody → Outcome PrepareFault Bytes
unfolding or_fault encoded_request
prepare_request v body = do
  attestation_type ← map_err name_fault (encode_attestation_name v.web2json_name)
  source_id ← map_err name_fault (encode_attestation_name v.public_web2_name)
  payload ← or_fault encoding_payload (v.marshal attestation_type source_id body)
  answer ← map_err post_fault (post (v.send payload))
  parsed ← or_fault decoding_response (v.unmarshal answer)
  encoded_request parsed
