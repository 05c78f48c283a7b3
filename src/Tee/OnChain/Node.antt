-- ===== src/Tee/OnChain/Node.antt =====
-- `AvailabilityCheckResult` of go/tools/pkg/fccutils/registration.go, whose proxy and ABI decoders are the parameter
-- `ProofReader`, and the calls that `RegisterNode` makes.
use aegis_labs.Common.{
  ◌>>=◌, ℕ, Bool, not, Option, none, some, List, [], ◌∷◌, ◌++◌, true, false, Outcome, ok, err,
  panic, map_err, String,
}
use aegis_labs.Common.Bytes.{Bytes, Hash, Address, zero_address, bytes_eq}
use aegis_labs.Tee.Policy.{OutOfSync}
use aegis_labs.Tee.Registration.{Call, to_production, Calls}
use aegis_labs.Tee.OnChain.{to_production as bring_to_production}
use aegis_labs.Tee.Results.{action_result}
use aegis_labs.Extension.Actions.{HttpResponse}
use aegis_labs.Payout.Decision.{ActionResponse}
use aegis_labs.Tee.OnChain.{
  SignedTeeInfo, AvailabilityResponse, AvailabilityProof, MachineChain, OnChainFault, no_result,
  decoding_proof, decoding_header, decoding_request, decoding_response, or_fault,
  request_tee_attestation, pre_registration, request_availability_check,
}

-- The result's JSON.
pub record ProveResponse : Type 0 where
  pub response_header : Bytes
  pub request_body : Bytes
  pub response_body : Bytes
  pub data_provider_signatures : List Bytes

-- The answers of the verifier's proxy, and the decoders.
pub record ProofReader (H R : Type 0) : Type 0 where
  pub read_response : Bytes → Option ActionResponse
  pub gets : Hash → ℕ → Option HttpResponse
  pub unmarshal : Bytes → Option ProveResponse
  pub decode_header : Bytes → Option H
  pub decode_request : Bytes → Option R
  pub decode_response : Bytes → Option AvailabilityResponse

unfoldable pub availability_check_result :
    {H R : Type 0} → ProofReader H R → Hash → Outcome OnChainFault (AvailabilityProof H R)
unfolding or_fault
availability_check_result reader instruction = do
  a ← map_err no_result (action_result reader.read_response (reader.gets instruction))
  proof ← or_fault decoding_proof (reader.unmarshal a.result.result_data)
  header ← or_fault decoding_header (reader.decode_header proof.response_header)
  request ← or_fault decoding_request (reader.decode_request proof.request_body)
  response ← or_fault decoding_response (reader.decode_response proof.response_body)
  ok (record {
    signatures = proof.data_provider_signatures;
    header = header;
    request_body = request;
    response_body = response;
  })

unfoldable pub made : {A : Type 0} → Outcome OnChainFault A → Option A
made (ok a) = some a
made (err f) = none
made panic = none

unfoldable pub done : Outcome OnChainFault (Unit {0}) → Bool
done (ok u) = true
done (err f) = false
done panic = false

second : Outcome OnChainFault (Hash × Hash) → Option Hash
second (ok (challenge, id)) = some id
second (err f) = none
second panic = none

is_held : Option Address → Bool
is_held none = false
is_held (some held) = not (bytes_eq held zero_address)

-- What `RegisterNode` is given: the ids of the machine and of its proxy, and the verifier's machine.
pub record NodeArguments : Type 0 where
  pub tee_id : Address
  pub proxy_id : Address
  pub external_tee : Address
  pub info : SignedTeeInfo
  pub host_url : String
  pub consistency : Option OutOfSync
  pub saves : Bool
  pub removes : Bool

-- The calls of `RegisterNode`, for a machine whose ids could be read: what the chain answers is that of the chain
-- behind the calls made before. A panic stops the program; for the steps it is a call that gave nothing.
unfoldable pub node_calls :
    {H R : Type 0}
    → (List Call → MachineChain H R)
    → ProofReader H R
    → NodeArguments
    → List Call
    → Calls (AvailabilityProof H R)
unfolding made done second is_held
node_calls chain reader a journal = record {
  identified = true;
  is_registered = is_held ((chain journal).machine_of a.tee_id);
  attestation = made (request_tee_attestation (chain journal) a.tee_id);
  pre_registration = second (pre_registration (chain journal) a.info a.proxy_id a.host_url);
  consistency = a.consistency;
  availability = λ id. made (request_availability_check (chain journal) a.tee_id a.external_tee id);
  result_of = λ id. made (availability_check_result reader id);
  production = λ proof. done (
      bring_to_production (chain journal) (chain (journal ++ (to_production ∷ []))).machine_of
        proof);
  saves = a.saves;
  removes = a.removes;
}
