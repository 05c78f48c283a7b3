-- ===== src/Agent/Register.antt =====
-- `bindTrigger` and `sealModel` of go/tools/cmd/aegis/cmd_register.go. The contract, the proxy, the
-- encoder of the request and ECIES are the parameters `BindCalls` and `SealCalls`. A call returns
-- its outcome and the record, which it may have changed also when it fails.
pub mod Bound
pub mod Kept
pub mod Sealed
use aegis_labs.Common.{
  ◌>>=◌, ℕ, String, Bool, true, not, Option, none, some, if◌then◌else◌, ◌==◌, Outcome, ok, err,
  panic, map_err,
}
use aegis_labs.Common.Bytes.{Bytes, Hash, zero_hash, bytes_eq}
use aegis_labs.Model.{ModelParameters, RegisterModelRequest}
use aegis_labs.Extension.Actions.{Log}
use aegis_labs.Payout.Decision.{ActionResponse}
use aegis_labs.Instructions.{
  SenderCalls, TriggerCalls, SendFault, send_instruction, send_register_policy_trigger,
}
use aegis_labs.Tee.Results.{Waits, ResultFault, wait_for_action_result}
use aegis_labs.Agent.Records.{PolicyRecord}
use aegis_labs.Agent.Sealing.{SealFault, assert_sealed}

pub data RegisterFault : Type 0 where
  asking_hash binding_sender reading_binding : RegisterFault
  bound_to : Hash → RegisterFault
  registering_trigger registering_model : SendFault → RegisterFault
  fetching_key parsing_key encoding_request sealing_model : RegisterFault
  not_sealed : SealFault → RegisterFault
  no_result : ResultFault → RegisterFault
  model_rejected : Log → RegisterFault

pub record BindCalls : Type 0 where
  -- the contract's hash of the request
  pub trigger_request_hash : Option Hash
  pub binds_sender : Bool
  pub policy_trigger_request_hash : Hash → Option Hash
  pub trigger : TriggerCalls
  pub hash_hex : Hash → String
  pub hex_to_hash : String → Hash

-- How a policy came to be bound: it was, or a transaction bound it.
pub data Binding : Type 0 where
  already_bound : Binding
  bound_by : Hash → Binding

registered_by : Outcome RegisterFault Hash → Outcome RegisterFault Binding
registered_by (ok tx) = ok (bound_by tx)
registered_by (err f) = err f
registered_by panic = panic

against : BindCalls → Hash → Hash → Option Hash → Outcome RegisterFault Binding
unfolding registered_by
against calls id request_hash none = err reading_binding
against calls id request_hash (some existing) =
    if bytes_eq existing request_hash
    then ok already_bound
    else if not (bytes_eq existing zero_hash)
    then err (bound_to existing)
    else registered_by
        (map_err registering_trigger (send_register_policy_trigger calls.trigger id request_hash))

hashed_as : BindCalls → PolicyRecord → Option Hash → Outcome RegisterFault Binding × PolicyRecord
unfolding against
hashed_as calls r none = (err asking_hash, r)
hashed_as calls r (some h) = (
  if not calls.binds_sender
      then err binding_sender
      else against calls (calls.hex_to_hash r.policy_id) h
          (calls.policy_trigger_request_hash (calls.hex_to_hash r.policy_id)),
  record r { request_hash = calls.hash_hex h },
)

unfoldable pub bind_trigger :
    BindCalls → PolicyRecord → Outcome RegisterFault Binding × PolicyRecord
unfolding hashed_as
bind_trigger calls r = hashed_as calls r calls.trigger_request_hash

-- `K` is a public key as the proxy gives it, `E` one of ECIES.
pub record SealCalls (K E : Type 0) : Type 0 where
  pub tee_key : Option K
  pub parse_key : K → Option E
  pub encode_request : RegisterModelRequest → Option Bytes
  pub encrypt : E → Bytes → Option Bytes
  pub register_calls : Bytes → SenderCalls
  pub register_fee : ℕ
  pub read_response : Bytes → Option ActionResponse
  pub waits : Hash → Waits
  pub hash_hex : Hash → String
  pub hex_to_hash : String → Hash

or_fault : {A : Type 0} → RegisterFault → Option A → Outcome RegisterFault A
or_fault f none = err f
or_fault f (some a) = ok a

module _ {K E : Type 0} (calls : SealCalls K E) where
  checked_seal : Option SealFault → Bytes → Outcome RegisterFault Bytes
  checked_seal none ciphertext = ok ciphertext
  checked_seal (some f) ciphertext = err (not_sealed f)

  -- The ciphertext that is sent.
  unfoldable pub sealed_model : PolicyRecord → ModelParameters → Outcome RegisterFault Bytes
  unfolding or_fault checked_seal
  sealed_model r model = do
    key ← or_fault fetching_key calls.tee_key
    public ← or_fault parsing_key (calls.parse_key key)
    plaintext ←
        or_fault encoding_request (
          calls.encode_request
            (record { policy_id = calls.hex_to_hash r.policy_id; model = model }))
    ciphertext ← or_fault sealing_model (calls.encrypt public plaintext)
    checked_seal (assert_sealed model ciphertext) ciphertext

  accepted_by :
      PolicyRecord
      → Outcome ResultFault ActionResponse
      → Outcome RegisterFault ActionResponse × PolicyRecord
  accepted_by r (err f) = (err (no_result f), r)
  accepted_by r panic = (panic, r)
  accepted_by r (ok response) =
      if response.result.status == 0
      then (err (model_rejected response.result.log), r)
      else (ok response, record r { model_registered = true })

  after_register :
      PolicyRecord
      → Outcome SendFault (Hash × Hash)
      → Outcome RegisterFault ActionResponse × PolicyRecord
  unfolding accepted_by
  after_register r (err f) = (err (registering_model f), r)
  after_register r panic = (panic, r)
  after_register r (ok (instruction, tx)) =
      accepted_by (record r { register_instruction_id = calls.hash_hex instruction })
        (wait_for_action_result calls.read_response (calls.waits instruction))

  send_sealed :
      PolicyRecord
      → Outcome RegisterFault Bytes
      → Outcome RegisterFault ActionResponse × PolicyRecord
  unfolding after_register
  send_sealed r (err f) = (err f, r)
  send_sealed r panic = (panic, r)
  send_sealed r (ok ciphertext) =
      after_register r (send_instruction (calls.register_calls ciphertext) calls.register_fee)

  unfoldable pub seal_model :
      PolicyRecord → ModelParameters → Outcome RegisterFault ActionResponse × PolicyRecord
  unfolding send_sealed
  seal_model r model = send_sealed r (sealed_model r model)
