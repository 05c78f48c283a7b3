-- ===== src/Agent/Register/Kept.antt =====
-- `bindTrigger` and `sealModel` of go/tools/cmd/aegis/cmd_register.go: the parts of the record that they
-- do not touch.
use aegis_labs.Common.{
  ◌≡◌, refl, Option, none, some, Outcome, ok, err, panic, Bool-cases, inl, inr, ◌==◌,
}
use aegis_labs.Common.Bytes.{Bytes, Hash}
use aegis_labs.Model.{ModelParameters}
use aegis_labs.Payout.Decision.{ActionResponse}
use aegis_labs.Instructions.{SendFault, send_instruction}
use aegis_labs.Tee.Results.{ResultFault, wait_for_action_result}
use aegis_labs.Agent.Records.{PolicyRecord}
use aegis_labs.Agent.Register.{
  RegisterFault, SealCalls, BindCalls, hashed_as, bind_trigger, sealed_model, accepted_by,
  after_register, send_sealed, seal_model,
}

-- The same name, id and request, and settled as before.
abbrev pub Kept : PolicyRecord → PolicyRecord → Type 0
Kept r r' =
    (r'.name ≡ r.name)
    × (r'.policy_id ≡ r.policy_id)
    × (r'.settled ≡ r.settled)
    × (r'.abi_encoded_request ≡ r.abi_encoded_request)

hashed_as-Kept :
    (calls : BindCalls) (r : PolicyRecord) (h : Option Hash) → Kept r (hashed_as calls r h).1
unfolding hashed_as
hashed_as-Kept calls r none = (refl, refl, refl, refl)
hashed_as-Kept calls r (some h) = (refl, refl, refl, refl)

pub bind_trigger-Kept : (calls : BindCalls) (r : PolicyRecord) → Kept r (bind_trigger calls r).1
unfolding bind_trigger
bind_trigger-Kept calls r = hashed_as-Kept calls r calls.trigger_request_hash

module _ {K E : Type 0} (calls : SealCalls K E) where
  accepted_by-Kept :
      (r : PolicyRecord) (o : Outcome ResultFault ActionResponse) → Kept r (accepted_by calls r o).1
  unfolding accepted_by
  accepted_by-Kept r (err f) = (refl, refl, refl, refl)
  accepted_by-Kept r panic = (refl, refl, refl, refl)
  accepted_by-Kept r (ok b) = elim (Bool-cases (b.result.status == 0)) [
    | inl e ↦ rw e (refl, refl, refl, refl)
    | inr e ↦ rw e (refl, refl, refl, refl)
  ]

  after_register-Kept :
      (r : PolicyRecord) (o : Outcome SendFault (Hash × Hash)) → Kept r (after_register calls r o).1
  unfolding after_register
  after_register-Kept r (err f) = (refl, refl, refl, refl)
  after_register-Kept r panic = (refl, refl, refl, refl)
  after_register-Kept r (ok (instruction, tx)) =
      accepted_by-Kept (record r { register_instruction_id = calls.hash_hex instruction })
        (wait_for_action_result calls.read_response (calls.waits instruction))

  send_sealed-Kept :
      (r : PolicyRecord) (o : Outcome RegisterFault Bytes) → Kept r (send_sealed calls r o).1
  unfolding send_sealed
  send_sealed-Kept r (err f) = (refl, refl, refl, refl)
  send_sealed-Kept r panic = (refl, refl, refl, refl)
  send_sealed-Kept r (ok ciphertext) =
      after_register-Kept r (send_instruction (calls.register_calls ciphertext) calls.register_fee)

  pub seal_model-Kept :
      (r : PolicyRecord) (model : ModelParameters) → Kept r (seal_model calls r model).1
  unfolding seal_model
  seal_model-Kept r model = send_sealed-Kept r (sealed_model calls r model)
