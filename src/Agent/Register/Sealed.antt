-- ===== src/Agent/Register/Sealed.antt =====
-- `sealModel` of go/tools/cmd/aegis/cmd_register.go: what it sends, and when the record says that the
-- model is loaded.
use aegis_labs.Common.{
  ◌≡◌, ◌≢◌, refl, ◌∙◌, ap, sym, Option, none, some, true, Outcome, ok, err, panic, arith, bind_ok,
  Bool-cases, inl, inr, ◌==◌, All,
}
use aegis_labs.Common.Bytes.{Bytes, Hash}
use aegis_labs.Model.{ModelParameters}
use aegis_labs.Payout.Decision.{ActionResponse}
use aegis_labs.Instructions.{SendFault, send_instruction}
use aegis_labs.Tee.Results.{ResultFault, wait_for_action_result}
use aegis_labs.Agent.Records.{PolicyRecord}
use aegis_labs.Agent.Sealing.{
  SealFault, assert_sealed, assert_sealed_iff, secret_strings, text_bytes, Occurs,
}
use aegis_labs.Agent.Register.{
  RegisterFault, SealCalls, fetching_key, parsing_key, encoding_request, sealing_model, or_fault,
  checked_seal, sealed_model, accepted_by, after_register, send_sealed, seal_model,
}

module _ {K E : Type 0} (calls : SealCalls K E) where
  checked_seal_ok :
      (f : Option SealFault) (given sent : Bytes)
      → checked_seal calls f given ≡ ok sent
      → (f ≡ none) × (given ≡ sent)
  unfolding checked_seal
  checked_seal_ok none given sent h = (refl, cc)
  checked_seal_ok (some f) given sent h = absurd cc

  sealed_model_ok :
      (r : PolicyRecord) (model : ModelParameters) (ciphertext : Bytes)
      → sealed_model calls r model ≡ ok ciphertext
      → assert_sealed model ciphertext ≡ none
  unfolding sealed_model
  sealed_model_ok r model ciphertext h =
      let (key, fetched, h1) = bind_ok (or_fault fetching_key calls.tee_key) _ h in
      let (public, parsed, h2) = bind_ok (or_fault parsing_key (calls.parse_key key)) _ h1 in
      let (plaintext, encoded, h3) =
        bind_ok
          (or_fault encoding_request (
            calls.encode_request
              (record { policy_id = calls.hex_to_hash r.policy_id; model = model })))
          _ h2 in
      let (sealed, encrypted, h4) =
        bind_ok (or_fault sealing_model (calls.encrypt public plaintext)) _ h3 in
      let (clear, same) = checked_seal_ok (assert_sealed model sealed) sealed ciphertext h4 in
      ap (assert_sealed model) (sym same) ∙ clear

  accepted_by_ok :
      (r : PolicyRecord) (o : Outcome ResultFault ActionResponse) (a : ActionResponse)
      → (accepted_by calls r o).0 ≡ ok a
      → (o ≡ ok a) × (a.result.status ≢ 0) × ((accepted_by calls r o).1.model_registered ≡ true)
  unfolding accepted_by
  accepted_by_ok r (err f) a h = absurd cc
  accepted_by_ok r panic a h = absurd cc
  accepted_by_ok r (ok b) a h = elim (Bool-cases (b.result.status == 0)) [
    | inl e ↦ absurd (ground (arith, h, e))
    | inr e ↦
        let same : b ≡ a = ground (arith, h, e) in
        (ap ok same, λ zero. ground (arith, e, same, zero), rw e refl)
  ]

  after_register_ok :
      (r : PolicyRecord) (o : Outcome SendFault (Hash × Hash)) (a : ActionResponse)
      → (after_register calls r o).0 ≡ ok a
      → (instruction tx : Hash) × (o ≡ ok (instruction, tx))
        × (wait_for_action_result calls.read_response (calls.waits instruction) ≡ ok a)
        × (a.result.status ≢ 0)
        × ((after_register calls r o).1.model_registered ≡ true)
  unfolding after_register
  after_register_ok r (err f) a h = absurd cc
  after_register_ok r panic a h = absurd cc
  after_register_ok r (ok (instruction, tx)) a h =
      let (waited, success, loaded) =
        accepted_by_ok (record r { register_instruction_id = calls.hash_hex instruction })
          (wait_for_action_result calls.read_response (calls.waits instruction)) a h in
      (instruction, tx, refl, waited, success, loaded)

  send_sealed_ok :
      (r : PolicyRecord) (o : Outcome RegisterFault Bytes) (a : ActionResponse)
      → (send_sealed calls r o).0 ≡ ok a
      → (ciphertext : Bytes) × (o ≡ ok ciphertext)
        × (instruction tx : Hash) × (send_instruction
              (calls.register_calls ciphertext)
              calls.register_fee
            ≡ ok (instruction, tx))
        × (wait_for_action_result calls.read_response (calls.waits instruction) ≡ ok a)
        × (a.result.status ≢ 0)
        × ((send_sealed calls r o).1.model_registered ≡ true)
  unfolding send_sealed
  send_sealed_ok r (err f) a h = absurd cc
  send_sealed_ok r panic a h = absurd cc
  send_sealed_ok r (ok ciphertext) a h =
      let (instruction, tx, sent, waited, success, loaded) = after_register_ok r _ a h in
      (ciphertext, refl, instruction, tx, sent, waited, success, loaded)

  -- A model that is sealed without an error was sent as a ciphertext in which the digits of none of its five
  -- parameters stand, the answer to that instruction has a status other than zero, which a pending one has
  -- too, and the record then says that the model is registered.
  pub seal_model_ok :
      (r : PolicyRecord) (model : ModelParameters) (a : ActionResponse)
      → (seal_model calls r model).0 ≡ ok a
      → (ciphertext : Bytes) × (sealed_model calls r model ≡ ok ciphertext)
        × (instruction tx : Hash) × All
            (λ secret. ¬ Occurs (text_bytes secret) ciphertext)
            (secret_strings model)
        × (send_instruction (calls.register_calls ciphertext) calls.register_fee
            ≡ ok (instruction, tx))
        × (wait_for_action_result calls.read_response (calls.waits instruction) ≡ ok a)
        × (a.result.status ≢ 0)
        × ((seal_model calls r model).1.model_registered ≡ true)
  unfolding seal_model
  seal_model_ok r model a h =
      let (ciphertext, sealed, instruction, tx, sent, waited, success, loaded) =
        send_sealed_ok r (sealed_model calls r model) a h in
      (
        ciphertext,
        sealed,
        instruction,
        tx,
        (assert_sealed_iff model ciphertext).0 (sealed_model_ok r model ciphertext sealed),
        sent,
        waited,
        success,
        loaded,
      )
