-- ===== src/Agent/Evaluate/Scored.antt =====
-- `scoreInEnclave` of go/tools/cmd/aegis/cmd_evaluate.go: the answer that a run goes on with.
use aegis_labs.Common.{
  ◌≡◌, ◌≢◌, ◌∙◌, ap, sym, not, ◌==◌, ok, arith, map_err, map_err_ok, bind_ok, else_ok, ok_inj,
  length,
}
use aegis_labs.Common.Exec.{run_ok, lift, pure, ◌>>=◌, ◌>>◌}
use aegis_labs.Common.Bytes.{Bytes, Hash, Address, bytes_eq, bytes_eq_iff}
use aegis_labs.Model.{EvaluateResponse}
use aegis_labs.Model.Codec.{decode_evaluate_response}
use aegis_labs.Instructions.{send_instruction}
use aegis_labs.Payout.Decision.{ActionResponse}
use aegis_labs.Tee.Results.{wait_for_action_result}
use aegis_labs.Agent.World.{
  evaluating, no_action_result, Outside, Session, Run, Settings, could_not_evaluate,
  decoding_decision, other_policy, other_recipient, no_signature, save_with, save_keeps,
}
use aegis_labs.Agent.Score.{
  collect, pass_on, accepted, checked_decision, send_evaluate, await_result, note_instruction,
  note_payout, policy_hash, score_in_enclave,
}

accepted_ok :
    (id : Hash) (to : Address) (signature : Bytes) (d decision : EvaluateResponse)
    → accepted id to signature d ≡ ok decision
    → (d ≡ decision) × (d.policy_id ≡ id) × (d.payout_to ≡ to) × (length signature ≢ 0)
unfolding accepted
accepted_ok id to signature d decision h =
    let (policy, h1) = else_ok (not (bytes_eq d.policy_id id)) (other_policy d.policy_id) _ h in
    let (recipient, h2) =
      else_ok (not (bytes_eq d.payout_to to)) (other_recipient d.payout_to) _ h1 in
    let (signed, same) = else_ok (length signature == 0) no_signature _ h2 in
    (
      cc,
      (bytes_eq_iff d.policy_id id).0 (ground (arith, policy)),
      (bytes_eq_iff d.payout_to to).0 (ground (arith, recipient)),
      λ none. ground (arith, signed),
    )

module _ {S P : Type 0} (o : Outside S P) where
  -- A decision that passes the checks is the data of an answer that is no error, for the policy and the
  -- recipient that were asked for, with a signature that is not empty.
  checked_decision_ok :
      (id : Hash) (to : Address) (response : ActionResponse) (decision : EvaluateResponse)
      → checked_decision o id to response ≡ ok decision
      → (response.result.status ≢ 0)
        × (decode_evaluate_response o.abi response.result.result_data ≡ ok decision)
        × (decision.policy_id ≡ id)
        × (decision.payout_to ≡ to)
        × (length response.signature ≢ 0)
  unfolding checked_decision
  checked_decision_ok id to response decision h =
      let (success, h1) =
        else_ok (response.result.status == 0) (could_not_evaluate response.result.log) _ h in
      let (d, decoded, h2) =
        bind_ok
          (map_err decoding_decision (decode_evaluate_response o.abi response.result.result_data)) _
          h1 in
      let (same, policy, recipient, signed) = accepted_ok id to response.signature d decision h2 in
      (
        λ zero. ground (arith, success),
        map_err_ok decoding_decision _ decoded ∙ ap ok same,
        ap (λ e. e.policy_id) (sym same) ∙ policy,
        ap (λ e. e.payout_to) (sym same) ∙ recipient,
        signed,
      )

module _ {S P : Type 0} (o : Outside S P) (settings : Settings) where
  pass_on_ok :
      (response : ActionResponse) (decision : EvaluateResponse) (s : Session S)
      (answer : EvaluateResponse × ActionResponse)
      → (pass_on o settings response decision s).0 ≡ ok answer
      → (decision, response) ≡ answer
  unfolding pass_on
  pass_on_ok response decision s answer h =
      let done : Run S (EvaluateResponse × ActionResponse) = pure (decision, response) in
      let (u, noted, h1, is) =
        run_ok (note_payout o settings decision.payout_amount) (λ u. save_with o >> done) s h in
      let (u', saved, h2, is') =
        run_ok (save_with o) (λ u. done) (note_payout o settings decision.payout_amount s).1 h1 in
      ok_inj h2

  checked_answer :
      (s : Session S) (id : Hash) (d : EvaluateResponse) (given response : ActionResponse)
      → ((lift (checked_decision o id settings.payout_to given) >>= pass_on o settings given) s).0
        ≡ ok (d, response)
      → (given ≡ response) × (checked_decision o id settings.payout_to given ≡ ok d)
  checked_answer s id d given response h =
      let (decision, checked, h1, is) =
        run_ok (lift (checked_decision o id settings.payout_to given)) (pass_on o settings given) s
          h in
      let same = pass_on_ok given decision s (d, response) h1 in
      (ap (λ a. a.1) same, checked ∙ ap (λ a. ok a.0) same)

  collect_ok :
      (instruction : Hash) (s : Session S) (d : EvaluateResponse) (response : ActionResponse)
      → (collect o settings instruction s).0 ≡ ok (d, response)
      → (wait_for_action_result o.read_response (o.waits instruction s.world.outside) ≡ ok response)
        × (checked_decision o (o.hex_to_hash s.current.policy_id) settings.payout_to response
            ≡ ok d)
  unfolding collect await_result policy_hash
  collect_ok instruction s d response h =
      let (given, waited, h1, is) = run_ok (await_result o settings instruction) _ s h in
      let (same, checked) =
        checked_answer (await_result o settings instruction s).1 (o.hex_to_hash s.current.policy_id)
          d given response h1 in
      (
        map_err_ok no_action_result _ waited ∙ ap ok same,
        ap (checked_decision o (o.hex_to_hash s.current.policy_id) settings.payout_to) (sym same)
            ∙ checked,
      )

  -- The part of `scoreInEnclave` behind the transaction and its record.
  collected :
      (instruction : Hash) (s : Session S) (d : EvaluateResponse) (response : ActionResponse)
      → ((save_with o >> collect o settings instruction) s).0 ≡ ok (d, response)
      → (at : S) × (wait_for_action_result o.read_response (o.waits instruction at) ≡ ok response)
        × (checked_decision o (o.hex_to_hash s.current.policy_id) settings.payout_to response
            ≡ ok d)
  collected instruction s d response h =
      let (u, saved, h1, is) = run_ok (save_with o) (λ u. collect o settings instruction) s h in
      let (waited, checked) = collect_ok instruction (save_with o s).1 d response h1 in
      (
        (save_with o s).1.world.outside,
        waited,
        ap (λ r. checked_decision o (o.hex_to_hash r.policy_id) settings.payout_to response)
              (sym (save_keeps o s).2)
            ∙ checked,
      )

  -- An answer that a run goes on with is the result of the instruction that the run sent, with the fee,
  -- for its policy, its recipient and its proof; its status is not zero, its data decode to the
  -- decision, the decision is for that policy and that recipient, and its signature is not empty. The
  -- status may be that of a pending answer, and the signature is not verified.
  pub score_in_enclave_ok :
      (p : P) (s : Session S) (d : EvaluateResponse) (response : ActionResponse)
      → (score_in_enclave o settings p s).0 ≡ ok (d, response)
      → (instruction tx : Hash) × (at : S) × (send_instruction
            (o.evaluate_calls
              (o.hex_to_hash s.current.policy_id)
              settings.payout_to
              p
              s.world.outside)
            o.evaluate_fee
          ≡ ok (instruction, tx))
        × (wait_for_action_result o.read_response (o.waits instruction at) ≡ ok response)
        × (response.result.status ≢ 0)
        × (decode_evaluate_response o.abi response.result.result_data ≡ ok d)
        × (d.policy_id ≡ o.hex_to_hash s.current.policy_id)
        × (d.payout_to ≡ settings.payout_to)
        × (length response.signature ≢ 0)
  unfolding score_in_enclave send_evaluate note_instruction
  score_in_enclave_ok p s d response h =
      let (ids, sent, h1, is) = run_ok (send_evaluate o settings p) _ s h in
      let noted = (send_evaluate o settings p s).1 in
      let (at, waited, checked) =
        collected ids.0
          (record noted {
            current = record noted.current { evaluate_instruction_id = o.hash_hex ids.0 };
          })
          d response h1 in
      let (success, decoded, policy, recipient, signed) =
        checked_decision_ok o (o.hex_to_hash s.current.policy_id) settings.payout_to response d
          checked in
      (
        ids.0,
        ids.1,
        at,
        map_err_ok evaluating _ sent,
        waited,
        success,
        decoded,
        policy,
        recipient,
        signed,
      )
