-- ===== src/Agent/Score.antt =====
-- `scoreInEnclave` of go/tools/cmd/aegis/cmd_evaluate.go. What is only printed is left out.
use aegis_labs.Common.{
  Bool, true, false, not, Option, if◌then◌else◌, ◌==◌, Outcome, ok, err, panic, map_err, length,
}
use aegis_labs.Common.{◌>>=◌ as bind}
use aegis_labs.Common.Exec.{pure, lift, gets, ◌>>=◌, ◌>>◌}
use aegis_labs.Common.Bytes.{Bytes, Hash, Address, bytes_eq}
use aegis_labs.Common.Int.{ℤ}
use aegis_labs.Model.{EvaluateResponse}
use aegis_labs.Model.Codec.{decode_evaluate_response}
use aegis_labs.Instructions.{
  SendFault, waiting_for_transaction, no_logs, parsing_event, transaction_status, send_instruction,
}
use aegis_labs.Payout.Decision.{ActionResponse}
use aegis_labs.Tee.Results.{wait_for_action_result}
use aegis_labs.Agent.Sealing.{big_text}
use aegis_labs.Agent.World.{
  Outside, Settings, Run, EvaluateFault, evaluated, evaluating, no_action_result,
  could_not_evaluate, decoding_decision, other_policy, other_recipient, no_signature, called, moved,
  modify, save_with,
}

-- Whether the transaction was sent before the call ended.
instruction_sent : Outcome SendFault (Hash × Hash) → Bool
instruction_sent (ok ids) = true
instruction_sent (err waiting_for_transaction) = true
instruction_sent (err no_logs) = true
instruction_sent (err parsing_event) = true
instruction_sent (err (transaction_status status)) = true
instruction_sent (err _) = false
instruction_sent panic = false

-- The checks on a decision, for a policy and a recipient.
unfoldable pub accepted :
    Hash → Address → Bytes → EvaluateResponse → Outcome EvaluateFault EvaluateResponse
accepted id payout_to signature decision =
    if not (bytes_eq decision.policy_id id)
    then err (other_policy decision.policy_id)
    else if not (bytes_eq decision.payout_to payout_to)
    then err (other_recipient decision.payout_to)
    else if length signature == 0
    then err no_signature
    else ok decision

-- The checks on the enclave's answer.
unfoldable pub checked_decision :
    {S P : Type 0}
    → Outside S P
    → Hash
    → Address
    → ActionResponse
    → Outcome EvaluateFault EvaluateResponse
unfolding accepted
checked_decision o id payout_to response =
    if response.result.status == 0
    then err (could_not_evaluate response.result.log)
    else bind
        (map_err decoding_decision (decode_evaluate_response o.abi response.result.result_data))
        (accepted id payout_to response.signature)

module _ {S P : Type 0} (o : Outside S P) (settings : Settings) where
  unfoldable pub send_evaluate : P → Run S (Hash × Hash)
  unfolding instruction_sent
  send_evaluate p s =
      let id = o.hex_to_hash s.current.policy_id in
      let answer =
        send_instruction (o.evaluate_calls id settings.payout_to p s.world.outside)
          o.evaluate_fee in
      (
        map_err evaluating answer,
        called (o.after_evaluate id settings.payout_to p) (instruction_sent answer)
            (evaluated id settings.payout_to) s,
      )

  unfoldable pub await_result : Hash → Run S ActionResponse
  await_result instruction s = (
    map_err no_action_result
        (wait_for_action_result o.read_response (o.waits instruction s.world.outside)),
    moved (o.after_result instruction) s,
  )

  unfoldable pub note_instruction : Hash → Run S (Unit {0})
  note_instruction id = modify (λ r. record r { evaluate_instruction_id = o.hash_hex id })

  unfoldable pub note_payout : Option ℤ → Run S (Unit {0})
  note_payout amount = modify (λ r. record r { payout_units = big_text amount })

  unfoldable pub policy_hash : Run S Hash
  policy_hash = gets (λ s. o.hex_to_hash s.current.policy_id)

  -- The end of `scoreInEnclave`: the payout is recorded.
  unfoldable pub pass_on :
      ActionResponse → EvaluateResponse → Run S (EvaluateResponse × ActionResponse)
  unfolding note_payout
  pass_on response decision = do
    note_payout decision.payout_amount
    save_with o
    pure (decision, response)

  -- The part of `scoreInEnclave` behind the record of its instruction.
  unfoldable pub collect : Hash → Run S (EvaluateResponse × ActionResponse)
  unfolding await_result pass_on policy_hash
  collect instruction = do
    response ← await_result instruction
    id ← policy_hash
    decision ← lift (checked_decision o id settings.payout_to response)
    pass_on response decision

  unfoldable pub score_in_enclave : P → Run S (EvaluateResponse × ActionResponse)
  unfolding send_evaluate note_instruction collect
  score_in_enclave p = do
    sent ← send_evaluate p
    note_instruction sent.0
    save_with o
    collect sent.0
