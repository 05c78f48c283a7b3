-- ===== src/EndToEnd/Settling.antt =====
-- go/tools/cmd/run-test/main.go: the enclave's decision, its settlement, and the replay of it.
use aegis_labs.Common.{
  ◌>>=◌, ◌>>◌, ℕ, ◌+◌, String, Bool, false, not, ◌&&◌, ◌||◌, none, some, List, [], ◌∷◌,
  if◌then◌else◌, ◌==◌, leb, length, take, Outcome, ok, err, panic, map_err,
}
use aegis_labs.Common.Int.{ℤ, pos, eq_ℤ, ◌-ℤ◌}
use aegis_labs.Common.Bytes.{Bytes, Hash, Address, bytes_eq}
use aegis_labs.Model.{EvaluateResponse}
use aegis_labs.Model.Codec.{decode_evaluate_response}
use aegis_labs.Instructions.{send_instruction}
use aegis_labs.Support.Revert.{simulate_and_decode_revert}
use aegis_labs.Fdc.HexText.{encode_to_string, trim_prefix}
use aegis_labs.Payout.Decision.{ActionResponse, Decision}
use aegis_labs.Payout.Settle.{Record, Settled, settle, settlement_of}
use aegis_labs.Tee.Results.{action_result}
use aegis_labs.Agent.Pool.{Pool, PoolCalls, balance}
use aegis_labs.Agent.Sealing.{is_prefix, text_bytes}
use aegis_labs.EndToEnd.Network.{
  TestPolicy, test_model, TestFault, Network, given, present, require, sending_evaluate, no_result,
  evaluate_failed, decoding_decision, other_policy, other_recipient, no_signature, scoring,
  other_payout, nothing_paid, paid_without_drought, no_decision, settling, settlement_record,
  recipient_moved, pool_moved, not_settled, recorded_amount, recorded_instruction,
  recorded_recipient, wet_season_paid, no_such_error, replay_accepted, pool_fault, packing_replay,
}
use aegis_labs.EndToEnd.Payout.{expected_payout}
use aegis_labs.EndToEnd.Steps.{assert_no_secrets, rainfall_of}

abbrev pub is_zero : ℤ → Bool
is_zero x = eq_ℤ x (pos 0)

-- `strings.ToLower` on the codes of a text, as far as it is ASCII.
abbrev lower : Bytes → Bytes
lower [] = []
lower (c ∷ cs) = (if leb 65 c && leb c 90 then c + 32 else c) ∷ lower cs

unfoldable pub matches_any_selector : String → List String → Bool
matches_any_selector revert_data [] = false
matches_any_selector revert_data (selector ∷ rest) =
    is_prefix (text_bytes selector) (lower (text_bytes (trim_prefix revert_data)))
    || matches_any_selector revert_data rest

unfoldable pub settled_decision : Settled → Outcome TestFault Decision
unfolding present
settled_decision s = elim s.fault [ none ↦ present s.decision | some f ↦ err (settling f) ]

module _ {P : Type 0} (net : Network P) (test_payout_to : Address) where
  -- The checks on the enclave's answer, and the amount.
  unfoldable pub accepted_payout : Hash → ActionResponse → EvaluateResponse → Outcome TestFault ℤ
  unfolding require present assert_no_secrets
  accepted_payout id response decision = do
    require other_policy (bytes_eq decision.policy_id id)
    require other_recipient (bytes_eq decision.payout_to test_payout_to)
    require no_signature (not (length response.signature == 0))
    assert_no_secrets (net.log_bytes response.result.log ∷ response.result.result_data ∷ [])
    present decision.payout_amount

  -- The answer is put into the record of the policy.
  unfoldable pub run_evaluate : TestPolicy P → Outcome TestFault (ℤ × TestPolicy P)
  unfolding present require accepted_payout
  run_evaluate p = do
    v ← present p.proof
    sent ←
        map_err sending_evaluate
          (send_instruction (net.evaluate_calls p.id test_payout_to v) net.fee)
    response ← map_err no_result (action_result net.read_response (net.gets sent.0))
    require (evaluate_failed response.result.log) (not (response.result.status == 0))
    decision ←
        map_err decoding_decision (decode_evaluate_response net.abi response.result.result_data)
    payout ← accepted_payout p.id response decision
    ok (payout, record p { decision = some response })

  -- The amount against the model's and against the season.
  unfoldable pub assert_payout : TestPolicy P → ℤ → ℤ → Outcome TestFault (Unit {0})
  unfolding require
  assert_payout p payout expected = do
    require other_payout (eq_ℤ payout expected)
    require nothing_paid (not (p.should_trigger && is_zero payout))
    require paid_without_drought (p.should_trigger || is_zero payout)

  unfoldable pub evaluate_policy : TestPolicy P → Outcome TestFault (TestPolicy P)
  unfolding rainfall_of run_evaluate assert_payout
  evaluate_policy p = do
    rainfall ← rainfall_of net p
    evaluated ← run_evaluate p
    expected ← map_err scoring (expected_payout test_model rainfall)
    assert_payout p evaluated.0 expected
    ok evaluated.1

  unfoldable pub balance_of : PoolCalls → Pool → Address → Outcome TestFault ℕ
  balance_of calls pool account = map_err pool_fault (balance calls pool account)

  -- What moved, and what the chain recorded, against the decision.
  unfoldable pub assert_recorded :
      TestPolicy P → ActionResponse → Decision → Record → Outcome TestFault (Unit {0})
  unfolding require
  assert_recorded p response d r = do
    require not_settled r.settled
    require recorded_amount (r.amount == d.payout_amount)
    require recorded_instruction (bytes_eq r.instruction_id response.result.id)
    if p.should_trigger
        then require recorded_recipient (bytes_eq r.payout_to test_payout_to)
        else require wet_season_paid (d.payout_amount == 0)

  unfoldable pub settle_policy : Pool → TestPolicy P → Outcome TestFault (Unit {0})
  unfolding given require balance_of settled_decision assert_recorded
  settle_policy pool p = do
    response ← given no_decision p.decision
    recipient_before ← balance_of (net.before_settle p.id) pool test_payout_to
    pool_before ← balance_of (net.before_settle p.id) pool pool.executor
    d ← settled_decision (settle net.crypto (net.chain p.id) (some response))
    recipient_after ← balance_of (net.after_settle p.id) pool test_payout_to
    pool_after ← balance_of (net.after_settle p.id) pool pool.executor
    require recipient_moved
        (eq_ℤ (pos recipient_after -ℤ pos recipient_before) (pos d.payout_amount))
    require pool_moved (eq_ℤ (pos pool_before -ℤ pos pool_after) (pos d.payout_amount))
    settlement ← map_err settlement_record (settlement_of (net.chain p.id) p.id)
    assert_recorded p response d settlement

  -- The selectors of the errors with these names.
  unfoldable pub replay_guard_selectors : List String → Outcome TestFault (List String)
  unfolding given
  replay_guard_selectors [] = ok []
  replay_guard_selectors (name ∷ names) = do
    id ← given no_such_error (net.error_id name)
    rest ← replay_guard_selectors names
    ok (encode_to_string (take 4 id) ∷ rest)

  unfoldable pub assert_replay_rejected : List (TestPolicy P) → Outcome TestFault (Unit {0})
  unfolding given present require replay_guard_selectors matches_any_selector
  assert_replay_rejected [] = panic
  assert_replay_rejected (p ∷ rest) = do
    response ← present p.decision
    answer ← given packing_replay (net.replay_call response)
    guard ← replay_guard_selectors ("DecisionAlreadySettled" ∷ "PolicyAlreadySettled" ∷ [])
    require replay_accepted
        (matches_any_selector (simulate_and_decode_revert net.unpack_revert answer) guard)
