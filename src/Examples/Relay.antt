-- ===== src/Examples/Relay.antt =====
-- The relay's theorems at a decision of the enclave.
use aegis_labs.Common.{◌≡◌, refl, some, none, [], ◌∷◌, length, ok, ◌≤◌, true}
use aegis_labs.Common.Bytes.{Hash}
use aegis_labs.Model.Abi.{static_abi_laws, tuple_bytes}
use aegis_labs.Extension.Scoring.Owed.{owed}
use aegis_labs.Extension.Actions.{ActionResult, new, build_result}
use aegis_labs.Extension.Handlers.{responded, result, process_action, run}
use aegis_labs.Payout.Decision.{
  ActionResponse, Decision, recover_tee_id, action_result_sign_hash, decode_decision,
  decode_decision-build_result, decode_decision_checked,
}
use aegis_labs.Payout.Settle.{Chain, settle, settle_ok}
use aegis_labs.Pipeline.{evaluate_then_decode}
use aegis_labs.Examples.Data.{
  drought, policy, payee, tee, fits_800, test_node, fixed, registering, evaluating, is_evaluate,
  test_crypto, test_crypto_laws, signature,
}
use aegis_labs.Examples.Enclave.{registered}

abbrev answer_800 : ActionResult
answer_800 =
    build_result evaluating (fixed 3 (tuple_bytes policy 800 payee)) (tuple_bytes policy 800 payee)
      1 none

abbrev pub response_800 : ActionResponse
response_800 = record { result = answer_800; signature = signature }

abbrev decision_800 : Decision
decision_800 = record {
  policy_id = policy;
  payout_amount = 800;
  payout_to = payee;
  instruction_id = evaluating.id;
  tee_id = tee;
}

recovers : (r : ActionResult) → recover_tee_id test_crypto 114 (some r) signature ≡ ok tee
unfolding recover_tee_id action_result_sign_hash
recovers r = refl

decode_decision-build_result_example :
    decode_decision test_crypto 114 response_800 ≡ ok decision_800
decode_decision-build_result_example =
    decode_decision-build_result test_crypto test_crypto_laws 114 evaluating
      (fixed 3 (tuple_bytes policy 800 payee)) policy 800 payee tee signature fits_800
      (recovers answer_800)

decodes : decode_decision test_crypto 114 response_800 ≡ ok decision_800
decodes =
    decode_decision-build_result test_crypto test_crypto_laws 114 evaluating
      (fixed 3 (tuple_bytes policy 800 payee)) policy 800 payee tee signature fits_800
      (recovers answer_800)

decode_decision_checked_example :
    (answer_800.status ≡ 1)
    × (length answer_800.result_data ≡ 96)
    × (length signature ≡ 65)
    × (recover_tee_id test_crypto 114 (some answer_800) signature ≡ ok tee)
    × (evaluating.id ≡ answer_800.id)
decode_decision_checked_example =
    decode_decision_checked test_crypto 114 response_800 decision_800 decodes

abbrev settling : Chain
settling = record {
  chain_id = 114;
  binds = true;
  makes_transactor = true;
  settle_tx = λ id status tag payload signed. some (3 ∷ id);
  check_tx = λ tx. some (4 ∷ tx);
  settlement_record = λ id. none;
}

settles : (settle test_crypto settling (some response_800)).fault ≡ none
unfolding settle
settles = rw decodes

settle_ok_example :
    (d : Decision) × (tx : Hash) × (decode_decision test_crypto 114 response_800 ≡ ok d)
    × (settling.settle_tx d.instruction_id answer_800.status answer_800.submission_tag
          answer_800.result_data signature
        ≡ some tx)
    × (settling.check_tx tx ≡ some (settle test_crypto settling (some response_800)).tx)
    × ((settle test_crypto settling (some response_800)).decision ≡ some d)
settle_ok_example = settle_ok test_crypto settling response_800 settles

evaluate_then_decode_example :
    (ar : ActionResult) × ((process_action test_node
        (run test_node (new 9090) (registering ∷ []))
        evaluating).1
      ≡ responded 200 (result ar))
    × (decode_decision test_crypto 114 (record { result = ar; signature = signature })
        ≡ ok (record {
          policy_id = policy;
          payout_amount = owed drought 800;
          payout_to = payee;
          instruction_id = evaluating.id;
          tee_id = tee;
        }))
    × (owed drought 800 ≤ 5000000)
evaluate_then_decode_example =
    evaluate_then_decode test_node static_abi_laws test_crypto test_crypto_laws 9090 114
      (registering ∷ []) evaluating (fixed 3 (tuple_bytes policy 800 payee)) policy 800 payee tee
      drought signature registered refl is_evaluate
      (recovers (
        build_result evaluating (fixed 3 (tuple_bytes policy 800 payee))
          (tuple_bytes policy (owed drought 800) payee) 1 none))
