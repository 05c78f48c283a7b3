-- ===== src/Examples/Enclave.antt =====
-- The enclave's theorems at a node, a registration and an evaluation.
use aegis_labs.Common.{◌≡◌, refl, ◌≢◌, some, none, [], ◌∷◌, ok}
use aegis_labs.Common.Bytes.{bytes_eq}
use aegis_labs.Model.{validate}
use aegis_labs.Model.Abi.{static_abi_laws, tuple_bytes}
use aegis_labs.Model.Register.{accept, decode_register_model_request, more}
use aegis_labs.Extension.Scoring.Owed.{model_of, owed}
use aegis_labs.Extension.Actions.{new, lookup, build_result, registration, decrypt_via_node}
use aegis_labs.Extension.Handlers.{
  aborted, responded, result, process_register_model, process_action, run,
}
use aegis_labs.Extension.Invariant.{IsSound, run-IsSound}
use aegis_labs.Extension.Robust.{process_action_answers, registration_silent}
use aegis_labs.Extension.Replies.{process_action-evaluate}
use aegis_labs.Extension.History.{last_registered, lookup-run}
use aegis_labs.Examples.Data.{
  drought, policy, payee, test_node, fixed, registering, evaluating, is_evaluate, holding,
  drought_request,
}

process_action_answers_example :
    (process_action test_node (run test_node (new 9090) (registering ∷ [])) evaluating).1 ≢ aborted
process_action_answers_example = process_action_answers test_node 9090 (registering ∷ []) evaluating

run-IsSound_example : IsSound (run test_node (new 9090) (registering ∷ evaluating ∷ []))
run-IsSound_example = run-IsSound test_node 9090 (registering ∷ evaluating ∷ [])

stored : lookup policy holding.models ≡ some (model_of drought)
unfolding lookup bytes_eq
stored = refl

process_action-evaluate_example : process_action test_node holding evaluating ≡ (
  holding,
  responded 200 (
      result (
        build_result evaluating
          (fixed 3 (tuple_bytes policy 800 payee))
          (tuple_bytes policy (owed drought 800) payee)
          1
          none)),
)
process_action-evaluate_example =
    process_action-evaluate test_node static_abi_laws holding evaluating
      (fixed 3 (tuple_bytes policy 800 payee)) policy 800 payee drought refl is_evaluate stored

lookup-run_example :
    lookup policy (run test_node (new 9090) (registering ∷ evaluating ∷ [])).models
    ≡ last_registered test_node 9090 policy (registering ∷ evaluating ∷ []) none
lookup-run_example = lookup-run test_node 9090 policy (registering ∷ evaluating ∷ [])

registers : registration test_node 9090 (fixed 2 (1 ∷ [])) ≡ ok drought_request
unfolding registration decrypt_via_node decode_register_model_request accept more bytes_eq validate
registers = refl

registration_silent_example :
    (process_register_model test_node (new 9090) registering (fixed 2 (1 ∷ []))).1
    ≡ (process_register_model test_node holding registering (fixed 2 (1 ∷ []))).1
registration_silent_example =
    registration_silent test_node test_node (new 9090) holding registering (fixed 2 (1 ∷ []))
      drought_request drought_request registers registers

-- The whole run, on the concrete input.
pub registered :
    last_registered test_node 9090 policy (registering ∷ []) none ≡ some (model_of drought)
unfolding registration decrypt_via_node decode_register_model_request accept more bytes_eq validate
registered = refl
