-- ===== src/Extension/Robust.antt =====
-- Panics of the handlers of go/internal/extension/extension.go, and the answers to registrations.
use aegis_labs.Common.Bytes.{Bytes, Hash, bytes_eq}
use aegis_labs.Common.Int.{ℤ, pos, negsuc}
use aegis_labs.Common.{
  ℕ, ◌≡◌, refl, ◌≢◌, inl, inr, Option, none, some, List, arith, ◌==◌, Bool-cases, length, ◌>>=◌,
  map_err, Outcome, ok, err, panic,
}
use aegis_labs.Model.{
  ModelParameters, RegisterModelRequest, EvaluateRequest, EvaluateResponse, validate,
}
use aegis_labs.Model.Codec.{
  encode_evaluate_tuple, decode_evaluate_tuple, decode_evaluate_request, encode_response,
}
use aegis_labs.Model.Abi.{Abi}
use aegis_labs.Extension.Scoring.{evaluate_payout}
use aegis_labs.Extension.Scoring.Owed.{validate_iff, evaluate_payout-owed}
use aegis_labs.Extension.Actions.{
  DataFixed, Action, Node, Fault, Extension, new, lookup, registration, scoring_fault,
  encoding_failed, evaluate_fault, decrypt_via_node,
}
use aegis_labs.Extension.Handlers.{
  aborted, report, found, silent, route, process_register_model, process_policy, process_action,
  evaluation, decide, run,
}
use aegis_labs.Extension.Invariant.{IsSound, lookup-validate, run-IsSound}
use aegis_labs.Model.Register.{after_parse, decode_register_model_request}

evaluate_payout_returns :
    (m : ModelParameters) (rainfall : Option ℤ)
    → validate m ≡ none
    → evaluate_payout m rainfall ≢ panic
evaluate_payout_returns m none v = unfold evaluate_payout in λ e. cc
evaluate_payout_returns m (some (negsuc r)) v = unfold evaluate_payout in λ e. cc
evaluate_payout_returns m (some (pos r)) v =
    let (t, is) = (validate_iff m).0 v in rw is (rw (evaluate_payout-owed t r) (λ e. cc))

encode_response_returns : (abi : Abi) (r : EvaluateResponse) → encode_response abi r ≢ panic
unfolding encode_response encode_evaluate_tuple
encode_response_returns abi r = ground arith

decode_evaluate_request_returns : (abi : Abi) (b : Bytes) → decode_evaluate_request abi b ≢ panic
unfolding decode_evaluate_request decode_evaluate_tuple
decode_evaluate_request_returns abi b = ground arith

bind_returns :
    {E A B : Type 0} (m : Outcome E A) (f : A → Outcome E B)
    → m ≢ panic
    → ((a : A) → m ≡ ok a → f a ≢ panic)
    → (m >>= f) ≢ panic
bind_returns (ok a) f hm hf = hf a refl
bind_returns (err e) f hm hf = λ e. cc
bind_returns panic f hm hf = absurd (hm refl)

map_err_returns : {E F A : Type 0} (f : E → F) (m : Outcome E A) → m ≢ panic → map_err f m ≢ panic
map_err_returns f (ok a) h = λ e. cc
map_err_returns f (err e) h = λ e. cc
map_err_returns f panic h = absurd (h refl)

found_returns : (id : Hash) (o : Option ModelParameters) → found id o ≢ panic
found_returns id none = λ e. cc
found_returns id (some m) = λ e. cc

decide_returns :
    (node : Node) (e : Extension) (req : EvaluateRequest) → IsSound e → decide node e req ≢ panic
unfolding decide
decide_returns node e req s =
    bind_returns (found req.policy_id (lookup req.policy_id e.models)) _
      (found_returns req.policy_id (lookup req.policy_id e.models))
      λ m fm.
        bind_returns (map_err scoring_fault (evaluate_payout m req.rainfall_tenths_mm)) _
          (map_err_returns scoring_fault (evaluate_payout m req.rainfall_tenths_mm)
            (evaluate_payout_returns m req.rainfall_tenths_mm (stored m fm)))
          λ p fp.
            map_err_returns encoding_failed (encode_response node.abi _)
              (encode_response_returns node.abi _)
  where
    found_some :
        (o : Option ModelParameters) (m : ModelParameters)
        → found req.policy_id o ≡ ok m
        → o ≡ some m
    found_some none m h = cc
    found_some (some n) m h = ground arith

    stored :
        (m : ModelParameters)
        → found req.policy_id (lookup req.policy_id e.models) ≡ ok m
        → validate m ≡ none
    stored m h =
        lookup-validate req.policy_id e.models m s.store
          (found_some (lookup req.policy_id e.models) m h)

evaluation_returns :
    (node : Node) (e : Extension) (df : DataFixed) → IsSound e → evaluation node e df ≢ panic
unfolding evaluation
evaluation_returns node e df s = elim (Bool-cases (length df.original_message == 0)) [
  | inl empty ↦ rw empty (λ x. cc)
  | inr full ↦ rw full (
      bind_returns (map_err evaluate_fault (decode_evaluate_request node.abi df.original_message))
        (decide node e)
        (map_err_returns evaluate_fault (decode_evaluate_request node.abi df.original_message)
          (decode_evaluate_request_returns node.abi df.original_message))
        (λ req _. decide_returns node e req s))
]

after_parse_returns : (o : Option (RegisterModelRequest × Bytes)) → after_parse o ≢ panic
unfolding after_parse
after_parse_returns o = ground arith

registration_returns : (node : Node) (port : ℕ) (df : DataFixed) → registration node port df ≢ panic
unfolding registration decode_register_model_request decrypt_via_node
registration_returns node port df = ground arith

report_returns :
    (a : Action) (df : DataFixed) (o : Outcome Fault Bytes) → o ≢ panic → report a df o ≢ aborted
unfolding report
report_returns a df (ok b) h = λ e. cc
report_returns a df (err f) h = λ e. cc
report_returns a df panic h = absurd (h refl)

silent_returns : (o : Outcome Fault RegisterModelRequest) → o ≢ panic → silent o ≢ panic
silent_returns (ok r) h = λ e. cc
silent_returns (err f) h = λ e. cc
silent_returns panic h = absurd (h refl)

process_policy_returns :
    (node : Node) (e : Extension) (a : Action) (df : DataFixed)
    → IsSound e
    → (process_policy node e a df).1 ≢ aborted
unfolding process_policy
process_policy_returns node e a df s =
    elim (Bool-cases (bytes_eq df.op_command (node.to_hash "REGISTER_MODEL"))) [
      | inl r ↦ rw r (
          report_returns a df (silent (registration node e.sign_port df)) (
            silent_returns (registration node e.sign_port df)
              (registration_returns node e.sign_port df)))
      | inr r ↦ rw r (elim (Bool-cases (bytes_eq df.op_command (node.to_hash "EVALUATE"))) [
        | inl v ↦ rw v (report_returns a df (evaluation node e df) (evaluation_returns node e df s))
        | inr v ↦ rw v (λ x. cc)
      ])
    ]

route_returns :
    (node : Node) (e : Extension) (a : Action) (parsed : Option DataFixed)
    → IsSound e
    → (route node e a parsed).1 ≢ aborted
unfolding route
route_returns node e a none s = λ x. cc
route_returns node e a (some df) s =
    elim (Bool-cases (bytes_eq df.op_type (node.to_hash "POLICY"))) [
      | inl t ↦ rw t (process_policy_returns node e a df s)
      | inr t ↦ rw t (λ x. cc)
    ]

-- After any actions on a new enclave no further action makes a handler panic.
pub process_action_answers :
    (node : Node) (port : ℕ) (actions : List Action) (a : Action)
    → (process_action node (run node (new port) actions) a).1 ≢ aborted
unfolding process_action
process_action_answers node port actions a =
    route_returns node (run node (new port) actions) a (node.parse_data_fixed a.message)
      (run-IsSound node port actions)

-- Two accepted registrations by the same action are answered alike, whatever the nodes, the states
-- and the registered requests are.
pub registration_silent :
    (n n' : Node) (e e' : Extension) (a : Action) (df : DataFixed) (req req' : RegisterModelRequest)
    → registration n e.sign_port df ≡ ok req
    → registration n' e'.sign_port df ≡ ok req'
    → (process_register_model n e a df).1 ≡ (process_register_model n' e' a df).1
unfolding process_register_model
registration_silent n n' e e' a df req req' h h' = rw (h, h')
