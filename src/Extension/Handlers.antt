-- ===== src/Extension/Handlers.antt =====
-- go/internal/extension/extension.go: REGISTER_MODEL, EVALUATE and the routing of an action. The
-- mutex makes each handler's access to the map one step, so an action takes a state to a state.
use aegis_labs.Common.Bytes.{Bytes, Hash, bytes_eq}
use aegis_labs.Common.{
  ℕ, Option, none, some, List, [], ◌∷◌, ◌==◌, if◌then◌else◌, length, ◌>>=◌, map_err, Outcome, ok,
  err, panic,
}
use aegis_labs.Model.{ModelParameters, RegisterModelRequest, EvaluateRequest}
use aegis_labs.Model.Codec.{decode_evaluate_request, encode_response}
use aegis_labs.Extension.Scoring.{evaluate_payout}
use aegis_labs.Extension.Actions.{
  DataFixed, Action, Node, Fault, message_empty, evaluate_fault, no_model, scoring_fault,
  encoding_failed, ActionResult, Extension, lookup, insert, build_result, registration,
}

pub data Refusal : Type 0 where
  bad_fixed_data : Refusal
  unsupported_op_type unsupported_op_command : Hash → Refusal

-- The body of a response: the JSON of an action result, or a text.
pub data Body : Type 0 where
  result : ActionResult → Body
  text : Refusal → Body

-- A handler that panics leaves its connection without a response.
pub data Response : Type 0 where
  responded : ℕ → Body → Response
  aborted : Response

-- The result that a handler builds from what it computed.
unfoldable pub report : Action → DataFixed → Outcome Fault Bytes → Response
report a df (ok buf) = responded 200 (result (build_result a df buf 1 none))
report a df (err f) = responded 200 (result (build_result a df [] 0 (some f)))
report a df panic = aborted

-- `e.models[req.PolicyID] = req.Model`
abbrev pub store : Extension → Outcome Fault RegisterModelRequest → Extension
store e (ok req) = record e { models = insert req.policy_id req.model e.models }
store e (err f) = e
store e panic = e

-- A registration answers success or failure and echoes nothing of the request.
abbrev pub silent : Outcome Fault RegisterModelRequest → Outcome Fault Bytes
silent (ok req) = ok []
silent (err f) = err f
silent panic = panic

abbrev pub found : Hash → Option ModelParameters → Outcome Fault ModelParameters
found id none = err (no_model id)
found id (some m) = ok m

module _ (node : Node) where
  unfoldable pub process_register_model : Extension → Action → DataFixed → Extension × Response
  unfolding report
  process_register_model e a df =
      let outcome = registration node e.sign_port df in
      (store e outcome, report a df (silent outcome))

  -- The decision on a request that was decoded.
  unfoldable pub decide : Extension → EvaluateRequest → Outcome Fault Bytes
  decide e req = do
    model ← found req.policy_id (lookup req.policy_id e.models)
    payout ← map_err scoring_fault (evaluate_payout model req.rainfall_tenths_mm)
    map_err encoding_failed (
        encode_response node.abi (record {
          policy_id = req.policy_id;
          payout_amount = some payout;
          payout_to = req.payout_to;
        }))

  unfoldable pub evaluation : Extension → DataFixed → Outcome Fault Bytes
  unfolding decide
  evaluation e df = if length df.original_message == 0 then err message_empty else do
    req ← map_err evaluate_fault (decode_evaluate_request node.abi df.original_message)
    decide e req

  unfoldable pub process_evaluate : Extension → Action → DataFixed → Response
  unfolding report
  process_evaluate e a df = report a df (evaluation e df)

  unfoldable pub process_policy : Extension → Action → DataFixed → Extension × Response
  unfolding process_register_model process_evaluate
  process_policy e a df =
      if bytes_eq df.op_command (node.to_hash "REGISTER_MODEL")
      then process_register_model e a df
      else if bytes_eq df.op_command (node.to_hash "EVALUATE")
      then (e, process_evaluate e a df)
      else (e, responded 501 (text (unsupported_op_command df.op_command)))

  unfoldable pub route : Extension → Action → Option DataFixed → Extension × Response
  unfolding process_policy
  route e a none = (e, responded 400 (text bad_fixed_data))
  route e a (some df) =
      if bytes_eq df.op_type (node.to_hash "POLICY")
      then process_policy e a df
      else (e, responded 501 (text (unsupported_op_type df.op_type)))

  unfoldable pub process_action : Extension → Action → Extension × Response
  unfolding route
  process_action e a = route e a (node.parse_data_fixed a.message)

  -- The actions that the framework dispatches, one after another.
  unfoldable pub run : Extension → List Action → Extension
  run e [] = e
  run e (a ∷ rest) = run (process_action e a).0 rest
