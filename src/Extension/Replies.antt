-- ===== src/Extension/Replies.antt =====
-- What EVALUATE answers (go/internal/extension/extension.go).
use aegis_labs.Common.Bytes.{Hash, Address, bytes_eq}
use aegis_labs.Common.Int.{pos}
use aegis_labs.Common.{ℕ, ◌≡◌, refl, true, false, none, some, arith, length, ok, err}
use aegis_labs.Model.{EvaluateRequest}
use aegis_labs.Model.Abi.{AbiLaws, FitsTuple, tuple_bytes, length-tuple_bytes}
use aegis_labs.Model.RoundTrip.{encode_tuple_fits, decode_tuple_fits}
use aegis_labs.Model.Codec.{decode_evaluate_request, encode_response}
use aegis_labs.Extension.Scoring.Owed.{Terms, model_of, owed, evaluate_payout-owed}
use aegis_labs.Extension.Scoring.Bounds.{owed_bounds}
use aegis_labs.Extension.Actions.{
  DataFixed, Action, Node, Extension, lookup, build_result, no_model,
}
use aegis_labs.Extension.Handlers.{
  responded, result, found, process_evaluate, process_action, evaluation, decide,
}

-- The decision on a policy whose model is stored, for a reading and a recipient that fit the tuple:
-- the ABI encoding of the policy, the payout `owed` and the recipient.
pub decide-owed :
    (node : Node)
    → AbiLaws node.abi
    → (e : Extension) (t : Terms) (req : EvaluateRequest) (r : ℕ)
    → lookup req.policy_id e.models ≡ some (model_of t)
    → req.rainfall_tenths_mm ≡ some (pos r)
    → FitsTuple req.policy_id (owed t r) req.payout_to
    → decide node e req ≡ ok (tuple_bytes req.policy_id (owed t r) req.payout_to)
unfolding decide encode_response
decide-owed node laws e t req r found rain fits =
    rw (found, rain)
      (rw (evaluate_payout-owed t r)
        (rw (encode_tuple_fits node.abi laws req.policy_id (owed t r) req.payout_to fits)))

-- A decision on a policy with no model is the error that names the policy.
pub decide_missing :
    (node : Node) (e : Extension) (req : EvaluateRequest)
    → lookup req.policy_id e.models ≡ none
    → decide node e req ≡ err (no_model req.policy_id)
unfolding decide
decide_missing node e req missing = rw missing

pub owed_fits :
    (t : Terms) (r : ℕ) (id : Hash) (to : Address)
    → length id ≡ 32
    → length to ≡ 20
    → FitsTuple id (owed t r) to
owed_fits t r id to hi ht = record {
  id_32 = hi;
  value_256 = omega (arith, owed_bounds t r, t.sum_256);
  to_20 = ht;
}

-- The message of an EVALUATE instruction that the sender contract encodes.
pub record IsEvaluate (node : Node) (df : DataFixed) (id : Hash) (r : ℕ) (to : Address)
    : Type 0 where
  pub op_type : bytes_eq df.op_type (node.to_hash "POLICY") ≡ true
  pub op_command : bytes_eq df.op_command (node.to_hash "EVALUATE") ≡ true
  pub commands_differ : bytes_eq df.op_command (node.to_hash "REGISTER_MODEL") ≡ false
  pub fits : FitsTuple id r to
  pub message : df.original_message ≡ tuple_bytes id r to

evaluation_decides :
    (node : Node)
    → AbiLaws node.abi
    → (e : Extension) (df : DataFixed) (id : Hash) (r : ℕ) (to : Address) → FitsTuple id r to
    → df.original_message ≡ tuple_bytes id r to
    → evaluation node e df
      ≡ decide node e (record { policy_id = id; rainfall_tenths_mm = some (pos r); payout_to = to })
unfolding evaluation decode_evaluate_request
evaluation_decides node laws e df id r to fits m =
    rw (m, length-tuple_bytes id r to fits) (rw (decode_tuple_fits node.abi laws id r to fits))

-- An EVALUATE instruction on a policy whose model is stored leaves the state alone and answers 200
-- with status 1: the encoding of the policy, of what the model owes for the reading, and of the
-- recipient.
pub process_action-evaluate :
    (node : Node)
    → AbiLaws node.abi
    → (e : Extension) (a : Action) (df : DataFixed) (id : Hash) (r : ℕ) (to : Address) (t : Terms)
    → node.parse_data_fixed a.message ≡ some df
    → IsEvaluate node df id r to
    → lookup id e.models ≡ some (model_of t)
    → process_action node e a
      ≡ (e, responded 200 (result (build_result a df (tuple_bytes id (owed t r) to) 1 none)))
unfolding process_action process_evaluate
process_action-evaluate node laws e a df id r to t parsed h stored =
    rw (parsed, h.op_type, h.commands_differ, h.op_command)
      (rw (evaluation_decides node laws e df id r to h.fits h.message) (
        rw (
          decide-owed node laws e t
            (record { policy_id = id; rainfall_tenths_mm = some (pos r); payout_to = to }) r stored
            refl (owed_fits t r id to h.fits.id_32 h.fits.to_20))))
