-- ===== src/Pipeline.antt =====
-- From a registration in the enclave to the decision that the relay reads: the components together.
use aegis_labs.Common.Bytes.{Bytes, Hash, Address}
use aegis_labs.Common.{ℕ, ◌≤◌, ◌≡◌, ◌∙◌, none, some, List, ok}
use aegis_labs.Model.Abi.{AbiLaws, tuple_bytes}
use aegis_labs.Extension.Scoring.Owed.{Terms, model_of, owed}
use aegis_labs.Extension.Scoring.Bounds.{owed_bounds}
use aegis_labs.Extension.Actions.{Action, DataFixed, Node, ActionResult, new, build_result}
use aegis_labs.Extension.Handlers.{responded, result, process_action, run}
use aegis_labs.Extension.Replies.{IsEvaluate, process_action-evaluate, owed_fits}
use aegis_labs.Extension.History.{last_registered, lookup-run}
use aegis_labs.Payout.Decision.{
  Crypto, CryptoLaws, recover_tee_id, decode_decision, decode_decision-build_result,
}

-- After any history of actions in which the model `t` is the last that a policy registered, an
-- EVALUATE instruction is answered by a result of status 200 that, under a signature of it that
-- recovers to an enclave, the relay decodes to a decision of that policy, that recipient and that instruction,
-- for the amount that `t` owes, and that amount is at most the sum insured.
pub evaluate_then_decode :
    (node : Node)
    → AbiLaws node.abi
    → (crypto : Crypto) → CryptoLaws crypto
    → (port chain_id : ℕ) (history : List Action) (a : Action) (df : DataFixed) (id : Hash) (r : ℕ)
      (to tee : Address) (t : Terms) (signature : Bytes)
    → last_registered node port id history none ≡ some (model_of t)
    → node.parse_data_fixed a.message ≡ some df
    → IsEvaluate node df id r to
    → recover_tee_id crypto chain_id
        (some (build_result a df (tuple_bytes id (owed t r) to) 1 none))
        signature
      ≡ ok tee
    → (ar : ActionResult) × ((process_action node (run node (new port) history) a).1
        ≡ responded 200 (result ar))
      × (decode_decision crypto chain_id (record { result = ar; signature = signature })
          ≡ ok (record {
            policy_id = id;
            payout_amount = owed t r;
            payout_to = to;
            instruction_id = a.id;
            tee_id = tee;
          }))
      × (owed t r ≤ t.sum)
evaluate_then_decode node laws crypto claws port chain_id history a df id r to tee t signature
      registered parsed h signed =
    (
      build_result a df (tuple_bytes id (owed t r) to) 1 none,
      rw (
          process_action-evaluate node laws (run node (new port) history) a df id r to t parsed h
            (lookup-run node port id history ∙ registered)),
      decode_decision-build_result crypto claws chain_id a df id (owed t r) to tee signature
          (owed_fits t r id to h.fits.id_32 h.fits.to_20) signed,
      (owed_bounds t r).0,
    )
