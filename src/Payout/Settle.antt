-- ===== src/Payout/Settle.antt =====
-- go/tools/pkg/payout/settle.go: relaying a decision. The chain connection is the parameter
-- `Chain`: its client, its PolicySettlement binding and the wait for a receipt.
use aegis_labs.Common.Bytes.{Bytes, Hash, Address, zero_hash}
use aegis_labs.Common.{
  ℕ, String, ◌≡◌, refl, inl, inr, Bool, not, Option, none, some, arith, if◌then◌else◌, Option-cases,
  Outcome, ok, err, panic,
}
use aegis_labs.Payout.Decision.{ActionResponse, Decision, Crypto, DecisionFault, decode_decision}

pub data SettleFault : Type 0 where
  response_nil binding_settlement creating_transactor settle_failed receipt_failed : SettleFault
  reading_settlement : SettleFault
  decision_fault : DecisionFault → SettleFault
  decoder_panicked : SettleFault

-- `settlementOf` on-chain.
pub record Record : Type 0 where
  pub settled : Bool
  pub payout_to : Address
  pub amount : ℕ
  pub instruction_id : Hash

pub record Chain : Type 0 where
  pub chain_id : ℕ
  pub binds : Bool
  pub makes_transactor : Bool
  -- the transaction of a call `settle(instructionId, status, submissionTag, data, signature)`
  pub settle_tx : Hash → ℕ → String → Bytes → Bytes → Option Hash
  -- the receipt's hash of a transaction
  pub check_tx : Hash → Option Hash
  pub settlement_record : Hash → Option Record

-- The three results of `Settle`: the hash, the decision and the error.
pub record Settled : Type 0 where
  pub tx : Hash
  pub decision : Option Decision
  pub fault : Option SettleFault

abbrev failed : SettleFault → Settled
failed f = record { tx = zero_hash; decision = none; fault = some f }

confirmed : Hash → Decision → Option Hash → Settled
confirmed tx d none = record { tx = tx; decision = some d; fault = some receipt_failed }
confirmed tx d (some receipt) = record { tx = receipt; decision = some d; fault = none }

sent : Chain → Decision → Option Hash → Settled
unfolding confirmed
sent chain d none = record { tx = zero_hash; decision = some d; fault = some settle_failed }
sent chain d (some tx) = confirmed tx d (chain.check_tx tx)

relay : Chain → ActionResponse → Outcome DecisionFault Decision → Settled
unfolding sent
relay chain response (err f) = failed (decision_fault f)
relay chain response panic = failed decoder_panicked
relay chain response (ok d) =
    if not chain.binds
    then failed binding_settlement
    else if not chain.makes_transactor
    then failed creating_transactor
    else sent chain d (
        chain.settle_tx d.instruction_id response.result.status response.result.submission_tag
          response.result.result_data response.signature)

unfoldable pub settle : Crypto → Chain → Option ActionResponse → Settled
unfolding relay
settle crypto chain none = failed response_nil
settle crypto chain (some response) =
    relay chain response (decode_decision crypto chain.chain_id response)

unfoldable pub settlement_of : Chain → Hash → Outcome SettleFault Record
settlement_of chain policy_id =
    if not chain.binds
    then err binding_settlement
    else elim (chain.settlement_record policy_id) [ none ↦ err reading_settlement | some r ↦ ok r ]

relay_ok :
    (chain : Chain) (response : ActionResponse) (o : Outcome DecisionFault Decision)
    → (relay chain response o).fault ≡ none
    → (d : Decision) × (tx : Hash) × (o ≡ ok d)
      × (chain.settle_tx d.instruction_id response.result.status response.result.submission_tag
            response.result.result_data response.signature
          ≡ some tx)
      × (chain.check_tx tx ≡ some (relay chain response o).tx)
      × ((relay chain response o).decision ≡ some d)
unfolding relay
relay_ok chain response (err f) h = cc
relay_ok chain response panic h = cc
relay_ok chain response (ok d) h =
    elim (Option-cases (
      chain.settle_tx d.instruction_id response.result.status response.result.submission_tag
        response.result.result_data response.signature)) [
          | inl e ↦ ground (arith, h, e)
          | inr (tx, e) ↦ (d, tx, refl, e, ground (arith, h, e), ground (arith, h, e))
        ]

-- `Settle` returns no error on a response only when the response decoded to a decision, the call
-- with that decision's instruction and the response's status, tag, data and signature was sent,
-- the receipt of its transaction is the hash that is returned, and that decision is returned with
-- it.
pub settle_ok :
    (crypto : Crypto) (chain : Chain) (response : ActionResponse)
    → (settle crypto chain (some response)).fault ≡ none
    → (d : Decision) × (tx : Hash) × (decode_decision crypto chain.chain_id response ≡ ok d)
      × (chain.settle_tx d.instruction_id response.result.status response.result.submission_tag
            response.result.result_data response.signature
          ≡ some tx)
      × (chain.check_tx tx ≡ some (settle crypto chain (some response)).tx)
      × ((settle crypto chain (some response)).decision ≡ some d)
unfolding settle
settle_ok crypto chain response h =
    relay_ok chain response (decode_decision crypto chain.chain_id response) h
