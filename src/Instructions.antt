-- ===== src/Instructions.antt =====
-- go/tools/pkg/utils/instructions.go: the calls of the InstructionSender contract. The contract's
-- binding and the node are the parameters `SenderCalls` and `TriggerCalls`.
use aegis_labs.Common.{
  ◌>>=◌, ℕ, String, ◌≡◌, refl, Bool, not, Option, none, some, List, [], ◌∷◌, ◌==◌, if◌then◌else◌,
  map_err, bind_ok, then_ok, else_ok, Outcome, ok, err, arith,
}
use aegis_labs.Common.Bytes.{Bytes, Hash}
use aegis_labs.Support.{Receipt, Mined, TxFault, check_tx}
use aegis_labs.Support.Revert.{
  CallError, CallAnswer, decode_revert_reason, simulate_and_decode_revert,
}
use aegis_labs.Validate.Text.{is_empty}

-- A transaction that the node took, with what waiting for it gives, or its refusal.
pub data Sent : Type 0 where
  sent : Mined → Sent
  refused : CallError → Sent

pub data SendFault : Type 0 where
  binding_contract creating_transactor waiting_for_transaction no_logs parsing_event : SendFault
  -- a refusal, with the reason of the revert, empty where none was found
  send_refused : String → SendFault
  transaction_status : ℕ → SendFault
  transaction_fault : TxFault → SendFault
  calling_contract : SendFault

pub record SenderCalls : Type 0 where
  pub binds : Bool
  pub makes_transactor : Bool
  -- the method's call with a value in wei
  pub send : ℕ → Sent
  -- the same call replayed with the value, where the ABI packs its arguments
  pub replay : ℕ → Option CallAnswer
  pub parse_instructions_sent : Bytes → Option Hash
  pub unpack_revert : Bytes → Option String

replayed_reason : (Bytes → Option String) → Option CallAnswer → String
replayed_reason unpack none = ""
replayed_reason unpack (some a) = simulate_and_decode_revert unpack a

revert_reason : SenderCalls → ℕ → CallError → String
unfolding replayed_reason
revert_reason calls fee e =
    let reason = decode_revert_reason calls.unpack_revert e in
    if is_empty reason then replayed_reason calls.unpack_revert (calls.replay fee) else reason

first_instruction : SenderCalls → List Bytes → Outcome SendFault Hash
first_instruction calls [] = err no_logs
first_instruction calls (log ∷ rest) = elim (calls.parse_instructions_sent log) [
  | none ↦ err parsing_event
  | some id ↦ ok id
]

confirmed : SenderCalls → Option Receipt → Outcome SendFault (Hash × Hash)
unfolding first_instruction
confirmed calls none = err waiting_for_transaction
confirmed calls (some r) =
    if r.status == 1
    then (do id ← first_instruction calls r.logs; ok (id, r.tx_hash))
    else err (transaction_status r.status)

after_send : SenderCalls → ℕ → Sent → Outcome SendFault (Hash × Hash)
unfolding confirmed revert_reason
after_send calls fee (refused e) = err (send_refused (revert_reason calls fee e))
after_send calls fee (sent m) = confirmed calls m.receipt

-- `sendInstruction`: the instruction's id and the hash of its transaction. `SendRegisterModel` and
-- `SendEvaluate` are its calls with their method.
unfoldable pub send_instruction : SenderCalls → ℕ → Outcome SendFault (Hash × Hash)
unfolding after_send
send_instruction calls fee =
    if not calls.binds
    then err binding_contract
    else if not calls.makes_transactor
    then err creating_transactor
    else after_send calls fee (calls.send fee)

pub record TriggerCalls : Type 0 where
  pub binds : Bool
  pub makes_transactor : Bool
  pub register_policy_trigger : Hash → Hash → Sent
  pub unpack_revert : Bytes → Option String

after_register : TriggerCalls → Sent → Outcome SendFault Hash
after_register calls (refused e) = err (send_refused (decode_revert_reason calls.unpack_revert e))
after_register calls (sent m) = do r ← map_err transaction_fault (check_tx m); ok r.tx_hash

unfoldable pub send_register_policy_trigger : TriggerCalls → Hash → Hash → Outcome SendFault Hash
unfolding after_register
send_register_policy_trigger calls policy_id request_hash =
    if not calls.binds
    then err binding_contract
    else if not calls.makes_transactor
    then err creating_transactor
    else after_register calls (calls.register_policy_trigger policy_id request_hash)

first_instruction_ok :
    (calls : SenderCalls) (logs : List Bytes) (id : Hash)
    → first_instruction calls logs ≡ ok id
    → (log : Bytes) × (rest : List Bytes) × (logs ≡ log ∷ rest)
      × (calls.parse_instructions_sent log ≡ some id)
unfolding first_instruction
first_instruction_ok calls [] id h = cc
first_instruction_ok calls (log ∷ rest) id h = (log, rest, refl, ground arith)

confirmed_ok :
    (calls : SenderCalls) (o : Option Receipt) (id tx : Hash)
    → confirmed calls o ≡ ok (id, tx)
    → (r : Receipt) × (log : Bytes) × (rest : List Bytes) × (o ≡ some r)
      × (r.status ≡ 1)
      × (r.logs ≡ log ∷ rest)
      × (calls.parse_instructions_sent log ≡ some id)
      × (tx ≡ r.tx_hash)
unfolding confirmed
confirmed_ok calls none id tx h = cc
confirmed_ok calls (some r) id tx h =
    let (one, sent_on) = then_ok (r.status == 1) (transaction_status r.status) _ h in
    let (i, first, rest_ok) = bind_ok (first_instruction calls r.logs) _ sent_on in
    let (log, rest, logs, parsed) = first_instruction_ok calls r.logs i first in
    (
      r,
      log,
      rest,
      refl,
      ground arith,
      logs,
      ground (arith, parsed, rest_ok),
      ground (arith, rest_ok),
    )

after_send_ok :
    (calls : SenderCalls) (fee : ℕ) (s : Sent) (id tx : Hash)
    → after_send calls fee s ≡ ok (id, tx)
    → (m : Mined) × (s ≡ sent m) × (confirmed calls m.receipt ≡ ok (id, tx))
unfolding after_send
after_send_ok calls fee (refused e) id tx h = cc
after_send_ok calls fee (sent m) id tx h = (m, refl, h)

-- `sendInstruction` succeeds only when the node took the call with that fee, its receipt has status
-- 1, and the id it returns is the one in the event of the receipt's first log.
pub send_instruction_ok :
    (calls : SenderCalls) (fee : ℕ) (id tx : Hash)
    → send_instruction calls fee ≡ ok (id, tx)
    → (m : Mined) × (r : Receipt) × (log : Bytes) × (rest : List Bytes) × (calls.send fee ≡ sent m)
      × (m.receipt ≡ some r)
      × (r.status ≡ 1)
      × (r.logs ≡ log ∷ rest)
      × (calls.parse_instructions_sent log ≡ some id)
      × (tx ≡ r.tx_hash)
unfolding send_instruction
send_instruction_ok calls fee id tx h =
    let (bound, h1) = else_ok (not calls.binds) binding_contract _ h in
    let (keyed, h2) = else_ok (not calls.makes_transactor) creating_transactor _ h1 in
    let (m, is_sent, done) = after_send_ok calls fee (calls.send fee) id tx h2 in
    let (r, log, rest, mined, one, logs, parsed, hash) = confirmed_ok calls m.receipt id tx done in
    (m, r, log, rest, is_sent, mined, one, logs, parsed, hash)
