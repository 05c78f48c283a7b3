-- ===== src/Agent/Attest.antt =====
-- `attest` and `waitForProof` of go/tools/cmd/aegis/cmd_evaluate.go. What is only printed, such as
-- the fee that `RequestFee` reads for display, is left out.
pub mod Fees
pub mod Rounds
pub mod Identity
use aegis_labs.Common.{
  ℕ, zero, suc, Bool, true, false, [], ◌∷◌, ◌++◌, Outcome, ok, err, panic, map_err,
}
use aegis_labs.Common.Exec.{pure, raise, lift, ◌>>=◌, ◌>>◌}
use aegis_labs.Common.Bytes.{Bytes, Hash}
use aegis_labs.Fdc.Submit.{SubmitFault, request_failed, reading_block, round_fault, submit_request}
use aegis_labs.Fdc.Polling.{Waited, proof, crashed, wait_for_proof}
use aegis_labs.Agent.World.{
  Outside, Run, requested, submitting, no_proof, called, moved, modify, save_with,
}

abbrev pub proof_attempts : ℕ
proof_attempts = 3

-- Whether the transaction was sent before the call ended.
request_sent : Outcome SubmitFault (ℕ × Hash) → Bool
request_sent (ok answer) = true
request_sent (err (request_failed f)) = true
request_sent (err reading_block) = true
request_sent (err (round_fault f)) = true
request_sent (err _) = false
request_sent panic = false

module _ {S P : Type 0} (o : Outside S P) where
  unfoldable pub submit : Bytes → Run S (ℕ × Hash)
  unfolding request_sent
  submit request s =
      let answer = submit_request (o.hub s.world.outside) request in
      (
        map_err submitting answer,
        called (o.after_submit request) (request_sent answer) (requested request) s,
      )

  -- What the wait on a round gives at a state of the outside.
  unfoldable pub proof_of_round : ℕ → Bytes → S → Waited P
  proof_of_round round request w = wait_for_proof (
      o.fetches round request w
      ++ (record { fetched = o.last_fetch round request w; done = true } ∷ []))

  unfoldable pub wait_on_round : ℕ → Bytes → Run S (Waited P)
  wait_on_round round request s =
      (ok (proof_of_round round request s.world.outside), moved (o.after_fetches round request) s)

  unfoldable pub note_round : ℕ → Run S (Unit {0})
  note_round round = modify (λ r. record r { voting_round = round })

  -- A request in a round of its own.
  unfoldable pub attempt : Bytes → Run S (Waited P)
  unfolding submit note_round wait_on_round
  attempt request = do
    submitted ← submit request
    note_round submitted.0
    save_with o
    wait_on_round submitted.0 request

  -- `attempt >= proofAttempts` and the error, or the next attempt.
  proof_or : Run S P → Waited P → Run S P
  proof_or again (proof p) = pure p
  proof_or again crashed = lift panic
  proof_or again _ = again

  gives_up : Run S P
  gives_up s = raise (no_proof s.current.voting_round) s

  -- `more` attempts may follow this one.
  unfoldable pub attest_from : ℕ → Bytes → Run S P
  unfolding attempt proof_or gives_up
  attest_from zero request = attempt request >>= proof_or gives_up
  attest_from (suc more) request = attempt request >>= proof_or (attest_from more request)

  unfoldable pub attest : Bytes → Run S P
  unfolding attest_from
  attest = attest_from 2
