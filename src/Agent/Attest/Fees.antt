-- ===== src/Agent/Attest/Fees.antt =====
-- `attest` of go/tools/cmd/aegis/cmd_evaluate.go: how many requests it pays for.
use aegis_labs.Common.{ℕ, zero, suc, ◌+◌, ◌≡◌, refl, [], arith}
use aegis_labs.Common.Bytes.{Bytes}
use aegis_labs.Fdc.Polling.{Waited, proof, failed, timed_out, crashed, polling}
use aegis_labs.Agent.World.{Outside, Session, Run, Transaction, requested}
use aegis_labs.Agent.Journal.{
  Sends, Sparing, bind-Sparing, quiet-Sparing, relax-Sparing, call_sends, save-Sparing,
}
use aegis_labs.Agent.Attest.{
  proof_attempts, attempt, submit, note_round, wait_on_round, proof_or, gives_up, attest_from,
  attest,
}

-- A transaction that requests an attestation of these bytes.
abbrev pub IsRequest : Bytes → Transaction → Type 0
IsRequest request t = t ≡ requested request

module _ {S P : Type 0} (o : Outside S P) (request : Bytes) where
  submit-Sparing : Sparing (IsRequest request) 1 (submit o request)
  unfolding submit
  submit-Sparing = record {
    sends =
        λ s. call_sends (IsRequest request) (o.after_submit request) _ (requested request) s refl;
  }

  attempt-Sparing : Sparing (IsRequest request) 1 (attempt o request)
  unfolding attempt note_round wait_on_round
  attempt-Sparing = bind-Sparing (IsRequest request) 1 0 _ _ submit-Sparing (λ submitted.
      bind-Sparing (IsRequest request) 0 0 _ _
        (quiet-Sparing (IsRequest request) (note_round o submitted.0) (λ s. refl))
        (λ u. bind-Sparing (IsRequest request) 0 0 _ _ (save-Sparing (IsRequest request) o) (λ u.
          quiet-Sparing (IsRequest request) (wait_on_round o submitted.0 request) (λ s. refl))))

  proof_or-Sparing :
      (n : ℕ) (again : Run S P) (w : Waited P)
      → Sparing (IsRequest request) n again
      → Sparing (IsRequest request) n (proof_or o again w)
  unfolding proof_or
  proof_or-Sparing n again (proof p) h = record { sends = λ s. ([], refl, omega arith, tt) }
  proof_or-Sparing n again crashed h = record { sends = λ s. ([], refl, omega arith, tt) }
  proof_or-Sparing n again (failed f) h = h
  proof_or-Sparing n again timed_out h = h
  proof_or-Sparing n again polling h = h

  attest_from-Sparing :
      (more : ℕ) → Sparing (IsRequest request) (1 + more) (attest_from o more request)
  unfolding attest_from gives_up
  attest_from-Sparing zero = bind-Sparing (IsRequest request) 1 0 _ _ attempt-Sparing (λ w.
      proof_or-Sparing 0 (gives_up o) w
        (quiet-Sparing (IsRequest request) (gives_up o) (λ s. refl)))
  attest_from-Sparing (suc more) =
      relax-Sparing (IsRequest request) (1 + (1 + more)) (1 + suc more) _ (omega arith) (
        bind-Sparing (IsRequest request) 1 (1 + more) _ _ attempt-Sparing (λ w.
          proof_or-Sparing (1 + more) (attest_from o more request) w (attest_from-Sparing more)))

  -- However it ends, `attest` sends at most `proof_attempts` transactions, and each of them requests
  -- an attestation of the bytes that it was given.
  pub attest-Sends :
      (s : Session S)
      → Sends
          (λ t. t ≡ requested request)
          proof_attempts
          s.world.journal
          (attest o request s).1.world.journal
  unfolding attest
  attest-Sends s = (attest_from-Sparing 2).sends s
