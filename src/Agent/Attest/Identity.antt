-- ===== src/Agent/Attest/Identity.antt =====
-- `attest` of go/tools/cmd/aegis/cmd_evaluate.go leaves the policy the same.
use aegis_labs.Common.{ℕ, zero, suc, refl}
use aegis_labs.Common.Bytes.{Bytes}
use aegis_labs.Fdc.Polling.{Waited, proof, failed, timed_out, crashed, polling}
use aegis_labs.Agent.World.{Outside, Run, save_with}
use aegis_labs.Agent.Identity.{Keeping, plain, save-Keeping, bind-Keeping}
use aegis_labs.Agent.Attest.{
  attempt, submit, note_round, wait_on_round, proof_or, gives_up, attest_from, attest,
}

module _ {S P : Type 0} (o : Outside S P) (request : Bytes) where
  attempt-Keeping : Keeping (attempt o request)
  unfolding attempt submit note_round wait_on_round
  attempt-Keeping =
      bind-Keeping (submit o request) _ (plain _ (λ s. (refl, refl, refl))) (λ submitted.
        bind-Keeping (note_round o submitted.0) _ (plain _ (λ s. (refl, refl, refl))) (λ u.
          bind-Keeping (save_with o) _ (save-Keeping o)
            (λ u. plain (wait_on_round o submitted.0 request) (λ s. (refl, refl, refl)))))

  proof_or-Keeping : (again : Run S P) (w : Waited P) → Keeping again → Keeping (proof_or o again w)
  unfolding proof_or
  proof_or-Keeping again (proof p) h = record { keeps = λ s. (refl, refl, refl) }
  proof_or-Keeping again crashed h = record { keeps = λ s. (refl, refl, refl) }
  proof_or-Keeping again (failed f) h = h
  proof_or-Keeping again timed_out h = h
  proof_or-Keeping again polling h = h

  attest_from-Keeping : (more : ℕ) → Keeping (attest_from o more request)
  unfolding attest_from gives_up
  attest_from-Keeping zero =
      bind-Keeping (attempt o request) _ attempt-Keeping
        (λ w. proof_or-Keeping (gives_up o) w (plain (gives_up o) (λ s. (refl, refl, refl))))
  attest_from-Keeping (suc more) =
      bind-Keeping (attempt o request) _ attempt-Keeping
        (λ w. proof_or-Keeping (attest_from o more request) w (attest_from-Keeping more))

  pub attest-Keeping : Keeping (attest o request)
  unfolding attest
  attest-Keeping = attest_from-Keeping 2
