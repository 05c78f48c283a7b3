-- ===== src/Agent/Evaluate/Spending.antt =====
-- `runEvaluate` of go/tools/cmd/aegis/cmd_evaluate.go: the transactions of a run, and the runs that
-- the guards refuse.
use aegis_labs.Common.{ℕ, ◌+◌, ◌≡◌, refl, List, [], ◌∷◌, All, Outcome, ok, err, panic, arith}
use aegis_labs.Common.Exec.{◌>>=◌, lift, pure}
use aegis_labs.Common.Bytes.{Bytes, Hash}
use aegis_labs.Model.{EvaluateResponse}
use aegis_labs.Payout.Decision.{ActionResponse}
use aegis_labs.Agent.Pool.{Pool}
use aegis_labs.Agent.Records.{PolicyRecord, Policies}
use aegis_labs.Agent.World.{
  Outside, World, Session, Settings, Run, Transaction, EvaluateFault, save_with, save_keeps,
}
use aegis_labs.Agent.Journal.{
  Sends, Sparing, bind-Sparing, quiet-Sparing, relax-Sparing, call_sends,
}
use aegis_labs.Agent.Attest.{attest}
use aegis_labs.Agent.Attest.Fees.{attest-Sends}
use aegis_labs.Agent.Evaluate.{
  settle_from, shown_and, report_money, money_check, note_settled, relay_decision, balance_now,
  settlement_now, settle_decision, pool_now, read_reading, evaluate_policy, opened, closed,
  evaluated_from, run_evaluate,
}
use aegis_labs.Agent.Score.{
  collect, pass_on, checked_decision, send_evaluate, await_result, note_instruction, note_payout,
  policy_hash, score_in_enclave,
}

abbrev pub Any : Transaction → Type 0
Any t = Unit {0}

any : (new : List Transaction) → All Any new
any [] = tt
any (t ∷ rest) = (tt, any rest)

module _ {S P : Type 0} (o : Outside S P) (settings : Settings) where
  -- The steps of a run behind its first one, from the last to the first.
  quiet :
      {A B : Type 0} (k : ℕ) (m : Run S A) (f : A → Run S B)
      → ((s : Session S) → (m s).1.world.journal ≡ s.world.journal)
      → ((a : A) → Sparing Any k (f a))
      → Sparing Any k (m >>= f)
  quiet k m f still rest =
      relax-Sparing Any (0 + k) k _ (omega arith)
        (bind-Sparing Any 0 k m f (quiet-Sparing Any m still) rest)

  send-Sparing : (p : P) → Sparing Any 1 (send_evaluate o settings p)
  unfolding send_evaluate
  send-Sparing p = record {
    sends = λ s.
        call_sends Any (o.after_evaluate (o.hex_to_hash s.current.policy_id) settings.payout_to p) _
          _ s tt;
  }

  relay-Sparing : (response : ActionResponse) → Sparing Any 1 (relay_decision o settings response)
  unfolding relay_decision
  relay-Sparing response = record { sends = λ s. call_sends Any (o.after_settle response) _ _ s tt }

  save_quiet : (s : Session S) → (save_with o s).1.world.journal ≡ s.world.journal
  save_quiet s = (save_keeps o s).0

  collect-Sparing : (instruction : Hash) → Sparing Any 0 (collect o settings instruction)
  unfolding collect pass_on note_payout policy_hash await_result
  collect-Sparing instruction =
      quiet 0 (await_result o settings instruction) _ (λ s. refl)
        (λ response.
          quiet 0 (policy_hash o settings) _ (λ s. refl)
            (λ id.
              quiet 0 (lift (checked_decision o id settings.payout_to response)) _ (λ s. refl)
                (λ decision.
                  quiet 0 (note_payout o settings decision.payout_amount) _ (λ s. refl)
                    (λ u.
                      quiet 0 (save_with o) _ save_quiet
                        (λ u. quiet-Sparing Any (pure (decision, response)) (λ s. refl))))))

  score-Sparing : (p : P) → Sparing Any 1 (score_in_enclave o settings p)
  unfolding score_in_enclave note_instruction
  score-Sparing p = bind-Sparing Any 1 0 _ _ (send-Sparing p) (λ sent.
      quiet 0 (note_instruction o settings sent.0) _ (λ s. refl)
        (λ u. quiet 0 (save_with o) _ save_quiet (λ u. collect-Sparing sent.0)))

  shown-Sparing :
      (verdict : Outcome EvaluateFault (Unit {0})) → Sparing Any 0 (shown_and o settings verdict)
  unfolding shown_and policy_hash settlement_now
  shown-Sparing verdict =
      quiet 0 (policy_hash o settings) _ (λ s. refl)
        (λ id.
          quiet 0 (settlement_now o settings id) _ (λ s. refl)
            (λ r. quiet-Sparing Any (lift verdict) (λ s. refl)))

  report-Sparing :
      (pool : Pool) (d : EvaluateResponse) (before to_before : ℕ)
      → Sparing Any 0 (report_money o settings pool d before to_before)
  unfolding report_money balance_now
  report-Sparing pool d before to_before =
      quiet 0 (balance_now o settings pool pool.executor) _ (λ s. refl)
        (λ after.
          quiet 0 (balance_now o settings pool settings.payout_to) _ (λ s. refl)
            (λ to_after.
              shown-Sparing (money_check d.payout_amount before after to_before to_after)))

  settle-Sparing :
      (pool : Pool) (d : EvaluateResponse) (response : ActionResponse) (before to_before : ℕ)
      → Sparing Any 1 (settle_decision o settings pool d response before to_before)
  unfolding settle_decision note_settled
  settle-Sparing pool d response before to_before =
      bind-Sparing Any 1 0 _ _ (relay-Sparing response) (λ tx.
        quiet 0 (note_settled o settings tx) _ (λ s. refl)
          (λ u. quiet 0 (save_with o) _ save_quiet (λ u. report-Sparing pool d before to_before)))

  attest-Sparing : (request : Bytes) → Sparing Any 3 (attest o request)
  attest-Sparing request = record {
    sends = λ s. let (new, is, few, all) = attest-Sends o request s in (new, is, few, any new);
  }

  evaluate-Sparing : (request : Bytes) → Sparing Any 5 (evaluate_policy o settings request)
  unfolding evaluate_policy pool_now balance_now settle_from read_reading
  evaluate-Sparing request =
      quiet 5 (pool_now o settings) _ (λ s. refl)
        (λ pool.
          quiet 5 (balance_now o settings pool pool.executor) _ (λ s. refl)
            (λ before.
              quiet 5 (balance_now o settings pool settings.payout_to) _ (λ s. refl)
                (λ to_before.
                  bind-Sparing Any 3 2 (attest o request) _ (attest-Sparing request) (λ p.
                    quiet 2 (read_reading o settings p) _ (λ s. refl)
                      (λ reading.
                        bind-Sparing Any 1 1 (score_in_enclave o settings p) _ (score-Sparing p)
                          (λ scored. settle-Sparing pool scored.0 scored.1 before to_before))))))

  evaluated_from-Sends :
      (w : World S) (found : Outcome EvaluateFault (Policies × PolicyRecord × Bytes))
      → Sends Any 5 w.journal (evaluated_from o settings w found).1.journal
  unfolding evaluated_from closed
  evaluated_from-Sends w (err f) = ([], refl, omega arith, tt)
  evaluated_from-Sends w panic = ([], refl, omega arith, tt)
  evaluated_from-Sends w (ok (ps, r, request)) =
      (evaluate-Sparing request).sends (record { world = w; policies = ps; current = r })

  -- However it ends, a run of `evaluate` sends at most five transactions.
  pub run_evaluate-Sends :
      (w : World S) → Sends Any 5 w.journal (run_evaluate o settings w).1.journal
  unfolding run_evaluate
  run_evaluate-Sends w = evaluated_from-Sends w (opened o settings w)
