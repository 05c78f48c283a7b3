-- ===== src/Agent/Evaluate/Once.antt =====
-- `settleDecision` and `runEvaluate` of go/tools/cmd/aegis/cmd_evaluate.go: what a run that ends
-- without an error leaves behind, and the next run.
use aegis_labs.Common.{
  ℕ, String, ◌≡◌, refl, ◌∙◌, ap, sym, some, Outcome, ok, err, panic, map_err_ok,
}
use aegis_labs.Common.Exec.{run_ok, lift, pure, ◌>>=◌}
use aegis_labs.Common.Bytes.{Bytes, Hash}
use aegis_labs.Model.{EvaluateResponse}
use aegis_labs.Agent.Pool.{Pool, balance}
use aegis_labs.Agent.Records.{
  PolicyRecord, Stored, Policies, JsonLaws, get, put, get-put, load_state,
}
use aegis_labs.Agent.World.{
  Outside, World, Session, Settings, EvaluateFault, pool_fault, already_settled, save_with,
}
use aegis_labs.Agent.Evaluate.Settling.{IsClosed, IsClosed-moved, settle_decision_ok}
use aegis_labs.Agent.Evaluate.Refused.{opened_ok, run_evaluate_refused}
use aegis_labs.Agent.Identity.{Keeping, plain, save-Keeping, bind-Keeping}
use aegis_labs.Agent.Attest.{attest}
use aegis_labs.Agent.Attest.Identity.{attest-Keeping}
use aegis_labs.Agent.Evaluate.{
  evaluate_policy, pool_now, opened, closed, evaluated_from, run_evaluate, settle_from,
  read_reading, balance_now, settle_decision,
}
use aegis_labs.Agent.Score.{
  checked_decision, collect, pass_on, await_result, send_evaluate, note_instruction, note_payout,
  score_in_enclave, policy_hash,
}

module _ {S P : Type 0} (o : Outside S P) (settings : Settings) where
  collect-Keeping : (instruction : Hash) → Keeping (collect o settings instruction)
  unfolding collect await_result policy_hash pass_on note_payout
  collect-Keeping instruction =
      bind-Keeping (await_result o settings instruction) _ (plain _ (λ s. (refl, refl, refl)))
        (λ response.
          bind-Keeping (policy_hash o settings) _ (plain _ (λ s. (refl, refl, refl))) (λ id.
            bind-Keeping (lift (checked_decision o id settings.payout_to response)) _
              (plain _ (λ s. (refl, refl, refl)))
              (λ decision.
                bind-Keeping (note_payout o settings decision.payout_amount) _
                  (plain _ (λ s. (refl, refl, refl)))
                  (λ u.
                    bind-Keeping (save_with o) _ (save-Keeping o)
                      (λ u. plain (pure (decision, response)) (λ s. (refl, refl, refl)))))))

  score-Keeping : (p : P) → Keeping (score_in_enclave o settings p)
  unfolding score_in_enclave send_evaluate note_instruction
  score-Keeping p =
      bind-Keeping (send_evaluate o settings p) _ (plain _ (λ s. (refl, refl, refl))) (λ sent.
        bind-Keeping (note_instruction o settings sent.0) _ (plain _ (λ s. (refl, refl, refl)))
          (λ u. bind-Keeping (save_with o) _ (save-Keeping o) (λ u. collect-Keeping sent.0)))

  -- From the enclave's answer to the settlement.
  scored_run :
      (pool : Pool) (p : P) (before to_before : ℕ) (s : Session S)
      → JsonLaws o.json
      → ((score_in_enclave o settings p >>= λ scored.
            settle_decision o settings pool scored.0 scored.1 before to_before)
          s).0
        ≡ ok tt
      → (d : EvaluateResponse) × (ps : Policies) × IsClosed o settings pool d before to_before
          s.current.name s.current.model_registered ps
          ((score_in_enclave o settings p >>= λ scored.
              settle_decision o settings pool scored.0 scored.1 before to_before)
            s).1
  scored_run pool p before to_before s laws h =
      let (scored, did, h1, is) =
        run_ok (score_in_enclave o settings p)
          (λ scored. settle_decision o settings pool scored.0 scored.1 before to_before) s h in
      let s' = (score_in_enclave o settings p s).1 in
      let (relayed, closed) =
        settle_decision_ok o settings pool scored.0 scored.1 before to_before s' laws h1 in
      let (name, id, model) = (score-Keeping p).keeps s in
      (scored.0, s'.policies, IsClosed-moved o settings closed name model (sym (ap (λ r. r.1) is)))

  -- From the attestation to the settlement.
  settled_run :
      (pool : Pool) (request : Bytes) (before to_before : ℕ) (s : Session S)
      → JsonLaws o.json
      → (settle_from o settings pool request before to_before s).0 ≡ ok tt
      → (d : EvaluateResponse) × (ps : Policies) × IsClosed o settings pool d before to_before
          s.current.name s.current.model_registered ps
          (settle_from o settings pool request before to_before s).1
  unfolding settle_from read_reading
  settled_run pool request before to_before s laws h =
      let (p, proved, h1, is) = run_ok (attest o request) _ s h in
      let s' = (attest o request s).1 in
      let (reading, read, h2, is') = run_ok (read_reading o settings p) _ s' h1 in
      let (d, ps, closed) = scored_run pool p before to_before s' laws h2 in
      let (name, id, model) = (attest-Keeping o request).keeps s in
      (d, ps, IsClosed-moved o settings closed name model (sym (ap (λ r. r.1) (is ∙ is'))))

  -- The part of a run behind the guards.
  evaluated_run :
      (request : Bytes) (s : Session S)
      → JsonLaws o.json
      → (evaluate_policy o settings request s).0 ≡ ok tt
      → (pool : Pool) × (before to_before : ℕ) × (d : EvaluateResponse) × (ps : Policies) × (balance
            (o.pool_calls s.world.outside)
            pool
            pool.executor
          ≡ ok before)
        × (balance (o.pool_calls s.world.outside) pool settings.payout_to ≡ ok to_before)
        × IsClosed o settings pool d before to_before s.current.name s.current.model_registered ps
            (evaluate_policy o settings request s).1
  unfolding evaluate_policy pool_now balance_now
  evaluated_run request s laws h =
      let (pool, resolved, h1, is1) = run_ok (pool_now o settings) _ s h in
      let (before, read, h2, is2) = run_ok (balance_now o settings pool pool.executor) _ s h1 in
      let (to_before, read_to, h3, is3) =
        run_ok (balance_now o settings pool settings.payout_to) _ s h2 in
      let (d, ps, closed) = settled_run pool request before to_before s laws h3 in
      (
        pool,
        before,
        to_before,
        d,
        ps,
        map_err_ok pool_fault _ read,
        map_err_ok pool_fault _ read_to,
        IsClosed-moved o settings closed refl refl (sym (ap (λ r. r.1) (is1 ∙ is2 ∙ is3))),
      )

  passed :
      (w : World S) (found : Outcome EvaluateFault (Policies × PolicyRecord × Bytes))
      → (evaluated_from o settings w found).0 ≡ ok tt
      → (ps : Policies) × (r : PolicyRecord) × (request : Bytes) × (found ≡ ok (ps, r, request))
        × ((evaluate_policy o settings request (record { world = w; policies = ps; current = r })).0
            ≡ ok tt)
        × ((evaluated_from o settings w found).1
            ≡ (evaluate_policy o settings request
                (record { world = w; policies = ps; current = r })).1.world)
  unfolding evaluated_from closed
  passed w (err f) h = absurd cc
  passed w panic h = absurd cc
  passed w (ok (ps, r, request)) h = (ps, r, request, refl, h, refl)

  -- The records of a state file: each is stored under the name that it carries.
  abbrev pub IsKeyed : Stored → Type 0
  IsKeyed f =
      (ps : Policies) (name : String) (r : PolicyRecord)
      → load_state o.json f ≡ ok ps
      → get name ps ≡ some r
      → r.name ≡ name

  -- A run without an error on a keyed file leaves a file on which every later run of the same policy is
  -- refused, with the world as it was: a policy is evaluated to its settlement once.
  pub run_evaluate_once :
      (w later : World S)
      → JsonLaws o.json
      → IsKeyed w.file
      → (run_evaluate o settings w).0 ≡ ok tt
      → later.file ≡ (run_evaluate o settings w).1.file
      → run_evaluate o settings later ≡ (err already_settled, later)
  unfolding run_evaluate
  run_evaluate_once w later laws keyed done same_file =
      let (ps, r, request, guarded, ran, is) = passed w (opened o settings w) done in
      let (loaded, held, model, unsettled) = opened_ok o settings w ps r request guarded in
      let s : Session S = record { world = w; policies = ps; current = r } in
      let (pool, before, to_before, d, ps', read, read_to, closed) =
        evaluated_run request s laws ran in
      let s' = (evaluate_policy o settings request s).1 in
      let name : s'.current.name ≡ settings.policy_name =
        closed.same_name ∙ keyed ps settings.policy_name r loaded held in
      let stored : load_state o.json later.file ≡ ok (put s'.current ps') =
        ap (load_state o.json) (same_file ∙ ap (λ x. x.file) is) ∙ closed.in_file in
      (((run_evaluate_refused o settings later (put s'.current ps') stored).1 s'.current
          (ap (λ n. get n (put s'.current ps')) (sym name) ∙ get-put s'.current ps')).1)
        (closed.same_model ∙ model) closed.is_settled
