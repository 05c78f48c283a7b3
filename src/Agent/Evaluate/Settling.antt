-- ===== src/Agent/Evaluate/Settling.antt =====
-- `settleDecision` of go/tools/cmd/aegis/cmd_evaluate.go: what it leaves behind when it ends without an
-- error.
use aegis_labs.Common.{
  ℕ, String, ◌≡◌, refl, ◌∙◌, ap, sym, Bool, true, Option, none, some, Outcome, ok, map_err_ok,
}
use mathlib.Core.Path.{subst₃}
use aegis_labs.Common.Exec.{run_ok, lift, ◌>>◌}
use aegis_labs.Common.Bytes.{Hash}
use aegis_labs.Model.{EvaluateResponse}
use aegis_labs.Payout.Decision.{ActionResponse}
use aegis_labs.Payout.Settle.{SettleFault, settle}
use aegis_labs.Agent.Pool.{Pool, balance}
use aegis_labs.Agent.Records.{Policies, JsonLaws, put, load_state, loads-save}
use aegis_labs.Agent.World.{
  Outside, Session, Settings, EvaluateFault, pool_fault, save_with, save_ok, save_keeps,
}
use aegis_labs.Agent.Evaluate.{
  shown_and, money_check, relay_decision, settled_tx, note_settled, balance_now, settlement_now,
  settle_decision, report_money,
}
use aegis_labs.Agent.Score.{policy_hash}

settled_tx_ok : (tx : Hash) (f : Option SettleFault) {t : Hash} → settled_tx tx f ≡ ok t → f ≡ none
unfolding settled_tx
settled_tx_ok tx none h = refl
settled_tx_ok tx (some f) h = absurd cc

module _ {S P : Type 0} (o : Outside S P) (settings : Settings) where
  shown_ok :
      (verdict : Outcome EvaluateFault (Unit {0})) (s : Session S) (u : Unit {0})
      → (shown_and o settings verdict s).0 ≡ ok u
      → (verdict ≡ ok u) × ((shown_and o settings verdict s).1 ≡ s)
  unfolding shown_and policy_hash settlement_now
  shown_ok verdict s u h =
      let (r, shown, h1, is) =
        run_ok (settlement_now o settings (o.hex_to_hash s.current.policy_id)) (λ r. lift verdict) s
          h in
      (h1, ap (λ x. x.1) is)

  report_money_ok :
      (pool : Pool) (d : EvaluateResponse) (before to_before : ℕ) (s : Session S) (u : Unit {0})
      → (report_money o settings pool d before to_before s).0 ≡ ok u
      → (after to_after : ℕ) × (balance (o.pool_calls s.world.outside) pool pool.executor
          ≡ ok after)
        × (balance (o.pool_calls s.world.outside) pool settings.payout_to ≡ ok to_after)
        × (money_check d.payout_amount before after to_before to_after ≡ ok u)
        × ((report_money o settings pool d before to_before s).1 ≡ s)
  unfolding report_money balance_now
  report_money_ok pool d before to_before s u h =
      let (after, read, h1, is1) = run_ok (balance_now o settings pool pool.executor) _ s h in
      let (to_after, read_to, h2, is2) =
        run_ok (balance_now o settings pool settings.payout_to) _ s h1 in
      let (check, still) =
        shown_ok (money_check d.payout_amount before after to_before to_after) s u h2 in
      (
        after,
        to_after,
        map_err_ok pool_fault _ read,
        map_err_ok pool_fault _ read_to,
        check,
        ap (λ r. r.1) (is1 ∙ is2) ∙ still,
      )

  -- A session with a settled policy: the two balances as they now stand pass the check against the
  -- decision, and the file holds the policy's record as settled, under the name that it had.
  pub record IsClosed (pool : Pool) (d : EvaluateResponse) (before to_before : ℕ) (name : String)
      (registered : Bool) (ps : Policies) (s' : Session S) : Type 0 where
    pub after : ℕ
    pub to_after : ℕ
    pub pool_read : balance (o.pool_calls s'.world.outside) pool pool.executor ≡ ok after
    pub recipient_read :
        balance (o.pool_calls s'.world.outside) pool settings.payout_to ≡ ok to_after
    pub money : money_check d.payout_amount before after to_before to_after ≡ ok tt
    pub same_name : s'.current.name ≡ name
    pub same_model : s'.current.model_registered ≡ registered
    pub is_settled : s'.current.settled ≡ true
    pub in_file : load_state o.json s'.world.file ≡ ok (put s'.current ps)

  pub IsClosed-moved :
      {pool : Pool} {d : EvaluateResponse} {before to_before : ℕ} {name name' : String}
      {registered registered' : Bool} {ps : Policies} {s s' : Session S}
      → IsClosed pool d before to_before name registered ps s
      → name ≡ name'
      → registered ≡ registered'
      → s ≡ s'
      → IsClosed pool d before to_before name' registered' ps s'
  IsClosed-moved {pool = pool} {d = d} {before = before} {to_before = to_before} {ps = ps} closed n
        r same =
      subst₃ (λ x y z. IsClosed pool d before to_before x y ps z) n r same closed

  saved_report :
      (pool : Pool) (d : EvaluateResponse) (before to_before : ℕ) (s : Session S)
      → JsonLaws o.json
      → s.current.settled ≡ true
      → ((save_with o >> report_money o settings pool d before to_before) s).0 ≡ ok tt
      → IsClosed pool d before to_before s.current.name s.current.model_registered s.policies
          ((save_with o >> report_money o settings pool d before to_before) s).1
  saved_report pool d before to_before s laws marked h =
      let (u, saved, h1, is) =
        run_ok (save_with o) (λ u. report_money o settings pool d before to_before) s h in
      let (after, to_after, read, read_to, check, still) =
        report_money_ok pool d before to_before (save_with o s).1 tt h1 in
      let same : (save_with o s).1.current ≡ s.current = (save_keeps o s).2 in
      rw (is, still)
        record {
          after = after;
          to_after = to_after;
          pool_read = read;
          recipient_read = read_to;
          money = check;
          same_name = ap (λ r. r.name) same;
          same_model = ap (λ r. r.model_registered) same;
          is_settled = ap (λ r. r.settled) same ∙ marked;
          in_file =
              loads-save o.json (o.disk s.world.outside) (put s.current s.policies)
                (save_with o s).1.world.file laws (save_ok o s u saved).0
              ∙ ap (λ r. ok (put r s.policies)) (sym same);
        }

  relay_ok :
      (response : ActionResponse) (s : Session S) (tx : Hash)
      → (relay_decision o settings response s).0 ≡ ok tx
      → (settle o.crypto (o.chain s.world.outside) (some response)).fault ≡ none
  unfolding relay_decision
  relay_ok response s tx h = settled_tx_ok _ _ h

  -- `settleDecision` without an error: the relay had none, and it leaves a session with a settled policy.
  pub settle_decision_ok :
      (pool : Pool) (d : EvaluateResponse) (response : ActionResponse) (before to_before : ℕ)
      (s : Session S)
      → JsonLaws o.json
      → (settle_decision o settings pool d response before to_before s).0 ≡ ok tt
      → ((settle o.crypto (o.chain s.world.outside) (some response)).fault ≡ none)
        × IsClosed pool d before to_before s.current.name s.current.model_registered s.policies
            (settle_decision o settings pool d response before to_before s).1
  unfolding settle_decision note_settled
  settle_decision_ok pool d response before to_before s laws h =
      let (tx, relayed, h1, is) = run_ok (relay_decision o settings response) _ s h in
      let noted = (relay_decision o settings response s).1 in
      (
        relay_ok response s tx relayed,
        rw is (
            saved_report pool d before to_before
              (record noted {
                current = record noted.current { settle_tx = o.hash_hex tx; settled = true };
              })
              laws refl h1),
      )
