-- ===== src/Agent/Evaluate.antt =====
-- go/tools/cmd/aegis/cmd_evaluate.go: `settleDecision` and `runEvaluate`. What is
-- only printed is left out, and so are the flags, the proxy check and the connection in front.
pub mod Spending
pub mod Scored
pub mod Money
pub mod Refused
pub mod Settling
pub mod Once
pub mod Usable
use aegis_labs.Common.{
  ℕ, Bool, true, false, not, ◌||◌, Option, none, some, if◌then◌else◌, ◌==◌, Outcome, ok, err, panic,
  map_err, length,
}
use aegis_labs.Common.{◌>>=◌ as bind}
use aegis_labs.Common.Exec.{lift, ◌>>=◌, ◌>>◌}
use aegis_labs.Common.Bytes.{Bytes, Hash, Address}
use aegis_labs.Common.Int.{ℤ, pos, sub_ℕ, eq_ℤ}
use aegis_labs.Model.{EvaluateResponse}
use aegis_labs.Fdc.HexText.{trim_prefix, decode_string}
use aegis_labs.Fdc.Submit.{WeatherReading, decode_weather_reading}
use aegis_labs.Payout.Decision.{ActionResponse}
use aegis_labs.Payout.Settle.{SettleFault, receipt_failed, Record, settle, settlement_of}
use aegis_labs.Agent.Records.{PolicyRecord, Policies, get, load_state}
use aegis_labs.Agent.Pool.{Pool, resolve_pool, balance}
use aegis_labs.Agent.World.{
  Outside, World, Session, Settings, Run, EvaluateFault, settlement, state_fault, no_policy,
  no_model, already_settled, unusable_request, pool_fault, decoding_reading, settling,
  settlement_record, money_moved, called, modify, save_with,
}
use aegis_labs.Agent.Attest.{attest}
use aegis_labs.Agent.Score.{score_in_enclave, policy_hash}

-- Whether the transaction was sent before the call ended.
settlement_sent : Option SettleFault → Bool
settlement_sent none = true
settlement_sent (some receipt_failed) = true
settlement_sent (some _) = false

settled_tx : Hash → Option SettleFault → Outcome EvaluateFault Hash
settled_tx tx none = ok tx
settled_tx tx (some f) = err (settling f)

-- What the command says of the money: the two deltas against the decision. A nil amount panics.
unfoldable pub money_check : Option ℤ → ℕ → ℕ → ℕ → ℕ → Outcome EvaluateFault (Unit {0})
money_check none pool_before pool_after recipient_before recipient_after = panic
money_check (some amount) pool_before pool_after recipient_before recipient_after =
    let pool_delta = sub_ℕ pool_before pool_after in
    let recipient_delta = sub_ℕ recipient_after recipient_before in
    if eq_ℤ amount (pos 0)
    then ok tt
    else if not (eq_ℤ recipient_delta amount) || not (eq_ℤ pool_delta amount)
    then err (money_moved pool_delta recipient_delta)
    else ok tt

module _ {S P : Type 0} (o : Outside S P) (settings : Settings) where
  unfoldable pub note_settled : Hash → Run S (Unit {0})
  note_settled tx = modify (λ r. record r { settle_tx = o.hash_hex tx; settled = true })

  unfoldable pub relay_decision : ActionResponse → Run S Hash
  unfolding settlement_sent settled_tx
  relay_decision response s =
      let r = settle o.crypto (o.chain s.world.outside) (some response) in
      (
        settled_tx r.tx r.fault,
        called (o.after_settle response) (settlement_sent r.fault)
            (settlement (o.hex_to_hash s.current.policy_id)) s,
      )

  unfoldable pub balance_now : Pool → Address → Run S ℕ
  balance_now pool account s =
      (map_err pool_fault (balance (o.pool_calls s.world.outside) pool account), s)

  unfoldable pub settlement_now : Hash → Run S Record
  settlement_now id s = (map_err settlement_record (settlement_of (o.chain s.world.outside) id), s)

  -- The settlement's record is read and shown, and then the verdict is given.
  unfoldable pub shown_and : Outcome EvaluateFault (Unit {0}) → Run S (Unit {0})
  unfolding policy_hash settlement_now
  shown_and verdict = do id ← policy_hash o settings; settlement_now id; lift verdict

  -- The part of `settleDecision` behind the record of the settlement.
  unfoldable pub report_money : Pool → EvaluateResponse → ℕ → ℕ → Run S (Unit {0})
  unfolding balance_now shown_and
  report_money pool decision pool_before recipient_before = do
    pool_after ← balance_now pool pool.executor
    recipient_after ← balance_now pool settings.payout_to
    shown_and
        (money_check decision.payout_amount pool_before pool_after recipient_before recipient_after)

  unfoldable pub settle_decision :
      Pool → EvaluateResponse → ActionResponse → ℕ → ℕ → Run S (Unit {0})
  unfolding relay_decision note_settled report_money
  settle_decision pool decision response pool_before recipient_before = do
    tx ← relay_decision response
    note_settled tx
    save_with o
    report_money pool decision pool_before recipient_before

  unfoldable pub pool_now : Run S Pool
  pool_now s = (map_err pool_fault (resolve_pool (o.pool_calls s.world.outside)), s)

  unfoldable pub read_reading : P → Run S WeatherReading
  read_reading p = lift (
      map_err decoding_reading
        (decode_weather_reading o.abi_inputs o.unpack_readings (some (o.attested p))))

  -- The part of `runEvaluate` behind the two balances.
  unfoldable pub settle_from : Pool → Bytes → ℕ → ℕ → Run S (Unit {0})
  unfolding read_reading
  settle_from pool request pool_before recipient_before = do
    p ← attest o request
    read_reading p
    scored ← score_in_enclave o settings p
    settle_decision pool scored.0 scored.1 pool_before recipient_before

  -- The part behind the guards, with the bytes of the attestation request.
  unfoldable pub evaluate_policy : Bytes → Run S (Unit {0})
  unfolding balance_now pool_now settle_from
  evaluate_policy request = do
    pool ← pool_now
    pool_before ← balance_now pool pool.executor
    recipient_before ← balance_now pool settings.payout_to
    settle_from pool request pool_before recipient_before

  request_bytes : Option Bytes → Outcome EvaluateFault Bytes
  request_bytes none = err unusable_request
  request_bytes (some b) = if length b == 0 then err unusable_request else ok b

  -- The guards on the record, and its request.
  usable : Option PolicyRecord → Outcome EvaluateFault (PolicyRecord × Bytes)
  unfolding request_bytes
  usable none = err no_policy
  usable (some r) =
      if not r.model_registered
      then err no_model
      else if r.settled
      then err already_settled
      else bind (request_bytes (decode_string (trim_prefix r.abi_encoded_request))) (λ b. ok (r, b))

  unfoldable pub opened : World S → Outcome EvaluateFault (Policies × PolicyRecord × Bytes)
  unfolding usable
  opened w =
      bind (map_err state_fault (load_state o.json w.file))
        (λ ps. bind (usable (get settings.policy_name ps)) (λ (r, request). ok (ps, r, request)))

  closed : Outcome EvaluateFault (Unit {0}) × Session S → Outcome EvaluateFault (Unit {0}) × World S
  closed (outcome, s) = (outcome, s.world)

  evaluated_from :
      World S
      → Outcome EvaluateFault (Policies × PolicyRecord × Bytes)
      → Outcome EvaluateFault (Unit {0}) × World S
  unfolding closed
  evaluated_from w (err f) = (err f, w)
  evaluated_from w panic = (panic, w)
  evaluated_from w (ok (ps, r, request)) =
      closed (evaluate_policy request (record { world = w; policies = ps; current = r }))

  unfoldable pub run_evaluate : World S → Outcome EvaluateFault (Unit {0}) × World S
  unfolding evaluated_from
  run_evaluate w = evaluated_from w (opened w)
