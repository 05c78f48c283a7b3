-- ===== src/EndToEnd/Payout.antt =====
-- `expectedPayout` of go/tools/cmd/run-test/main.go, beside `evaluatePayout` of
-- go/internal/extension/extension.go.
use aegis_labs.Common.{
  ◌>>=◌, ℕ, ◌<◌, ◌≡◌, sym, ◌∙◌, not, none, some, arith, ltb, if◌then◌else◌, Outcome, ok,
}
use aegis_labs.Common.Int.{ℤ, pos, lt_ℤ, ◌-ℤ◌, ◌*ℤ◌, div_ℤ}
use aegis_labs.Model.{ModelParameters, validate}
use aegis_labs.Extension.Scoring.{EvalFault, bps, deref, divide, evaluate_payout}
use aegis_labs.Extension.Scoring.Owed.{
  Terms, model_of, capped, owed, validate_iff, evaluate_payout-owed,
}

unfoldable pub expected_ramp : ModelParameters → ℤ → Outcome EvalFault ℤ
expected_ramp m rainfall = do
  let trigger = pos m.trigger_tenths_mm
  let below = trigger -ℤ rainfall
  let span = trigger -ℤ pos m.exit_tenths_mm
  let shortfall = if lt_ℤ span below then span else below
  sum ← deref m.sum_insured_units
  payout ← divide (sum *ℤ shortfall *ℤ pos m.payout_factor_bps) (span *ℤ bps)
  let capped = if lt_ℤ sum payout then sum else payout
  floor ← deref m.min_payout_units
  ok (if lt_ℤ capped floor then pos 0 else capped)

unfoldable pub expected_payout : ModelParameters → ℤ → Outcome EvalFault ℤ
unfolding expected_ramp
expected_payout m rainfall =
    if not (lt_ℤ rainfall (pos m.trigger_tenths_mm)) then ok (pos 0) else expected_ramp m rainfall

expected_ramp_owed :
    (t : Terms) (r : ℕ)
    → r < t.trigger
    → expected_ramp (model_of t) (pos r)
      ≡ ok (pos (if ltb (capped t r) t.floor then 0 else capped t r))
unfolding expected_ramp lt_ℤ ◌-ℤ◌ ◌*ℤ◌ div_ℤ
expected_ramp_owed t r h = ground arith

expected_payout-owed :
    (t : Terms) (r : ℕ) → expected_payout (model_of t) (pos r) ≡ ok (pos (owed t r))
unfolding expected_payout owed lt_ℤ ◌-ℤ◌ ◌*ℤ◌ div_ℤ
expected_payout-owed t r = ground arith

-- On every model that passes `Validate` and every reading that is not negative, the amount that the test recomputes is the one
-- that the enclave's scoring function returns.
pub expected_payout-evaluate_payout :
    (m : ModelParameters) (r : ℕ)
    → validate m ≡ none
    → evaluate_payout m (some (pos r)) ≡ expected_payout m (pos r)
expected_payout-evaluate_payout m r v =
    let (t, is) = (validate_iff m).0 v in
    rw is (evaluate_payout-owed t r ∙ sym (expected_payout-owed t r))
