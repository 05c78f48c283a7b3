-- ===== src/Extension/Scoring.antt =====
-- `evaluatePayout` of go/internal/extension/extension.go, over `math/big`'s integers.
pub mod Owed
pub mod Bounds
pub mod Monotone
pub mod Payouts
pub mod Refused
use aegis_labs.Common.{
  ℕ, ◌≡◌, refl, Bool, true, false, not, Option, none, some, if◌then◌else◌, Outcome, ok, err, panic,
  check, ◌>>=◌,
}
use aegis_labs.Common.Int.{ℤ, pos, negsuc, is_neg, lt_ℤ, ◌-ℤ◌, ◌*ℤ◌, div_ℤ}
use aegis_labs.Model.{ModelParameters, ModelFault, validate}

pub data EvalFault : Type 0 where
  rainfall_negative : EvalFault
  model_rejected : ModelFault → EvalFault

-- one hundred percent in basis points
abbrev pub bps : ℤ
bps = pos 10000

-- A pointer to an integer is read; a nil pointer panics.
abbrev pub deref : Option ℤ → Outcome EvalFault ℤ
deref none = panic
deref (some x) = ok x

abbrev pub divide : ℤ → ℤ → Outcome EvalFault ℤ
divide x y = elim (div_ℤ x y) [ none ↦ panic | some q ↦ ok q ]

abbrev pub no_rainfall : Option ℤ → Bool
no_rainfall none = true
no_rainfall (some r) = is_neg r

abbrev pub reject_model : Option ModelFault → Option EvalFault
reject_model none = none
reject_model (some e) = some (model_rejected e)

-- The ramp below the trigger, the cap and the dust floor.
ramp : ModelParameters → ℤ → Outcome EvalFault ℤ
ramp model rainfall = do
  let trigger = pos model.trigger_tenths_mm
  let span = trigger -ℤ pos model.exit_tenths_mm
  let below = trigger -ℤ rainfall
  let shortfall = if lt_ℤ span below then span else below
  sum ← deref model.sum_insured_units
  payout ← divide (sum *ℤ shortfall *ℤ pos model.payout_factor_bps) (span *ℤ bps)
  let capped = if lt_ℤ sum payout then sum else payout
  floor ← deref model.min_payout_units
  ok (if lt_ℤ capped floor then pos 0 else capped)

-- The code behind the two guards.
score : ModelParameters → ℤ → Outcome EvalFault ℤ
unfolding ramp
score model rainfall =
    if not (lt_ℤ rainfall (pos model.trigger_tenths_mm)) then ok (pos 0) else ramp model rainfall

unfoldable pub evaluate_payout : ModelParameters → Option ℤ → Outcome EvalFault ℤ
unfolding score
evaluate_payout model rainfall =
    if no_rainfall rainfall
    then err rainfall_negative
    else check (reject_model (validate model)) (do r ← deref rainfall; score model r)
