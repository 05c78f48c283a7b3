-- ===== src/Extension/Scoring/Owed.antt =====
-- The scoring function over the natural numbers, beside `evaluatePayout` of
-- go/internal/extension/extension.go.
use aegis_labs.Common.{
  ℕ, ◌-◌, ◌*◌, ◌/◌, ◌<◌, ◌≡◌, refl, ◌↔◌, true, false, Option, none, some, arith, ltb, leb,
  if◌then◌else◌, ok, err,
}
use aegis_labs.Common.Int.{uint256_mod, lt_ℤ, ◌-ℤ◌, ◌*ℤ◌, div_ℤ, ℤ, pos, negsuc}
use aegis_labs.Model.{ModelParameters, ModelFault, validate}
use aegis_labs.Extension.Scoring.{
  evaluate_payout, ramp, score, no_rainfall, rainfall_negative, model_rejected,
}

-- A model that passed `Validate`, with its two amounts named.
pub record Terms : Type 0 where
  pub trigger : ℕ
  pub exit : ℕ
  pub sum : ℕ
  pub factor : ℕ
  pub floor : ℕ
  pub exit_below : exit < trigger
  pub sum_pos : 0 < sum
  pub sum_256 : sum < uint256_mod
  pub factor_pos : 0 < factor

abbrev pub model_of : Terms → ModelParameters
model_of t = record {
  trigger_tenths_mm = t.trigger;
  exit_tenths_mm = t.exit;
  sum_insured_units = some (pos t.sum);
  payout_factor_bps = t.factor;
  min_payout_units = some (pos t.floor);
}

-- How far the reading falls below the trigger, at most the whole ramp.
abbrev pub shortfall : Terms → ℕ → ℕ
shortfall t r =
    if ltb (t.trigger - t.exit) (t.trigger - r) then t.trigger - t.exit else t.trigger - r

-- The share of the sum insured, before cap and floor.
abbrev pub share : Terms → ℕ → ℕ
share t r = t.sum * shortfall t r * t.factor / ((t.trigger - t.exit) * 10000)

abbrev pub capped : Terms → ℕ → ℕ
capped t r = if ltb t.sum (share t r) then t.sum else share t r

unfoldable pub owed : Terms → ℕ → ℕ
owed t r = if leb t.trigger r then 0 else if ltb (capped t r) t.floor then 0 else capped t r

terms :
    (m : ModelParameters) (s f : Option ℤ)
    → m.sum_insured_units ≡ s
    → m.min_payout_units ≡ f
    → validate m ≡ none
    → (t : Terms) × (m ≡ model_of t)
unfolding validate
terms m (some (pos s)) (some (pos f)) es ef h = (
  record {
    trigger = m.trigger_tenths_mm;
    exit = m.exit_tenths_mm;
    sum = s;
    factor = m.payout_factor_bps;
    floor = f;
    exit_below = ground arith;
    sum_pos = ground arith;
    sum_256 = ground arith;
    factor_pos = ground arith;
  },
  cc,
)
terms m none f es ef h = ground arith
terms m (some (negsuc s)) f es ef h = ground arith
terms m (some (pos s)) none es ef h = ground arith
terms m (some (pos s)) (some (negsuc f)) es ef h = ground arith

-- `Validate` accepts exactly the models whose sum insured is a positive number of at most 256
-- bits, whose floor is a natural number, whose exit lies below the trigger and whose factor is not
-- zero.
pub validate_iff : (m : ModelParameters) → (validate m ≡ none) ↔ ((t : Terms) × (m ≡ model_of t))
unfolding validate
validate_iff m =
    (terms m m.sum_insured_units m.min_payout_units refl refl, λ (t, e). rw e (ground arith))

ramp_owed :
    (t : Terms) (r : ℕ)
    → r < t.trigger
    → ramp (model_of t) (pos r) ≡ ok (pos (if ltb (capped t r) t.floor then 0 else capped t r))
unfolding ramp lt_ℤ ◌-ℤ◌ ◌*ℤ◌ div_ℤ
ramp_owed t r h = ground arith

score-owed : (t : Terms) (r : ℕ) → score (model_of t) (pos r) ≡ ok (pos (owed t r))
unfolding score owed lt_ℤ ◌-ℤ◌ ◌*ℤ◌ div_ℤ
score-owed t r = ground arith

-- On every model that passed `Validate` and every reading, the code returns `owed`: it neither
-- errs nor panics.
pub evaluate_payout-owed :
    (t : Terms) (r : ℕ) → evaluate_payout (model_of t) (some (pos r)) ≡ ok (pos (owed t r))
unfolding evaluate_payout
evaluate_payout-owed t r = rw ((validate_iff (model_of t)).1 (t, refl)) (score-owed t r)

-- The error of the first of the two guards that fails.
pub evaluate_payout_err :
    (m : ModelParameters) (rainfall : Option ℤ)
    → (no_rainfall rainfall ≡ true → evaluate_payout m rainfall ≡ err rainfall_negative)
      × ((e : ModelFault)
          → no_rainfall rainfall ≡ false
          → validate m ≡ some e
          → evaluate_payout m rainfall ≡ err (model_rejected e))
unfolding evaluate_payout
evaluate_payout_err m rainfall = (λ h. rw h, λ e h v. rw (h, v))
