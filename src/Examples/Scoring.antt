-- ===== src/Examples/Scoring.antt =====
-- The scoring theorems at a drought policy.
use aegis_labs.Common.{ℕ, ◌≤◌, ◌≡◌, ◌⊎◌, ◌↔◌, some, ok, err, arith}
use aegis_labs.Common.Int.{pos}
use aegis_labs.Model.{ModelParameters, ModelFault}
use aegis_labs.Extension.Scoring.{evaluate_payout, rainfall_negative, model_rejected}
use aegis_labs.Extension.Scoring.Owed.{Terms, model_of, owed, evaluate_payout-owed}
use aegis_labs.Extension.Scoring.Payouts.{evaluate_payout_iff, payout_bounds, payout_antitone}
use aegis_labs.Extension.Scoring.Refused.{IsReading, IsModel, evaluate_payout_refuses}
use aegis_labs.Examples.Data.{drought}

evaluate_payout_iff_example :
    (evaluate_payout (model_of drought) (some (pos 800)) ≡ ok (pos (owed drought 800))) ↔ (
      (t : Terms) × (r : ℕ) × (model_of drought ≡ model_of t)
      × (some (pos 800) ≡ some (pos r))
      × (pos (owed drought 800) ≡ pos (owed t r)))
evaluate_payout_iff_example =
    evaluate_payout_iff (model_of drought) (some (pos 800)) (pos (owed drought 800))

payout_bounds_example :
    (p s f : ℕ) × (pos (owed drought 800) ≡ pos p)
    × (some (pos 5000000) ≡ some (pos s))
    × (some (pos 100000) ≡ some (pos f))
    × (p ≤ s)
    × ((p ≡ 0) ⊎ (f ≤ p))
payout_bounds_example =
    payout_bounds (model_of drought) (some (pos 800)) (pos (owed drought 800))
      (evaluate_payout-owed drought 800)

payout_antitone_example : owed drought 1000 ≤ owed drought 800
payout_antitone_example =
    payout_antitone drought 800 1000 (owed drought 800) (owed drought 1000) (omega arith)
      (evaluate_payout-owed drought 800) (evaluate_payout-owed drought 1000)

drought_pays : evaluate_payout (model_of drought) (some (pos 800)) ≡ ok (pos 2250000)
unfolding owed
drought_pays = evaluate_payout-owed drought 800

-- The exit does not lie below the trigger.
abbrev upside_down : ModelParameters
upside_down = record (model_of drought) { exit_tenths_mm = 1300 }

evaluate_payout_refuses_example :
    ((evaluate_payout upside_down (some (pos 800)) ≡ err rainfall_negative)
      ↔ ¬ IsReading (some (pos 800)))
    × (((e : ModelFault) × (evaluate_payout upside_down (some (pos 800)) ≡ err (model_rejected e)))
        ↔ (IsReading (some (pos 800)) × ¬ IsModel upside_down))
    × (IsReading (some (pos 800))
        → IsModel upside_down
        → (n : ℕ) × (evaluate_payout upside_down (some (pos 800)) ≡ ok (pos n)))
evaluate_payout_refuses_example = evaluate_payout_refuses upside_down (some (pos 800))
