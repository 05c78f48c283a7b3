-- ===== src/Extension/Scoring/Bounds.antt =====
-- The cap, the dust floor and the share along the ramp, for what a model owes.
use aegis_labs.Common.{ℕ, ◌+◌, ◌-◌, ◌*◌, ◌/◌, ◌≤◌, ◌<◌, ◌≡◌, ◌⊎◌, arith}
use native.Mathlib.Nat.{div-mul-le_self, lt-div-mul-add, le-div_iff_mul-le}
use aegis_labs.Extension.Scoring.Owed.{Terms, shortfall, share, owed}

-- A payout never passes the sum insured, and is zero or at least the dust floor.
pub owed_bounds : (t : Terms) (r : ℕ) → (owed t r ≤ t.sum) × ((owed t r ≡ 0) ⊎ (t.floor ≤ owed t r))
unfolding owed
owed_bounds t r = ground arith

-- Rain at or above the trigger pays nothing.
pub owed_above : (t : Terms) (r : ℕ) → t.trigger ≤ r → owed t r ≡ 0
unfolding owed
owed_above t r h = ground arith

span_pos : (t : Terms) → 0 < (t.trigger - t.exit) * 10000
span_pos t = ground arith

shortfall_full : (t : Terms) (r : ℕ) → r ≤ t.exit → shortfall t r ≡ t.trigger - t.exit
shortfall_full t r h = ground arith

scale_up : (s k f : ℕ) → 10000 ≤ f → s * (k * 10000) ≤ s * k * f
scale_up s k f h = grind arith

full_share : (t : Terms) (r : ℕ) → r ≤ t.exit → 10000 ≤ t.factor → t.sum ≤ share t r
full_share t r h f =
    (le-div_iff_mul-le (span_pos t)).1
      (rw (shortfall_full t r h) (scale_up t.sum (t.trigger - t.exit) t.factor f))

-- At or below the exit a factor of at least one hundred percent pays the whole sum insured, unless
-- that lies under the dust floor.
pub owed_full :
    (t : Terms) (r : ℕ) → r ≤ t.exit → 10000 ≤ t.factor → t.floor ≤ t.sum → owed t r ≡ t.sum
unfolding owed
owed_full t r h f d = ground (arith, full_share t r h f)

owed_share :
    (t : Terms) (r : ℕ)
    → t.exit < r
    → 0 < owed t r
    → owed t r < t.sum
    → owed t r ≡ t.sum * (t.trigger - r) * t.factor / ((t.trigger - t.exit) * 10000)
unfolding owed
owed_share t r h p c = ground arith

truncated : (x d : ℕ) → 0 < d → (x / d * d ≤ x) × (x < (x / d + 1) * d)
truncated x d h = (div-mul-le_self x d, grind (arith, lt-div-mul-add {a = x} {b = d} h))

-- Between exit and trigger a payout that is neither zero nor capped is the exact share, truncated.
pub owed_pro_rata :
    (t : Terms) (r : ℕ)
    → t.exit < r
    → 0 < owed t r
    → owed t r < t.sum
    → (owed t r * ((t.trigger - t.exit) * 10000) ≤ t.sum * (t.trigger - r) * t.factor)
      × (t.sum * (t.trigger - r) * t.factor < (owed t r + 1) * ((t.trigger - t.exit) * 10000))
owed_pro_rata t r h p c =
    rw (owed_share t r h p c)
      (truncated (t.sum * (t.trigger - r) * t.factor) ((t.trigger - t.exit) * 10000) (span_pos t))
