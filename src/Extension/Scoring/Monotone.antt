-- ===== src/Extension/Scoring/Monotone.antt =====
-- The order of two readings against the order of what they owe.
use aegis_labs.Common.{ℕ, ◌-◌, ◌*◌, ◌/◌, ◌≤◌, ◌<◌, arith, ltb, leb, if◌then◌else◌}
use native.Mathlib.Nat.{le-div_iff_mul-le, div-mul-le_self, le_trans}
use aegis_labs.Extension.Scoring.Owed.{Terms, shortfall, share, owed}

shortfall_antitone : (t : Terms) (r r' : ℕ) → r ≤ r' → shortfall t r' ≤ shortfall t r
shortfall_antitone t r r' h = ground arith

product_mono : (s f k k' : ℕ) → k ≤ k' → s * k * f ≤ s * k' * f
product_mono s f k k' h = grind arith

div_mono : (x y d : ℕ) → 0 < d → x ≤ y → x / d ≤ y / d
div_mono x y d p h = (le-div_iff_mul-le p).1 (le_trans (div-mul-le_self x d) h)

share_antitone : (t : Terms) (r r' : ℕ) → r ≤ r' → share t r' ≤ share t r
share_antitone t r r' h =
    div_mono _ _ ((t.trigger - t.exit) * 10000) (ground arith)
      (product_mono t.sum t.factor (shortfall t r') (shortfall t r) (shortfall_antitone t r r' h))

floor_mono :
    (sum floor x y : ℕ)
    → x ≤ y
    → (if ltb (if ltb sum x then sum else x) floor then 0 else if ltb sum x then sum else x)
      ≤ (if ltb (if ltb sum y then sum else y) floor then 0 else if ltb sum y then sum else y)
floor_mono sum floor x y h = ground arith

below_antitone :
    (t : Terms) (r r' x y : ℕ)
    → r ≤ r'
    → x ≤ y
    → (if leb t.trigger r' then 0 else x) ≤ (if leb t.trigger r then 0 else y)
below_antitone t r r' x y h k = ground arith

-- A wetter reading never pays more than a drier one.
pub owed_antitone : (t : Terms) (r r' : ℕ) → r ≤ r' → owed t r' ≤ owed t r
unfolding owed
owed_antitone t r r' h =
    below_antitone t r r' _ _ h
      (floor_mono t.sum t.floor (share t r') (share t r) (share_antitone t r r' h))
