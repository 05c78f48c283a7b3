-- ===== src/Extension/Scoring/Payouts.antt =====
-- `evaluatePayout` of go/internal/extension/extension.go on every model and reading that it accepts.
use aegis_labs.Common.{
  ℕ, ◌+◌, ◌-◌, ◌*◌, ◌≤◌, ◌<◌, ◌≡◌, refl, sym, ap, ◌∙◌, ◌⊎◌, ◌↔◌, Option, none, some, Outcome, ok,
  arith, err,
}
use aegis_labs.Common.Int.{ℤ, pos, negsuc}
use aegis_labs.Model.{ModelParameters, ModelFault, validate}
use aegis_labs.Extension.Scoring.{EvalFault, evaluate_payout}
use aegis_labs.Extension.Scoring.Owed.{
  Terms, model_of, owed, validate_iff, evaluate_payout-owed, evaluate_payout_err,
}
use aegis_labs.Extension.Scoring.Bounds.{owed_bounds, owed_full, owed_pro_rata}
use aegis_labs.Extension.Scoring.Monotone.{owed_antitone}

ok_inj : (x y : ℤ) (o : Outcome EvalFault ℤ) → o ≡ ok x → o ≡ ok y → x ≡ y
ok_inj x y o h k = ground arith

pos_inj : (a b : ℕ) → pos a ≡ pos b → a ≡ b
pos_inj a b h = ground arith

not_ok : {f : EvalFault} {x : ℤ} → err f ≡ ok x → ⊥
not_ok h = cc

-- What a payout says of its model and its reading.
abbrev pub IsOwed : ModelParameters → Option ℤ → ℤ → Type 0
IsOwed m rainfall x =
    (t : Terms) × (r : ℕ) × (m ≡ model_of t) × (rainfall ≡ some (pos r)) × (x ≡ pos (owed t r))

validated :
    (m : ModelParameters) (r : ℕ) (x : ℤ) (v : Option ModelFault)
    → validate m ≡ v
    → evaluate_payout m (some (pos r)) ≡ ok x
    → IsOwed m (some (pos r)) x
validated m r x none v h =
    let (t, is) = (validate_iff m).0 v in
    (
      t,
      r,
      is,
      refl,
      ok_inj _ _ (evaluate_payout m (some (pos r))) h (rw is (evaluate_payout-owed t r)),
    )
validated m r x (some e) v h =
    absurd (not_ok (sym ((evaluate_payout_err m (some (pos r))).1 e refl v) ∙ h))

accepted_reading :
    (m : ModelParameters) (rainfall : Option ℤ) (x : ℤ)
    → evaluate_payout m rainfall ≡ ok x
    → IsOwed m rainfall x
accepted_reading m none x h = absurd (not_ok (sym ((evaluate_payout_err m none).0 refl) ∙ h))
accepted_reading m (some (negsuc r)) x h =
    absurd (not_ok (sym ((evaluate_payout_err m (some (negsuc r))).0 refl) ∙ h))
accepted_reading m (some (pos r)) x h = validated m r x (validate m) refl h

-- A payout is returned exactly when the model passes `Validate` and the reading is a natural number,
-- and then it is the amount that the model owes for the reading.
pub evaluate_payout_iff :
    (m : ModelParameters) (rainfall : Option ℤ) (x : ℤ)
    → (evaluate_payout m rainfall ≡ ok x) ↔ (
        (t : Terms) × (r : ℕ) × (m ≡ model_of t) × (rainfall ≡ some (pos r)) × (x ≡ pos (owed t r)))
evaluate_payout_iff m rainfall x = (
  accepted_reading m rainfall x,
  λ (t, r, is, reading, paid). rw (is, reading, paid) (evaluate_payout-owed t r),
)

-- Whatever the model and the reading are, a payout that is returned is a natural number, is at most
-- the sum insured, and is zero or at least the dust floor.
pub payout_bounds :
    (m : ModelParameters) (rainfall : Option ℤ) (x : ℤ)
    → evaluate_payout m rainfall ≡ ok x
    → (p s f : ℕ) × (x ≡ pos p)
      × (m.sum_insured_units ≡ some (pos s))
      × (m.min_payout_units ≡ some (pos f))
      × (p ≤ s)
      × ((p ≡ 0) ⊎ (f ≤ p))
payout_bounds m rainfall x h =
    let (t, r, is, reading, paid) = accepted_reading m rainfall x h in
    let (cap, dust) = owed_bounds t r in (owed t r, t.sum, t.floor, paid, rw is, rw is, cap, dust)

paid :
    (t : Terms) (r p : ℕ) → evaluate_payout (model_of t) (some (pos r)) ≡ ok (pos p) → p ≡ owed t r
paid t r p h =
    pos_inj _ _
      (ok_inj _ _ (evaluate_payout (model_of t) (some (pos r))) h (evaluate_payout-owed t r))

-- On one model a wetter reading never pays more than a drier one.
pub payout_antitone :
    (t : Terms) (r r' p p' : ℕ)
    → r ≤ r'
    → evaluate_payout (model_of t) (some (pos r)) ≡ ok (pos p)
    → evaluate_payout (model_of t) (some (pos r')) ≡ ok (pos p')
    → p' ≤ p
payout_antitone t r r' p p' h e e' = rw (paid t r p e, paid t r' p' e') (owed_antitone t r r' h)

-- At or below the exit a factor of at least one hundred percent pays the whole sum insured, unless
-- that lies under the dust floor.
pub payout_full :
    (t : Terms) (r : ℕ)
    → r ≤ t.exit
    → 10000 ≤ t.factor
    → t.floor ≤ t.sum
    → evaluate_payout (model_of t) (some (pos r)) ≡ ok (pos t.sum)
payout_full t r h f d = evaluate_payout-owed t r ∙ ap (λ p. ok (pos p)) (owed_full t r h f d)

-- Between exit and trigger a payout that is neither zero nor capped is the sum insured times the
-- shortfall below the trigger over the whole ramp, times the factor in basis points, truncated to a
-- whole number of units.
pub payout_pro_rata :
    (t : Terms) (r p : ℕ)
    → t.exit < r
    → evaluate_payout (model_of t) (some (pos r)) ≡ ok (pos p)
    → 0 < p
    → p < t.sum
    → (p * ((t.trigger - t.exit) * 10000) ≤ t.sum * (t.trigger - r) * t.factor)
      × (t.sum * (t.trigger - r) * t.factor < (p + 1) * ((t.trigger - t.exit) * 10000))
payout_pro_rata t r p h e some_paid not_capped =
    rw (paid t r p e)
      (owed_pro_rata t r h (rw (paid t r p e) at some_paid) (rw (paid t r p e) at not_capped))
