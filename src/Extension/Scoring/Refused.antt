-- ===== src/Extension/Scoring/Refused.antt =====
-- `evaluatePayout` of go/internal/extension/extension.go: when it is an error, and which one.
use aegis_labs.Common.{
  ℕ, ◌≡◌, refl, ◌∙◌, ap, sym, ◌↔◌, Option, none, some, Outcome, ok, err, Option-cases, inl, inr,
}
use aegis_labs.Common.Int.{ℤ, pos, negsuc}
use aegis_labs.Model.{ModelParameters, ModelFault, validate}
use aegis_labs.Extension.Scoring.{EvalFault, evaluate_payout, rainfall_negative, model_rejected}
use aegis_labs.Extension.Scoring.Owed.{Terms, model_of, owed, validate_iff, evaluate_payout-owed}

-- The reading is a natural number.
abbrev pub IsReading : Option ℤ → Type 0
IsReading rainfall = (r : ℕ) × (rainfall ≡ some (pos r))

-- The model is one whose amounts are there, whose exit lies below the trigger, whose sum insured is a positive number
-- of at most 256 bits, and whose factor is not zero.
abbrev pub IsModel : ModelParameters → Type 0
IsModel m = (t : Terms) × (m ≡ model_of t)

-- What the function returns on every model and every reading.
data Answer (m : ModelParameters) (rainfall : Option ℤ) : Type 0 where
  no_reading :
      ¬ IsReading rainfall → evaluate_payout m rainfall ≡ err rainfall_negative → Answer m rainfall
  no_model :
      (e : ModelFault)
      → IsReading rainfall
      → ¬ IsModel m
      → evaluate_payout m rainfall ≡ err (model_rejected e)
      → Answer m rainfall
  pays :
      (n : ℕ)
      → IsReading rainfall
      → IsModel m
      → evaluate_payout m rainfall ≡ ok (pos n)
      → Answer m rainfall

rejected : (m : ModelParameters) (e : ModelFault) → validate m ≡ some e → ¬ IsModel m
rejected m e v is = let valid = (validate_iff m).1 is in cc

answer : (m : ModelParameters) (rainfall : Option ℤ) → Answer m rainfall
unfolding evaluate_payout
answer m none = no_reading (λ (r, is). cc) refl
answer m (some (negsuc n)) = no_reading (λ (r, is). cc) refl
answer m (some (pos r)) = elim (Option-cases (validate m)) [
  | inl e ↦
      let (t, is) = (validate_iff m).0 e in
      pays (owed t r) (r, refl) (t, is)
        (ap (λ x. evaluate_payout x (some (pos r))) is ∙ evaluate_payout-owed t r)
  | inr (f, e) ↦ no_model f (r, refl) (rejected m f e) (rw e refl)
]

-- On every model and every reading: the error of a missing or negative reading is returned exactly when the
-- reading is not a natural number, whatever the model is; and a model's error is returned exactly
-- when the reading is one and the model is not well formed. Otherwise a natural amount is returned.
pub evaluate_payout_refuses :
    (m : ModelParameters) (rainfall : Option ℤ)
    → ((evaluate_payout m rainfall ≡ err rainfall_negative) ↔ ¬ IsReading rainfall)
      × (((e : ModelFault) × (evaluate_payout m rainfall ≡ err (model_rejected e)))
          ↔ (IsReading rainfall × ¬ IsModel m))
      × (IsReading rainfall → IsModel m → (n : ℕ) × (evaluate_payout m rainfall ≡ ok (pos n)))
evaluate_payout_refuses m rainfall = elim (answer m rainfall) [
  | no_reading bad is ↦ (
    (λ h. bad, λ b. is),
    (λ (e, h). absurd (other_fault e (sym is ∙ h)), λ (reads, b). absurd (bad reads)),
    λ reads good. absurd (bad reads),
  )
  | no_model e reads bad is ↦ (
    (λ h. absurd (other_fault e (sym h ∙ is)), λ b. absurd (b reads)),
    (λ h. (reads, bad), λ h. (e, is)),
    λ reads good. absurd (bad good),
  )
  | pays n reads good is ↦ (
    (λ h. absurd (no_fault rainfall_negative n (sym h ∙ is)), λ b. absurd (b reads)),
    (λ (e, h). absurd (no_fault (model_rejected e) n (sym h ∙ is)), λ (r, b). absurd (b good)),
    λ r g. (n, is),
  )
]
  where
    fails : EvalFault → Outcome EvalFault ℤ
    fails e = err e

    other_fault : (e : ModelFault) → fails rainfall_negative ≡ fails (model_rejected e) → ⊥
    other_fault e h = cc

    no_fault : (e : EvalFault) (n : ℕ) → fails e ≡ ok (pos n) → ⊥
    no_fault e n h = cc
