-- ===== src/Agent/Evaluate/Money.antt =====
-- `settleDecision` of go/tools/cmd/aegis/cmd_evaluate.go: what a run that ends without an error
-- says of the money and leaves in the file.
use aegis_labs.Common.{
  ℕ, ◌+◌, ◌≡◌, ◌↔◌, ◌⊎◌, inl, inr, refl, Bool, true, false, some, ok, err, arith, leb, ◌==◌, not,
  ◌||◌, leb→le, Bool-cases, succeeds, ==_iff, ◌-◌, if◌then◌else◌,
}
use aegis_labs.Common.Int.{pos, sub_ℕ, eq_ℤ}
use aegis_labs.Agent.World.{EvaluateFault, money_moved}
use aegis_labs.Agent.Evaluate.{money_check}

delta_iff : (x y n : ℕ) → (eq_ℤ (sub_ℕ x y) (pos n) ≡ true) ↔ (x ≡ y + n)
delta_iff x y n = elim (Bool-cases (leb y x)) [
  | inl e ↦ rw e (
    λ h. omega (arith, leb→le y x e, (==_iff (x - y) n).0 h),
    λ h. (==_iff (x - y) n).1 (omega (arith, h)),
  )
  | inr e ↦ rw e (λ h. absurd cc, λ h. absurd (ground (arith, e, h)))
]

verdict_iff :
    (z p q : Bool) (f : EvaluateFault)
    → ((if z then succeeds tt else if not p || not q then err f else ok tt) ≡ ok tt)
      ↔ ((z ≡ true) ⊎ ((q ≡ true) × (p ≡ true)))
verdict_iff true p q f = (λ h. inl refl, λ h. refl)
verdict_iff false true true f = (λ h. inr (refl, refl), λ h. refl)
verdict_iff false false q f = (λ h. absurd cc, λ h. absurd (ground arith))
verdict_iff false true false f = (λ h. absurd cc, λ h. absurd (ground arith))

-- For a decision of `n` units, the command is content exactly when nothing was owed, or when the
-- pool went down and the recipient went up by exactly `n` units.
pub money_check_iff :
    (n before after to_before to_after : ℕ)
    → (money_check (some (pos n)) before after to_before to_after ≡ ok tt)
      ↔ ((n ≡ 0) ⊎ ((before ≡ after + n) × (to_after ≡ to_before + n)))
unfolding money_check
money_check_iff n before after to_before to_after =
    let v =
      verdict_iff (n == 0) (eq_ℤ (sub_ℕ to_after to_before) (pos n))
        (eq_ℤ (sub_ℕ before after) (pos n))
        (money_moved (sub_ℕ before after) (sub_ℕ to_after to_before)) in
    let pool = delta_iff before after n in
    let to = delta_iff to_after to_before n in
    let zero = ==_iff n 0 in
    (
      λ h. elim (v.0 h) [ inl e ↦ inl (zero.0 e) | inr (p, q) ↦ inr (pool.0 p, to.0 q) ],
      λ h. v.1 (elim h [ inl e ↦ inl (zero.1 e) | inr (p, q) ↦ inr (pool.1 p, to.1 q) ]),
    )
