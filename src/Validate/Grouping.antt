-- ===== src/Validate/Grouping.antt =====
-- `Fprint` of go/tools/pkg/validate/report.go against the list of results.
use aegis_labs.Common.{
  String, ◌≡◌, refl, inl, inr, true, false, ◌||◌, List, [], ◌∷◌, ◌++◌, arith, if◌then◌else◌,
  Bool-cases, str_eq, str_eq_iff, str_eq_refl,
}
use mathlib.Core.List.{Perm, perm_middle}
use mathlib.Core.List.Perm
use aegis_labs.Validate.Report.{
  CheckResult, Report, Group, seen, steps_from, of_step, groups_of, print_groups,
}

abbrev pub printed : List Group → List CheckResult
printed [] = []
printed ((heading, xs) ∷ rest) = xs ++ printed rest

abbrev Distinct : List String → Type 0
Distinct [] = Unit {0}
Distinct (s ∷ rest) = (seen s rest ≡ false) × Distinct rest

seen-append : (s : String) (xs ys : List String) → seen s (xs ++ ys) ≡ (seen s xs || seen s ys)
seen-append s [] ys = refl
seen-append s (x ∷ xs) ys = ground (arith, seen-append s xs ys)

Distinct-snoc :
    (xs : List String) (s : String) → Distinct xs → seen s xs ≡ false → Distinct (xs ++ (s ∷ []))
Distinct-snoc [] s d h = (refl, tt)
Distinct-snoc (x ∷ xs) s d h = (
  ground (arith, seen-append x xs (s ∷ []), str_eq_iff x s, str_eq_iff s x, d.0, h),
  Distinct-snoc xs s d.1 (ground arith),
)

steps_from-Distinct :
    (steps : List String) (xs : List CheckResult) → Distinct steps → Distinct (steps_from steps xs)
unfolding steps_from
steps_from-Distinct steps [] d = d
steps_from-Distinct steps (x ∷ xs) d = elim (Bool-cases (seen x.step steps)) [
  | inl e ↦ rw e (steps_from-Distinct steps xs d)
  | inr e ↦ rw e (steps_from-Distinct (steps ++ (x.step ∷ [])) xs (Distinct-snoc steps x.step d e))
]

-- Every result's step is among the steps.
abbrev Covered : List String → List CheckResult → Type 0
Covered steps [] = Unit {0}
Covered steps (x ∷ xs) = (seen x.step steps ≡ true) × Covered steps xs

steps_from-keeps :
    (s : String) (steps : List String) (xs : List CheckResult)
    → seen s steps ≡ true
    → seen s (steps_from steps xs) ≡ true
unfolding steps_from
steps_from-keeps s steps [] h = h
steps_from-keeps s steps (x ∷ xs) h =
    steps_from-keeps s (if seen x.step steps then steps else steps ++ (x.step ∷ [])) xs
      (ground (arith, seen-append s steps (x.step ∷ []), h))

steps_from-Covered :
    (steps : List String) (xs : List CheckResult) → Covered (steps_from steps xs) xs
unfolding steps_from
steps_from-Covered steps [] = tt
steps_from-Covered steps (x ∷ xs) = (
  steps_from-keeps x.step (if seen x.step steps then steps else steps ++ (x.step ∷ [])) xs
      (ground (arith, seen-append x.step steps (x.step ∷ []), str_eq_refl x.step)),
  steps_from-Covered (if seen x.step steps then steps else steps ++ (x.step ∷ [])) xs,
)

-- A step that is not printed adds nothing.
unprinted :
    (x : CheckResult) (xs : List CheckResult) (steps : List String)
    → seen x.step steps ≡ false
    → printed (groups_of (x ∷ xs) steps) ≡ printed (groups_of xs steps)
unfolding groups_of
unprinted x xs [] h = refl
unprinted x xs (s ∷ steps) h =
    ground (arith, str_eq_iff x.step s, str_eq_iff s x.step, unprinted x xs steps)

insert_printed :
    (x : CheckResult) (xs : List CheckResult) (steps : List String)
    → Distinct steps
    → seen x.step steps ≡ true
    → Perm (printed (groups_of (x ∷ xs) steps)) (x ∷ printed (groups_of xs steps))
unfolding groups_of
insert_printed x xs [] d h = cc
insert_printed x xs (s ∷ steps) d h = elim (Bool-cases (str_eq x.step s)) [
  | inl e ↦
      rw (e, unprinted x xs steps (rw (← (str_eq_iff x.step s).0 e) at (d.0)))
        (Perm.refl (x ∷ (of_step s xs ++ printed (groups_of xs steps))))
  | inr e ↦ rw e (
      Perm.trans
        (Perm.append (Perm.refl (of_step s xs)) (
          insert_printed x xs steps d.1
            (ground (arith, h, e, str_eq_iff x.step s, str_eq_iff s x.step))))
        (perm_middle (of_step s xs) (printed (groups_of xs steps))))
]

printed-nil : (steps : List String) → printed (groups_of [] steps) ≡ []
unfolding groups_of
printed-nil [] = refl
printed-nil (s ∷ steps) = printed-nil steps

printed-perm :
    (steps : List String) (xs : List CheckResult)
    → Distinct steps
    → Covered steps xs
    → Perm (printed (groups_of xs steps)) xs
printed-perm steps [] d c = rw (printed-nil steps) (Perm.refl [])
printed-perm steps (x ∷ xs) d c =
    Perm.trans (insert_printed x xs steps d c.0) (Perm.cons x (printed-perm steps xs d c.1))

-- The results of the printed groups, one group after another, are a rearrangement of the report's
-- results.
pub print_groups-perm : (r : Report) → Perm (printed (print_groups r)) r.results
unfolding print_groups
print_groups-perm r =
    printed-perm (steps_from [] r.results) r.results (steps_from-Distinct [] r.results tt)
      (steps_from-Covered [] r.results)
