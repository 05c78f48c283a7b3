-- ===== src/Agent/Sealing.antt =====
-- `assertSealed` of go/tools/cmd/aegis/policy.go, with strings.Contains on byte strings.
use Prim.Native.Char.{code}
use Prim.Native.String.{◌++◌ as concat}
use aegis_labs.Common.{
  suc, String, ◌≡◌, refl, ◌↔◌, inl, inr, Bool, true, false, ◌&&◌, ◌||◌, Option, none, some, List,
  [], ◌∷◌, ◌++◌, ◌==◌, if◌then◌else◌, arith, Bool-cases, All,
}
use aegis_labs.Common.Int.{ℤ, pos, negsuc}
use aegis_labs.Common.Bytes.{Bytes}
use aegis_labs.Model.{ModelParameters}
use aegis_labs.Validate.Text.{decimal}

unfoldable pub is_prefix : Bytes → Bytes → Bool
is_prefix [] ys = true
is_prefix (x ∷ xs) [] = false
is_prefix (x ∷ xs) (y ∷ ys) = x == y && is_prefix xs ys

-- `strings.Contains(text, part)`
unfoldable pub contains_bytes : Bytes → Bytes → Bool
unfolding is_prefix
contains_bytes part [] = is_prefix part []
contains_bytes part (y ∷ ys) = is_prefix part (y ∷ ys) || contains_bytes part ys

-- The bytes of an ASCII text.
unfoldable pub text_bytes : String → Bytes
text_bytes String.[] = []
text_bytes (String.◌∷◌ c s) = code c ∷ text_bytes s

-- `x.String()` of a *big.Int
abbrev pub big_text : Option ℤ → String
big_text none = "<nil>"
big_text (some (pos n)) = decimal n
big_text (some (negsuc n)) = concat "-" (decimal (suc n))

abbrev pub secret_strings : ModelParameters → List String
secret_strings m =
    decimal m.trigger_tenths_mm
    ∷ decimal m.exit_tenths_mm
    ∷ big_text m.sum_insured_units
    ∷ decimal m.payout_factor_bps
    ∷ big_text m.min_payout_units
    ∷ []

pub data SealFault : Type 0 where
  still_in_the_clear : SealFault

unfoldable pub first_leak : List String → Bytes → Option SealFault
first_leak [] blob = none
first_leak (secret ∷ rest) blob =
    let others = first_leak rest blob in
    if contains_bytes (text_bytes secret) blob then some still_in_the_clear else others

unfoldable pub assert_sealed : ModelParameters → Bytes → Option SealFault
unfolding first_leak
assert_sealed m ciphertext = first_leak (secret_strings m) ciphertext

-- The part stands somewhere in the text.
abbrev pub Occurs : Bytes → Bytes → Type 0
Occurs part text = (before after : Bytes) × (text ≡ before ++ (part ++ after))

prefix_rest : (xs ys : Bytes) → is_prefix xs ys ≡ true → (after : Bytes) × (ys ≡ xs ++ after)
unfolding is_prefix
prefix_rest [] ys h = (ys, refl)
prefix_rest (x ∷ xs) [] h = absurd (ground arith)
prefix_rest (x ∷ xs) (y ∷ ys) h =
    let e : x ≡ y = ground arith in
    let (after, rest) = prefix_rest xs ys (ground arith) in (after, cc)

at_start : (part text : Bytes) → is_prefix part text ≡ true → Occurs part text
at_start part text h = let (after, eq) = prefix_rest part text h in ([], after, eq)

prefix_append : (xs after : Bytes) → is_prefix xs (xs ++ after) ≡ true
unfolding is_prefix
prefix_append [] after = refl
prefix_append (x ∷ xs) after = ground (arith, prefix_append xs after)

prefix_contained :
    (part text : Bytes) → is_prefix part text ≡ true → contains_bytes part text ≡ true
unfolding contains_bytes
prefix_contained part [] h = h
prefix_contained part (y ∷ ys) h = ground arith

contains_bytes-Occurs : (part text : Bytes) → contains_bytes part text ≡ true → Occurs part text
unfolding contains_bytes
contains_bytes-Occurs part [] h = at_start part [] h
contains_bytes-Occurs part (y ∷ ys) h = elim (Bool-cases (is_prefix part (y ∷ ys))) [
  | inl e ↦ at_start part (y ∷ ys) e
  | inr e ↦
      let (before, after, eq) = contains_bytes-Occurs part ys (ground arith) in
      (y ∷ before, after, cc)
]

Occurs-contains_bytes :
    (part before after : Bytes) → contains_bytes part (before ++ (part ++ after)) ≡ true
unfolding contains_bytes
Occurs-contains_bytes part [] after =
    prefix_contained part (part ++ after) (prefix_append part after)
Occurs-contains_bytes part (b ∷ before) after =
    ground (arith, Occurs-contains_bytes part before after)

some_fault : some still_in_the_clear ≡ none → ⊥
some_fault h = cc

not_both : (b : Bool) → b ≡ true → b ≡ false → ⊥
not_both b t f = ground arith

absent : (part text : Bytes) → contains_bytes part text ≡ false → ¬ Occurs part text
absent part text h (before, after, eq) =
    not_both (contains_bytes part text) (rw eq (Occurs-contains_bytes part before after)) h

no_leak_iff :
    (secrets : List String) (blob : Bytes)
    → (first_leak secrets blob ≡ none) ↔ All (λ s. ¬ Occurs (text_bytes s) blob) secrets
unfolding first_leak
no_leak_iff [] blob = (λ h. tt, λ h. refl)
no_leak_iff (s ∷ rest) blob =
    let ih = no_leak_iff rest blob in
    elim (Bool-cases (contains_bytes (text_bytes s) blob)) [
      | inl e ↦ rw e (
        λ h. absurd (some_fault h),
        λ (clear, others). absurd (clear (contains_bytes-Occurs (text_bytes s) blob e)),
      )
      | inr e ↦ rw e (λ h. (absent (text_bytes s) blob e, ih.0 h), λ (clear, others). ih.1 others)
    ]

-- The check returns no error exactly when the digits of none of the five parameters stand anywhere
-- in the ciphertext.
pub assert_sealed_iff :
    (m : ModelParameters) (ciphertext : Bytes)
    → (assert_sealed m ciphertext ≡ none)
      ↔ All (λ s. ¬ Occurs (text_bytes s) ciphertext) (secret_strings m)
unfolding assert_sealed
assert_sealed_iff m ciphertext = no_leak_iff (secret_strings m) ciphertext
