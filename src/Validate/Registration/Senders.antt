-- ===== src/Validate/Registration/Senders.antt =====
-- R7 of go/tools/pkg/validate/checks.go: the loop over the extensions and the expected sender.
use aegis_labs.Common.Bytes.{Address}
use aegis_labs.Common.{
  ℕ, zero, suc, ◌+◌, ◌≤◌, ◌<◌, ◌≡◌, ◌↔◌, Bool, true, false, ◌||◌, List, [], ◌∷◌, arith, ◌==◌,
}
use aegis_labs.Validate.Machine.{Registry}
use aegis_labs.Validate.Registration.{matching_ids, sends}

abbrev pub has_id : ℕ → List ℕ → Bool
has_id j [] = false
has_id j (i ∷ rest) = i == j || has_id j rest

-- From `i` on, for `rounds` rounds, the collected ids are exactly those in the range whose sender is
-- the expected address.
pub matching_ids_iff :
    (registry : Registry) (expected : Address) (rounds i j : ℕ)
    → (has_id j (matching_ids registry expected rounds i) ≡ true)
      ↔ ((i ≤ j) × (j < i + rounds) × (sends expected (registry.instructions_sender j) ≡ true))
unfolding matching_ids
matching_ids_iff registry expected zero i j = (λ h. cc, λ h. absurd (omega arith))
matching_ids_iff registry expected (suc rounds) i j =
    let ih = matching_ids_iff registry expected rounds (i + 1) j in
    (λ h. ground (arith, ih), λ (low, high, s). ground (arith, ih))
