-- ===== src/Model.antt =====
-- go/pkg/types/types.go, and `Validate` of go/pkg/types/register.go: the insurer's confidential
-- model and the two payloads. A *big.Int is an `Option ℤ` whose `none` is nil.
pub mod Abi
pub mod Codec
pub mod Register
pub mod RoundTrip
use aegis_labs.Common.{ℕ, Bool, true, false, Option, none, some, leb, ◌==◌}
use aegis_labs.Common.Int.{ℤ, is_neg, is_nonpos, exceeds_256_bits}
use aegis_labs.Common.Bytes.{Hash, Address}

-- The State of types.go is its one field, a count. The two uint64 levels and the factor are
-- numbers below 2 ^ 64; nothing computes with them at that width.
pub record ModelParameters : Type 0 where
  pub trigger_tenths_mm : ℕ
  pub exit_tenths_mm : ℕ
  pub sum_insured_units : Option ℤ
  pub payout_factor_bps : ℕ
  pub min_payout_units : Option ℤ

pub record RegisterModelRequest : Type 0 where
  pub policy_id : Hash
  pub model : ModelParameters

pub record EvaluateRequest : Type 0 where
  pub policy_id : Hash
  pub rainfall_tenths_mm : Option ℤ
  pub payout_to : Address

pub record EvaluateResponse : Type 0 where
  pub policy_id : Hash
  pub payout_amount : Option ℤ
  pub payout_to : Address

-- What `Validate` reports: which parameter is wrong, never its value.
pub data ModelFault : Type 0 where
  sum_not_positive sum_exceeds_uint256 min_missing min_negative : ModelFault
  exit_not_below_trigger factor_zero : ModelFault

-- `if cond { return fmt.Errorf(...) }` in front of the rest of the checks.
abbrev fail_if : Bool → ModelFault → Option ModelFault → Option ModelFault
fail_if true e rest = some e
fail_if false e rest = rest

sum_fault : Option ℤ → Option ModelFault → Option ModelFault
sum_fault none rest = some sum_not_positive
sum_fault (some s) rest =
    fail_if (is_nonpos s) sum_not_positive (fail_if (exceeds_256_bits s) sum_exceeds_uint256 rest)

min_fault : Option ℤ → Option ModelFault → Option ModelFault
min_fault none rest = some min_missing
min_fault (some m) rest = fail_if (is_neg m) min_negative rest

unfoldable pub validate : ModelParameters → Option ModelFault
unfolding sum_fault min_fault
validate m = sum_fault m.sum_insured_units (
    min_fault m.min_payout_units (
      fail_if (leb m.trigger_tenths_mm m.exit_tenths_mm) exit_not_below_trigger
        (fail_if (m.payout_factor_bps == 0) factor_zero none)))
