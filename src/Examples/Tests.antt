-- ===== src/Examples/Tests.antt =====
-- Runs of the code on single inputs.
use aegis_labs.Common.{◌≡◌, refl, true, some, ok}
use aegis_labs.Common.Int.{pos, lt_ℤ, ◌-ℤ◌, ◌*ℤ◌, div_ℤ}
use aegis_labs.Model.{ModelParameters, validate}
use aegis_labs.Extension.Scoring.{evaluate_payout}
use aegis_labs.Extension.Scoring.Owed.{owed}
use aegis_labs.Validate.Text.{quote, decimal, trim_space, split_assignment, matches_hex}
use aegis_labs.Examples.Data.{drought}

-- A model and a table of readings from the program's own tests.
abbrev pub ramp_model : ModelParameters
ramp_model = record {
  trigger_tenths_mm = 1200;
  exit_tenths_mm = 400;
  sum_insured_units = some (pos 1_000_000_000_000_000_000);
  payout_factor_bps = 9000;
  min_payout_units = some (pos 1_000_000_000_000);
}

just_below_trigger : evaluate_payout ramp_model (some (pos 1199)) ≡ ok (pos 1125000000000000)
unfolding evaluate_payout validate lt_ℤ ◌-ℤ◌ ◌*ℤ◌ div_ℤ
just_below_trigger = refl

below_exit : evaluate_payout ramp_model (some (pos 0)) ≡ ok (pos 900000000000000000)
unfolding evaluate_payout validate lt_ℤ ◌-ℤ◌ ◌*ℤ◌ div_ℤ
below_exit = refl

halfway : owed drought 800 ≡ 2250000
unfolding owed
halfway = refl

quoted : quote "a\tb" ≡ "\"a\\tb\""
unfolding quote
quoted = refl

digits : decimal 31337 ≡ "31337"
unfolding decimal
digits = refl

trimmed_text : trim_space "  a b \t" ≡ "a b"
unfolding trim_space
trimmed_text = refl

parts : split_assignment "A=b=c" ≡ some ("A", "b=c")
unfolding split_assignment
parts = refl

matching : matches_hex 4 "0xaF09" ≡ true
unfolding matches_hex
matching = refl
