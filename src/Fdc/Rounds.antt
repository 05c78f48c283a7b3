-- ===== src/Fdc/Rounds.antt =====
-- `VotingRoundID` of go/tools/pkg/fdc/web2json.go: the voting round of a timestamp.
use aegis_labs.Common.{
  ℕ, ◌+◌, ◌-◌, ◌*◌, ◌/◌, ◌≤◌, ◌<◌, ◌≡◌, ◌↔◌, Option, none, some, arith, ltb, ◌==◌, if◌then◌else◌,
  Outcome, ok, err,
}
use native.Mathlib.Nat.{div-mul-le_self, lt-div-mul-add, div-eq_of_lt-le}

-- The two answers of FlareSystemsManager; `none` is an error of the call.
pub record Geometry : Type 0 where
  pub first_voting_round_start_ts : Option ℕ
  pub voting_epoch_duration_seconds : Option ℕ

pub data RoundFault : Type 0 where
  reading_first reading_duration duration_zero : RoundFault
  precedes_first_round : ℕ → RoundFault

-- The checks on the two numbers; the subtraction is only reached where it does not wrap.
round_of : ℕ → ℕ → ℕ → Outcome RoundFault ℕ
round_of first duration timestamp =
    if duration == 0
    then err duration_zero
    else if ltb timestamp first
    then err (precedes_first_round timestamp)
    else ok ((timestamp - first) / duration)

with_duration : ℕ → Option ℕ → ℕ → Outcome RoundFault ℕ
unfolding round_of
with_duration first none timestamp = err reading_duration
with_duration first (some duration) timestamp = round_of first duration timestamp

with_first : Option ℕ → Option ℕ → ℕ → Outcome RoundFault ℕ
unfolding with_duration
with_first none duration timestamp = err reading_first
with_first (some first) duration timestamp = with_duration first duration timestamp

unfoldable pub voting_round_id : Geometry → ℕ → Outcome RoundFault ℕ
unfolding with_first
voting_round_id g timestamp =
    with_first g.first_voting_round_start_ts g.voting_epoch_duration_seconds timestamp

-- Round `r` begins at `first + r * duration` and lasts `duration` seconds.
pub record Covers (first duration r timestamp : ℕ) : Type 0 where
  pub begun : first + r * duration ≤ timestamp
  pub not_over : timestamp < first + (r + 1) * duration

quotient-Covers :
    (first duration timestamp : ℕ)
    → 0 < duration
    → first ≤ timestamp
    → Covers first duration ((timestamp - first) / duration) timestamp
quotient-Covers first duration timestamp d f = record {
  begun = omega (arith, div-mul-le_self (timestamp - first) duration);
  not_over = grind (arith, lt-div-mul-add {a = timestamp - first} {b = duration} d);
}

Covers-quotient :
    (first duration r timestamp : ℕ)
    → Covers first duration r timestamp
    → (timestamp - first) / duration ≡ r
Covers-quotient first duration r timestamp c =
    div-eq_of_lt-le duration (omega (arith, c.begun)) (omega (arith, c.begun, c.not_over))

round_of-Covers :
    (first duration timestamp r : ℕ)
    → 0 < duration
    → Covers first duration r timestamp
    → round_of first duration timestamp ≡ ok r
unfolding round_of
round_of-Covers first duration timestamp r d c =
    let f : first ≤ timestamp = omega (arith, c.begun) in
    ground (arith, Covers-quotient first duration r timestamp c, f)

-- With both numbers read, the result is round `r` exactly when the duration is positive and `r` is
-- the round that covers the timestamp.
pub voting_round_id_iff :
    (g : Geometry) (first duration timestamp r : ℕ)
    → g.first_voting_round_start_ts ≡ some first
    → g.voting_epoch_duration_seconds ≡ some duration
    → (voting_round_id g timestamp ≡ ok r) ↔ ((0 < duration) × Covers first duration r timestamp)
unfolding voting_round_id
voting_round_id_iff g first duration timestamp r ef ed =
    rw (ef, ed)
      (
        λ h.
            let d : 0 < duration = ground arith in
            let f : first ≤ timestamp = ground arith in
            let q : (timestamp - first) / duration ≡ r = ground arith in
            (d, rw q at (quotient-Covers first duration timestamp d f)),
        λ (d, c). round_of-Covers first duration timestamp r d c,
      )
