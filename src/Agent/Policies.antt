-- ===== src/Agent/Policies.antt =====
-- go/tools/cmd/aegis/policy.go: the model file and the ids of new policies. The file system, the JSON reader and the random source are arguments.
use aegis_labs.Common.{
  ℕ, ◌+◌, ◌*◌, ◌/◌, ◌%◌, ◌^◌, ◌<◌, String, ◌≡◌, refl, false, Option, none, some, ◌∷◌, leb,
  if◌then◌else◌, length, arith, Outcome, ok, err,
}
use aegis_labs.Common.Int.{ℤ, pos}
use aegis_labs.Common.Bytes.{Bytes, Hash}
use aegis_labs.Model.{ModelParameters, validate}
use aegis_labs.Extension.Scoring.Owed.{Terms, model_of, validate_iff}
use aegis_labs.Validate.Text.{is_empty}

abbrev pub demo_model : ModelParameters
demo_model = record {
  trigger_tenths_mm = 1200;
  exit_tenths_mm = 400;
  sum_insured_units = some (pos 5_000_000);
  payout_factor_bps = 9000;
  min_payout_units = some (pos 100_000);
}

pub data ModelFileFault : Type 0 where
  reading_model_file not_model_json missing_units exit_at_or_above_trigger : ModelFileFault

with_units : ModelParameters → Option ℤ → Option ℤ → Outcome ModelFileFault ModelParameters
with_units m none floor = err missing_units
with_units m (some sum) none = err missing_units
with_units m (some sum) (some floor) =
    if leb m.trigger_tenths_mm m.exit_tenths_mm then err exit_at_or_above_trigger else ok m

checked_model : Option ModelParameters → Outcome ModelFileFault ModelParameters
unfolding with_units
checked_model none = err not_model_json
checked_model (some m) = with_units m m.sum_insured_units m.min_payout_units

read_model :
    (Bytes → Option ModelParameters) → Option Bytes → Outcome ModelFileFault ModelParameters
unfolding checked_model
read_model unmarshal none = err reading_model_file
read_model unmarshal (some raw) = checked_model (unmarshal raw)

unfoldable pub load_model :
    (String → Option Bytes)
    → (Bytes → Option ModelParameters)
    → String
    → Outcome ModelFileFault ModelParameters
unfolding read_model
load_model read_file unmarshal path =
    if is_empty path then ok demo_model else read_model unmarshal (read_file path)

terms_loaded :
    (t : Terms) → with_units (model_of t) (some (pos t.sum)) (some (pos t.floor)) ≡ ok (model_of t)
unfolding with_units
terms_loaded t = ground arith

valid_loaded : (m : ModelParameters) → validate m ≡ none → checked_model (some m) ≡ ok m
unfolding checked_model
valid_loaded m v = let (t, is) = (validate_iff m).0 v in rw is (terms_loaded t)

-- A model file whose model passes `Validate` is loaded as it is.
pub load_model-validate :
    (read_file : String → Option Bytes) (unmarshal : Bytes → Option ModelParameters) (path : String)
    (raw : Bytes) (m : ModelParameters)
    → is_empty path ≡ false
    → read_file path ≡ some raw
    → unmarshal raw ≡ some m
    → validate m ≡ none
    → load_model read_file unmarshal path ≡ ok m
unfolding load_model
load_model-validate read_file unmarshal path raw m p r u v = rw (p, r, u) (valid_loaded m v)

pub data NonceFault : Type 0 where
  drawing_nonce : NonceFault

-- The two bytes of the prefix, then the nonce: the 30 bytes that the random source gives, or none.
unfoldable pub new_policy_id : ℕ → Option Bytes → Outcome NonceFault Hash
new_policy_id prefix none = err drawing_nonce
new_policy_id prefix (some nonce) = ok (prefix / 256 % 256 ∷ prefix % 256 ∷ nonce)

-- A prefix of 16 bits and a nonce of 30 bytes give an id of 32 bytes: two bytes that hold the
-- prefix, the high one first, and then the nonce.
pub new_policy_id_lem :
    (prefix : ℕ) (nonce : Bytes)
    → prefix < 2 ^ 16
    → length nonce ≡ 30
    → (high low : ℕ) × (new_policy_id prefix (some nonce) ≡ ok (high ∷ low ∷ nonce))
      × (length (high ∷ low ∷ nonce) ≡ 32)
      × (high < 256)
      × (low < 256)
      × (high * 256 + low ≡ prefix)
unfolding new_policy_id
new_policy_id_lem prefix nonce p n = (
  prefix / 256 % 256,
  prefix % 256,
  refl,
  omega (arith, n),
  omega arith,
  omega arith,
  omega (arith, p),
)
