-- ===== src/Examples/Operator.antt =====
-- The operator's commands at concrete keys, ciphertexts and files.
use aegis_labs.Common.{
  ℕ, ◌≡◌, ◌≢◌, refl, String, some, List, [], ◌∷◌, true, str_eq, ok, All, Bool, if◌then◌else◌,
}
use aegis_labs.Common.Bytes.{Bytes, Hash, bytes_eq}
use aegis_labs.Extension.Scoring.Owed.{model_of}
use aegis_labs.Instructions.{send_instruction}
use aegis_labs.Validate.Text.{decimal}
use aegis_labs.Extension.Actions.{build_result}
use aegis_labs.Tee.Results.{wait_for_action_result, action_result, last_answer}
use aegis_labs.Agent.Records.{Policies, get}
use aegis_labs.Agent.Sealing.{
  assert_sealed, first_leak, contains_bytes, is_prefix, text_bytes, Occurs, secret_strings,
}
use aegis_labs.Agent.Register.{SealCalls, sealed_model, seal_model}
use aegis_labs.Agent.Register.Sealed.{seal_model_ok}
use aegis_labs.Agent.Restore.{
  WebPolicy, restore_targets, seen, add_named, add_web, add_target, from_web,
}
use aegis_labs.Examples.Data.{drought, policy}
use aegis_labs.Examples.Relay.{response_800}
use aegis_labs.Examples.Agent.{calls, bound}

-- A key of one number, under which everything is sealed to two bytes.
abbrev pub sealing : SealCalls ℕ ℕ
sealing = record {
  tee_key = some 1;
  parse_key = some;
  encode_request = λ request. some (3 ∷ []);
  encrypt = λ key plaintext. some (1 ∷ 2 ∷ []);
  register_calls = λ ciphertext. calls;
  register_fee = 5;
  read_response = λ raw. some response_800;
  waits = λ id. record { before = []; last = λ i. some (record { status = 200; body = [] }) };
  hash_hex = λ h. "0x";
  hex_to_hash = λ text. policy;
}

seals : (seal_model sealing bound (model_of drought)).0 ≡ ok response_800
unfolding seal_model sealed_model assert_sealed first_leak contains_bytes is_prefix text_bytes
    send_instruction wait_for_action_result action_result last_answer decimal build_result
seals = refl

seal_model_ok_example :
    (ciphertext : Bytes) × (sealed_model sealing bound (model_of drought) ≡ ok ciphertext)
    × (instruction tx : Hash) × All
        (λ secret. ¬ Occurs (text_bytes secret) ciphertext)
        (secret_strings (model_of drought))
    × (send_instruction calls 5 ≡ ok (instruction, tx))
    × (wait_for_action_result sealing.read_response (sealing.waits instruction) ≡ ok response_800)
    × (response_800.result.status ≢ 0)
    × ((seal_model sealing bound (model_of drought)).1.model_registered ≡ true)
seal_model_ok_example = seal_model_ok sealing bound (model_of drought) response_800 seals

-- The same policy in the operator's file and in the web demo's, and another one.
abbrev offered : List WebPolicy
offered =
    record { name = "drought"; policy_id = "0x08"; created_at = 1 }
    ∷ record { name = "drought"; policy_id = "0x07"; created_at = 2 }
    ∷ []

abbrev numbered : String → Hash
numbered text = if str_eq text "0x07" then policy else 8 ∷ []

abbrev known : String → Bool
known name = str_eq name "drought"

abbrev stored : Policies
stored = ("drought", bound) ∷ []

collects :
    restore_targets numbered stored ("drought" ∷ []) known (some (some offered))
    ≡ ok (bound ∷ from_web (record { name = "drought"; policy_id = "0x08"; created_at = 1 }) ∷ [])
unfolding restore_targets add_named add_web add_target seen get bytes_eq
collects = refl
