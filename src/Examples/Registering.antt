-- ===== src/Examples/Registering.antt =====
-- A run of register-model at a concrete verifier, contract and enclave, for a policy without a file.
use aegis_labs.Common.{
  ℕ, ◌≡◌, refl, ap, ◌∙◌, none, some, List, [], ◌∷◌, true, false, ok, err, ok_inj, ◌==◌,
  if◌then◌else◌, length,
}
use aegis_labs.Common.Bytes.{Bytes, bytes_eq, zero_hash}
use aegis_labs.Extension.Scoring.Owed.{model_of}
use aegis_labs.Extension.Actions.{build_result}
use aegis_labs.Support.{check_tx}
use aegis_labs.Instructions.{sent, send_instruction, send_register_policy_trigger}
use aegis_labs.Validate.Text.{decimal, trim_space}
use aegis_labs.Tee.Results.{wait_for_action_result, action_result, last_answer}
use aegis_labs.Fdc.Feed.{RequestBody}
use aegis_labs.Fdc.HexText.{
  encode_attestation_name, encode_to_string, digit_value, decode_string, trim_prefix,
  hexutil_decode,
}
use aegis_labs.Fdc.Prepare.{Verifier, answered, post, prepare_request}
use aegis_labs.Agent.Policies.{new_policy_id}
use aegis_labs.Agent.Minting.{current_policy}
use aegis_labs.Agent.Records.{PolicyRecord, Policies, absent, get, put_at, load_state, save}
use aegis_labs.Agent.Sealing.{assert_sealed, first_leak, contains_bytes, is_prefix, text_bytes}
use aegis_labs.Agent.Register.{BindCalls, bind_trigger, sealed_model, seal_model}
use aegis_labs.Agent.Registration.{
  Desk, run_register_model, save_current, note_request, bind_current, seal_current, bind_and_seal,
  register_policy,
}
use aegis_labs.Agent.Registration.Opened.{NamesPolicy, opened-run_register_model}
use aegis_labs.Agent.World.{Outside, World, unusable_request}
use aegis_labs.Agent.Evaluate.{opened}
use aegis_labs.Examples.Codec.{codec, codec_laws, place}
use aegis_labs.Examples.Data.{drought, policy}
use aegis_labs.Examples.Agent.{bound, mined, outside, settings, start}
use aegis_labs.Examples.Operator.{sealing}

abbrev pub body : RequestBody
body = record {
  url = "https://feed";
  http_method = "GET";
  headers = "{}";
  query_params = "{}";
  body = "{}";
  post_process_jq = ".";
  abi_signature = "{}";
}

abbrev pub verifier : Verifier
verifier = record {
  web2json_name = 87 ∷ 50 ∷ [];
  public_web2_name = 80 ∷ 50 ∷ [];
  marshal = λ kind source b. some [];
  send = λ payload. answered (record { status = 200; body = [] });
  unmarshal = λ raw. some (record { status = "VALID"; abi_encoded_request = "0x0102" });
}

abbrev pub binding : BindCalls
binding = record {
  trigger_request_hash = some (9 ∷ []);
  binds_sender = true;
  policy_trigger_request_hash = λ id. some zero_hash;
  trigger = record {
    binds = true;
    makes_transactor = true;
    register_policy_trigger = λ id h. sent mined;
    unpack_revert = λ bytes. none;
  };
  hash_hex = λ h. "0x09";
  hex_to_hash = λ text. policy;
}

-- The record as it is saved after the binding, and after the model is sealed.
abbrev after_binding : PolicyRecord
after_binding = record bound { request_hash = "0x09"; model_registered = false }

abbrev after_sealing : PolicyRecord
after_sealing = record after_binding { register_instruction_id = "0x"; model_registered = true }

abbrev saved : List PolicyRecord
saved = after_binding ∷ after_sealing ∷ []

abbrev pub desk : Desk ℕ ℕ
desk = record {
  policy_name = "drought";
  force_new = false;
  prefix = 7;
  model = ok (model_of drought);
  body = ok body;
  nonce = some (1 ∷ []);
  now = 0;
  hash_hex = λ h. "0x07";
  verifier = verifier;
  bind_calls = λ b. binding;
  seal_calls = sealing;
  json = codec saved;
  disk = record { makes_directory = true; writes = true };
}

nothing : (r : PolicyRecord) → none ≡ some r → ⊥
nothing r h = cc

absent-NamesPolicy : NamesPolicy desk absent
unfolding load_state get
absent-NamesPolicy ps r loaded found =
    let same : [] ≡ ps = ok_inj loaded in absurd (nothing r (ap (get "drought") same ∙ found))

registers : (run_register_model desk absent).0 ≡ ok tt
unfolding run_register_model load_state current_policy new_policy_id get register_policy
    note_request bind_and_seal bind_current seal_current save_current save codec place put_at
    bind_trigger send_register_policy_trigger check_tx bytes_eq prepare_request post
    encode_attestation_name encode_to_string hexutil_decode trim_space trim_prefix decode_string
    digit_value seal_model sealed_model assert_sealed first_leak contains_bytes is_prefix text_bytes
    send_instruction wait_for_action_result action_result last_answer decimal build_result
registers = refl

abbrev reader : Outside ℕ Bytes
reader = record outside { json = codec saved }

abbrev next : World ℕ
next = record start { file = (run_register_model desk absent).1 }

opened-run_register_model_example :
    (b : RequestBody) × (encoded : Bytes) × (ps : Policies) × (r : PolicyRecord) × (desk.body
      ≡ ok b)
    × (prepare_request verifier b ≡ ok encoded)
    × (get "drought" ps ≡ some r)
    × (r.model_registered ≡ true)
    × (r.settled ≡ false)
    × (opened reader settings next
        ≡ (if length encoded == 0 then err unusable_request else ok (ps, r, encoded)))
opened-run_register_model_example =
    opened-run_register_model desk reader settings absent next (codec_laws saved) absent-NamesPolicy
      refl refl registers refl
