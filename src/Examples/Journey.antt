-- ===== src/Examples/Journey.antt =====
-- A run of the end-to-end test over a network that answers as it should, with 80 mm of rain in the dry season
-- and 150 mm in the wet one.
use aegis_labs.Common.{
  ℕ, ◌-◌, ◌≡◌, refl, none, some, Option, List, [], ◌∷◌, map, take, replicate, true, false, Bool,
  if◌then◌else◌, str_eq, ok, All, String,
}
use aegis_labs.Common.Bytes.{Bytes, Hash, Address, bytes_eq, word_bytes, set_bytes}
use aegis_labs.Common.Int.{pos, lt_ℤ, ◌-ℤ◌, ◌*ℤ◌, div_ℤ}
use aegis_labs.Support.{check_tx}
use aegis_labs.Support.Revert.{
  CallAnswer, call_failed, simulate_and_decode_revert, decode_revert_reason,
}
use aegis_labs.Model.{validate}
use aegis_labs.Model.Abi.{Abi, bytes32, big_int, address, tuple_bytes}
use aegis_labs.Model.Codec.{decode_evaluate_response, decode_evaluate_tuple}
use aegis_labs.Extension.Scoring.{evaluate_payout}
use aegis_labs.Instructions.{SenderCalls, send_register_policy_trigger, send_instruction}
use aegis_labs.Extension.Actions.{log_ok}
use aegis_labs.Fdc.Feed.{validate_feed, request_body}
use aegis_labs.Fdc.Prepare.{prepare_request, post}
use aegis_labs.Fdc.HexText.{
  encode_attestation_name, encode_to_string, hexutil_decode, trim_prefix, decode_string,
  digit_value,
}
use aegis_labs.Fdc.Submit.{submit_request, request_fee, decode_weather_reading, WeatherReading}
use aegis_labs.Fdc.Rounds.{voting_round_id}
use aegis_labs.Fdc.Polling.{wait_for_proof}
use aegis_labs.Validate.Text.{trim_space, decimal}
use aegis_labs.Tee.Results.{action_result, last_answer}
use aegis_labs.Payout.Decision.{
  ActionResponse, action_result_sign_hash, decode_decision, recover_tee_id,
}
use aegis_labs.Payout.Settle.{settle, settlement_of}
use aegis_labs.Agent.Pool.{Pool, PoolCalls, value, resolve_pool, resolve_fxrp, metadata, balance}
use aegis_labs.Agent.Sealing.{contains_bytes, is_prefix, text_bytes, first_leak}
use aegis_labs.EndToEnd.Network.{
  Network, TestPolicy, test_model, test_policies, test_policy_id, given, present, require, for_each,
}
use aegis_labs.EndToEnd.Payout.{expected_ramp, expected_payout, expected_payout-evaluate_payout}
use aegis_labs.EndToEnd.Steps.{
  check_pool_can_cover, already_set, prepare_policy, submit_policy, register_model, seal_model,
  collect_from, collect_proof, rainfall_of, assert_season_makes_sense, prove_policy,
  bind_policy_trigger, assert_raw_rainfall_path_removed, assert_foreign_attestation_rejected,
  assert_no_secrets, proof_or,
}
use aegis_labs.EndToEnd.Settling.{
  run_evaluate, assert_payout, evaluate_policy, settle_policy, settled_decision, assert_recorded,
  accepted_payout, balance_of, replay_guard_selectors, assert_replay_rejected, matches_any_selector,
}
use aegis_labs.EndToEnd.Program.{decided_policies, run_test}
use aegis_labs.EndToEnd.Decided.{IsDecided}
use aegis_labs.EndToEnd.Paid.{IsPaid}
use aegis_labs.EndToEnd.Passed.{identities, run_test_ok}
use aegis_labs.Examples.Data.{payee, test_crypto, signature}
use aegis_labs.Examples.Agent.{hub, calls, chain, outside}
use aegis_labs.Examples.Registering.{verifier, binding}

abbrev is_dry : Hash → Bool
is_dry id = is_prefix (0xa3 ∷ 0xd1 ∷ []) id

abbrev rain : Hash → ℕ
rain id = if is_dry id then 800 else 1500

abbrev amount : Hash → ℕ
amount id = if is_dry id then 2250000 else 0

abbrev answer : Hash → ActionResponse
answer id = record {
  result = record {
    id = replicate 32 8;
    submission_tag = "submit";
    version = "";
    op_type = replicate 32 1;
    op_command = replicate 32 3;
    result_data = tuple_bytes id (amount id) payee;
    status = 1;
    log = log_ok;
  };
  signature = signature;
}

-- The calls of an instruction whose id is the policy's.
abbrev instruction : Hash → SenderCalls
instruction id = record calls { parse_instructions_sent = λ log. some id }

abbrev reads : Abi
reads = record {
  pack = λ id value to. none;
  unpack = λ raw.
      some
        (bytes32 (take 32 raw) ∷ big_int (some (pos (amount (take 32 raw)))) ∷ address payee ∷ []);
}

-- The executor's ten million units before a settlement, and what is left of them.
abbrev holds : ℕ → Address → ℕ
holds paid account = if bytes_eq account payee then paid else 10000000 - paid

abbrev pool_with : ℕ → PoolCalls
pool_with paid = record (outside.pool_calls 0) {
  balance_of = λ token account. some (value (holds paid account));
}

abbrev reading : Bytes → Option (List WeatherReading)
reading [] = none
reading (r ∷ rest) = some (
    record {
      latitude_micro_deg = none;
      longitude_micro_deg = none;
      rainfall_tenths_mm = some (pos r);
    }
    ∷ [])

abbrev selector_of : String → Bytes
selector_of name =
    if str_eq name "evaluate(bytes32,uint256,address)" then replicate 32 1 else replicate 32 2

abbrev refused_with : String → CallAnswer
refused_with text = call_failed (record { error_data = none; message = text })

abbrev network : Network ℕ
network = record {
  pool_calls = pool_with 0;
  set_extension_id = ok tt;
  marshal_query = λ fields. "{}";
  verifier = verifier;
  bind_calls = λ id body. binding;
  hub = λ id more. hub;
  polls = λ id more round request. record { fetched = ok (some (rain id)); done = false } ∷ [];
  has_tee_info = true;
  key_parses = true;
  encode_model = λ r. some (1 ∷ 2 ∷ []);
  encrypt = λ id plaintext. some (3 ∷ 4 ∷ []);
  register_calls = λ ciphertext. calls;
  evaluate_calls = λ id to p. instruction id;
  fee = 5;
  gets = λ id i. some (record { status = 200; body = id });
  read_response = λ raw. some (answer raw);
  log_bytes = λ log. [];
  abi_inputs = some 1;
  unpack_readings = reading;
  attested = λ p. p ∷ [];
  code = some (replicate 4 2);
  keccak = selector_of;
  unpack_revert = λ raw. none;
  foreign_call = λ id p. some (refused_with "attestation is not this policy's trigger");
  abi = reads;
  before_settle = λ id. pool_with 0;
  after_settle = λ id. pool_with (amount id);
  crypto = test_crypto;
  chain = λ id. record chain {
    settlement_record = λ policy. some (record {
      settled = true;
      payout_to = payee;
      amount = amount policy;
      instruction_id = replicate 32 8;
    });
  };
  error_id = λ name. some (0xaa ∷ 0xbb ∷ 0xcc ∷ 0xdd ∷ []);
  replay_call = λ response. some (refused_with "0xAABBCCDD");
}

abbrev nonce : Bytes
nonce = 1 ∷ []

-- A policy under test at the end of the run.
abbrev ended : TestPolicy ℕ → TestPolicy ℕ
ended p = record p {
  abi_encoded_request = 1 ∷ 2 ∷ [];
  voting_round = 2;
  proof = some (rain p.id);
  decision = some (answer p.id);
}

abbrev decided : List (TestPolicy ℕ)
decided = map ended (test_policies nonce)

passes : run_test network payee nonce ≡ ok decided
unfolding run_test check_pool_can_cover resolve_pool resolve_fxrp metadata balance require
    decided_policies already_set for_each test_policies test_policy_id prepare_policy request_body
    validate_feed prepare_request post encode_attestation_name encode_to_string hexutil_decode
    trim_space trim_prefix send_register_policy_trigger decode_string digit_value
    bind_policy_trigger given present bytes_eq check_tx submit_policy submit_request request_fee
    voting_round_id register_model seal_model contains_bytes is_prefix text_bytes first_leak decimal
    assert_no_secrets send_instruction action_result last_answer prove_policy collect_proof
    collect_from proof_or wait_for_proof rainfall_of decode_weather_reading
    assert_season_makes_sense lt_ℤ ◌-ℤ◌ ◌*ℤ◌ div_ℤ assert_raw_rainfall_path_removed
    assert_foreign_attestation_rejected simulate_and_decode_revert decode_revert_reason
    evaluate_policy run_evaluate accepted_payout decode_evaluate_response decode_evaluate_tuple
    word_bytes set_bytes expected_payout expected_ramp assert_payout settle_policy balance_of
    settled_decision settle decode_decision recover_tee_id action_result_sign_hash settlement_of
    assert_recorded assert_replay_rejected replay_guard_selectors matches_any_selector
passes = refl

run_test_ok_example :
    (identities decided ≡ identities {P = ℕ} (test_policies nonce))
    × All (IsDecided network payee) decided
    × ((pool : Pool) × All (IsPaid network payee pool) decided)
run_test_ok_example = run_test_ok network payee nonce decided passes

valid : validate test_model ≡ none
unfolding validate
valid = refl

expected_payout-evaluate_payout_example :
    evaluate_payout test_model (some (pos 800)) ≡ expected_payout test_model (pos 800)
expected_payout-evaluate_payout_example = expected_payout-evaluate_payout test_model 800 valid
