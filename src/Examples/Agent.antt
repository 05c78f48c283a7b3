-- ===== src/Examples/Agent.antt =====
-- A run of the operator's command, from a state file with one policy to its settlement.
use aegis_labs.Common.{
  ℕ, ◌+◌, ◌<◌, ◌≡◌, refl, none, some, List, [], ◌∷◌, true, false, ◌==◌, if◌then◌else◌, ok, err,
  arith, ok_inj, ap, sym, ◌∙◌, ◌≢◌, inl, inr, str_eq, str_eq_iff, Bool-cases, zero, suc, length,
}
use aegis_labs.Common.Bytes.{Bytes, Hash, Address, bytes_eq, word_bytes, set_bytes}
use aegis_labs.Common.Int.{pos}
use aegis_labs.Support.{Receipt, Mined, check_tx}
use aegis_labs.Model.Abi.{Abi, bytes32, big_int, address}
use aegis_labs.Instructions.{SenderCalls, sent, send_instruction}
use aegis_labs.Fdc.Submit.{Hub, fee_of, submit_request, request_fee, decode_weather_reading}
use aegis_labs.Payout.Settle.{Chain, settle, settlement_of}
use aegis_labs.Tee.Results.{wait_for_action_result, action_result, last_answer}
use aegis_labs.Agent.Records.{PolicyRecord, Policies, contents, load_state, save, get, put_at}
use aegis_labs.Agent.Pool.{PoolCalls, value, resolve_pool, resolve_fxrp, metadata, balance}
use aegis_labs.Fdc.HexText.{decode_string, trim_prefix, digit_value}
use aegis_labs.Agent.Attest.{
  attest, submit, proof_of_round, attempt, attest_from, note_round, wait_on_round, proof_attempts,
}
use aegis_labs.Fdc.Rounds.{voting_round_id}
use aegis_labs.Agent.World.{
  Outside, save_with, World, Session, Settings, already_settled, requested,
}
use aegis_labs.Agent.Evaluate.{
  run_evaluate, opened, evaluate_policy, settle_decision, balance_now, money_check, note_settled,
  pool_now, read_reading, relay_decision, report_money, settle_from, settlement_now, shown_and,
}
use aegis_labs.Agent.Score.{
  score_in_enclave, checked_decision, accepted, await_result, collect, note_instruction,
  note_payout, pass_on, policy_hash, send_evaluate,
}
use aegis_labs.Agent.Evaluate.Once.{run_evaluate_once, IsKeyed}
use aegis_labs.Fdc.Polling.{wait_for_proof, proof}
use aegis_labs.Extension.Actions.{build_result}
use aegis_labs.Model.Codec.{decode_evaluate_response, decode_evaluate_tuple}
use aegis_labs.Validate.Text.{decimal}
use aegis_labs.Payout.Decision.{action_result_sign_hash, decode_decision, recover_tee_id}
use aegis_labs.Agent.Evaluate.Scored.{score_in_enclave_ok}
use aegis_labs.Agent.Attest.Rounds.{IsProofOf, attest_ok, WithoutProof, after_attempts, attest_live}
use aegis_labs.Agent.Attest.Fees.{attest-Sends}
use aegis_labs.Agent.Journal.{Sends}
use aegis_labs.Examples.Codec.{codec, codec_laws, at, place}
use aegis_labs.Examples.Data.{policy, payee, test_crypto, signature}
use aegis_labs.Examples.Relay.{response_800}
use aegis_labs.Examples.Oracle.{geometry}

abbrev pool_address : Address
pool_address = 6 ∷ []

abbrev receipt : Receipt
receipt = record { status = 1; tx_hash = 11 ∷ []; block_hash = 12 ∷ []; logs = (13 ∷ []) ∷ [] }

abbrev pub mined : Mined
mined = record { receipt = some receipt; failing_message = none }

abbrev pub hub : Hub
hub = record {
  configured = true;
  fee_configurations = some (14 ∷ []);
  fee_abi_parses = true;
  get_request_fee = λ at request. some (fee_of 10 ∷ []);
  makes_transactor = true;
  request_attestation = λ fee request. some mined;
  header_time = λ block. some 1200;
  geometry = geometry;
}

-- The pool pays 800 units to the recipient when the clock goes from zero to one.
abbrev held_by : ℕ → Address → ℕ
held_by clock account =
    if bytes_eq account pool_address
    then if clock == 0 then 10000 else 9200
    else if clock == 0
    then 0
    else 800

abbrev pool_calls : ℕ → PoolCalls
pool_calls clock = record {
  binds_settlement = true;
  payout_executor = some pool_address;
  registry_override = none;
  flare_registry = 15 ∷ [];
  registry_abi_parses = true;
  asset_manager = λ registry. some (value (16 ∷ []));
  manager_abi_parses = true;
  f_asset = λ manager. some (value (17 ∷ []));
  erc20_abi_parses = true;
  symbol = λ token. some (value "FXRP");
  decimals = λ token. some (value 6);
  balance_of = λ token account. some (value (held_by clock account));
}

abbrev pub calls : SenderCalls
calls = record {
  binds = true;
  makes_transactor = true;
  send = λ fee. sent mined;
  replay = λ fee. none;
  parse_instructions_sent = λ log. some (18 ∷ []);
  unpack_revert = λ bytes. none;
}

abbrev pub chain : Chain
chain = record {
  chain_id = 114;
  binds = true;
  makes_transactor = true;
  settle_tx = λ id status tag payload signed. some (3 ∷ id);
  check_tx = λ tx. some (4 ∷ tx);
  settlement_record = λ id.
      some (record { settled = true; payout_to = payee; amount = 800; instruction_id = 18 ∷ [] });
}

abbrev reads_abi : Abi
reads_abi = record {
  pack = λ id value to. none;
  unpack = λ raw. some (bytes32 policy ∷ big_int (some (pos 800)) ∷ address payee ∷ []);
}

abbrev pub bound : PolicyRecord
bound = record {
  name = "drought";
  policy_id = "0x07";
  created_at = 0;
  request_hash = "";
  abi_encoded_request = "0x0102";
  model_registered = true;
  register_instruction_id = "";
  voting_round = 0;
  evaluate_instruction_id = "";
  payout_units = "";
  settle_tx = "";
  settled = false;
}

abbrev requested_once : PolicyRecord
requested_once = record bound { voting_round = 2 }

abbrev instructed : PolicyRecord
instructed = record requested_once { evaluate_instruction_id = "0x" }

abbrev priced : PolicyRecord
priced = record instructed { payout_units = "800" }

abbrev closed : PolicyRecord
closed = record priced { settle_tx = "0x"; settled = true }

abbrev records : List PolicyRecord
records = bound ∷ requested_once ∷ instructed ∷ priced ∷ closed ∷ []

abbrev pub outside : Outside ℕ Bytes
outside = record {
  json = codec records;
  disk = λ clock. record { makes_directory = true; writes = true };
  pool_calls = pool_calls;
  hub = λ clock. hub;
  after_submit = λ request clock. clock;
  fetches = λ round request clock. record { fetched = ok none; done = false } ∷ [];
  last_fetch = λ round request clock. ok (some (19 ∷ []));
  after_fetches = λ round request clock. clock;
  abi_inputs = some 1;
  unpack_readings = λ raw. some (
      record {
        latitude_micro_deg = none;
        longitude_micro_deg = none;
        rainfall_tenths_mm = some (pos 800);
      }
      ∷ []);
  attested = λ p. p;
  evaluate_calls = λ id to p clock. calls;
  evaluate_fee = 5;
  after_evaluate = λ id to p clock. clock;
  read_response = λ raw. some response_800;
  waits = λ id clock. record { before = []; last = λ i. some (record { status = 200; body = [] }) };
  after_result = λ id clock. clock;
  abi = reads_abi;
  crypto = test_crypto;
  chain = λ clock. chain;
  after_settle = λ response clock. clock + 1;
  hash_hex = λ h. "0x";
  hex_to_hash = λ text. policy;
}

abbrev pub settings : Settings
settings = record { policy_name = "drought"; payout_to = payee }

abbrev pub start : World ℕ
start = record { outside = 0; file = contents (10 ∷ []); journal = [] }

settles_once : (run_evaluate outside settings start).0 ≡ ok tt
unfolding run_evaluate opened load_state codec get decode_string trim_prefix evaluate_policy
    resolve_pool resolve_fxrp metadata balance attest submit submit_request request_fee check_tx
    voting_round_id save_with proof_of_round wait_for_proof decode_weather_reading score_in_enclave
    action_result checked_decision build_result decode_evaluate_response decode_evaluate_tuple
    word_bytes decimal settle_decision attempt attest_from note_round wait_on_round accepted
    await_result balance_now collect money_check note_instruction note_payout note_settled pass_on
    policy_hash pool_now read_reading relay_decision report_money send_evaluate settle_from
    settlement_now shown_and set_bytes at place digit_value action_result_sign_hash decode_decision
    recover_tee_id settlement_of last_answer save put_at bytes_eq settle send_instruction
    wait_for_action_result
settles_once = refl

abbrev records_of : Policies
records_of = ("drought", bound) ∷ []

not_found : (r : PolicyRecord) → none ≡ some r → ⊥
not_found r h = cc

-- The file of the start holds one record, under its name.
start-IsKeyed : IsKeyed outside settings start.file
unfolding load_state codec at get
start-IsKeyed ps name r loaded found =
    let same : records_of ≡ ps = ok_inj loaded in
    let here = ap (get name) same ∙ found in
    elim (Bool-cases (str_eq "drought" name)) [
      | inl e ↦
          let held : some bound ≡ some r = rw e at here in
          let is : bound ≡ r = cc in ap (λ x. x.name) (sym is) ∙ (str_eq_iff "drought" name).0 e
      | inr e ↦ absurd (not_found r (rw e at here))
    ]

run_evaluate_once_example :
    run_evaluate outside settings (run_evaluate outside settings start).1
    ≡ (err already_settled, (run_evaluate outside settings start).1)
run_evaluate_once_example =
    run_evaluate_once outside settings start (run_evaluate outside settings start).1
      (codec_laws records) start-IsKeyed settles_once refl

abbrev session : Session ℕ
session = record { world = start; policies = records_of; current = bound }

abbrev request : Bytes
request = 1 ∷ 2 ∷ []

attests : (attest outside request session).0 ≡ ok (19 ∷ [])
unfolding run_evaluate opened load_state codec get decode_string trim_prefix evaluate_policy
    resolve_pool resolve_fxrp metadata balance attest submit submit_request request_fee check_tx
    voting_round_id save_with proof_of_round wait_for_proof decode_weather_reading score_in_enclave
    action_result checked_decision build_result decode_evaluate_response decode_evaluate_tuple
    word_bytes decimal settle_decision attempt attest_from note_round wait_on_round accepted
    await_result balance_now collect money_check note_instruction note_payout note_settled pass_on
    policy_hash pool_now read_reading relay_decision report_money send_evaluate settle_from
    settlement_now shown_and set_bytes at place digit_value action_result_sign_hash decode_decision
    recover_tee_id settlement_of last_answer save put_at bytes_eq settle send_instruction
    wait_for_action_result
attests = refl

attest_ok_example : IsProofOf outside request (19 ∷ []) (attest outside request session).1
attest_ok_example = attest_ok outside (codec_laws records) request session (19 ∷ []) attests

-- The first round comes back without a proof.
abbrev slower : Outside ℕ Bytes
slower = record outside {
  last_fetch = λ round request clock. if clock == 0 then ok none else ok (some (19 ∷ []));
  after_fetches = λ round request clock. clock + 1;
}

first-WithoutProof :
    (k : ℕ)
    → k < 1
    → WithoutProof slower request
        (attempt slower request (after_attempts slower request k session)).0
unfolding run_evaluate opened load_state codec get decode_string trim_prefix evaluate_policy
    resolve_pool resolve_fxrp metadata balance attest submit submit_request request_fee check_tx
    voting_round_id save_with proof_of_round wait_for_proof decode_weather_reading score_in_enclave
    action_result checked_decision build_result decode_evaluate_response decode_evaluate_tuple
    word_bytes decimal settle_decision attempt attest_from note_round wait_on_round accepted
    await_result balance_now collect money_check note_instruction note_payout note_settled pass_on
    policy_hash pool_now read_reading relay_decision report_money send_evaluate settle_from
    settlement_now shown_and set_bytes at place digit_value action_result_sign_hash decode_decision
    recover_tee_id settlement_of last_answer save put_at bytes_eq settle send_instruction
    wait_for_action_result
first-WithoutProof zero below = inr refl
first-WithoutProof (suc k) below = absurd (omega arith)

second_has_proof :
    (attempt slower request (after_attempts slower request 1 session)).0 ≡ ok (proof (19 ∷ []))
unfolding run_evaluate opened load_state codec get decode_string trim_prefix evaluate_policy
    resolve_pool resolve_fxrp metadata balance attest submit submit_request request_fee check_tx
    voting_round_id save_with proof_of_round wait_for_proof decode_weather_reading score_in_enclave
    action_result checked_decision build_result decode_evaluate_response decode_evaluate_tuple
    word_bytes decimal settle_decision attempt attest_from note_round wait_on_round accepted
    await_result balance_now collect money_check note_instruction note_payout note_settled pass_on
    policy_hash pool_now read_reading relay_decision report_money send_evaluate settle_from
    settlement_now shown_and set_bytes at place digit_value action_result_sign_hash decode_decision
    recover_tee_id settlement_of last_answer save put_at bytes_eq settle send_instruction
    wait_for_action_result
second_has_proof = refl

attest_live_example :
    attest slower request session ≡ (ok (19 ∷ []), after_attempts slower request 2 session)
attest_live_example =
    attest_live slower request session 1 (19 ∷ []) (omega arith) first-WithoutProof second_has_proof

attest-Sends_example :
    Sends
      (λ t. t ≡ requested request)
      proof_attempts
      []
      (attest outside request session).1.world.journal
attest-Sends_example = attest-Sends outside request session

abbrev attested : Session ℕ
attested = record session { current = requested_once }

scores :
    (score_in_enclave outside settings (19 ∷ []) attested).0
    ≡ ok (
      record { policy_id = policy; payout_amount = some (pos 800); payout_to = payee },
      response_800,
    )
unfolding run_evaluate opened load_state codec get decode_string trim_prefix evaluate_policy
    resolve_pool resolve_fxrp metadata balance attest submit submit_request request_fee check_tx
    voting_round_id save_with proof_of_round wait_for_proof decode_weather_reading score_in_enclave
    action_result checked_decision build_result decode_evaluate_response decode_evaluate_tuple
    word_bytes decimal settle_decision attempt attest_from note_round wait_on_round accepted
    await_result balance_now collect money_check note_instruction note_payout note_settled pass_on
    policy_hash pool_now read_reading relay_decision report_money send_evaluate settle_from
    settlement_now shown_and set_bytes at place digit_value action_result_sign_hash decode_decision
    recover_tee_id settlement_of last_answer save put_at bytes_eq settle send_instruction
    wait_for_action_result
scores = refl

score_in_enclave_ok_example :
    (instruction tx : Hash) × (at : ℕ) × (send_instruction calls 5 ≡ ok (instruction, tx))
    × (wait_for_action_result outside.read_response (outside.waits instruction at)
        ≡ ok response_800)
    × (response_800.result.status ≢ 0)
    × (decode_evaluate_response reads_abi response_800.result.result_data
        ≡ ok (record { policy_id = policy; payout_amount = some (pos 800); payout_to = payee }))
    × (policy ≡ policy)
    × (payee ≡ payee)
    × (length signature ≢ 0)
score_in_enclave_ok_example =
    score_in_enclave_ok outside settings (19 ∷ []) attested
      (record { policy_id = policy; payout_amount = some (pos 800); payout_to = payee })
      response_800 scores

submits : submit_request hub request ≡ ok (2, 11 ∷ [])
unfolding run_evaluate opened load_state codec get decode_string trim_prefix evaluate_policy
    resolve_pool resolve_fxrp metadata balance attest submit submit_request request_fee check_tx
    voting_round_id save_with proof_of_round wait_for_proof decode_weather_reading score_in_enclave
    action_result checked_decision build_result decode_evaluate_response decode_evaluate_tuple
    word_bytes decimal settle_decision attempt attest_from note_round wait_on_round accepted
    await_result balance_now collect money_check note_instruction note_payout note_settled pass_on
    policy_hash pool_now read_reading relay_decision report_money send_evaluate settle_from
    settlement_now shown_and set_bytes at place digit_value action_result_sign_hash decode_decision
    recover_tee_id settlement_of last_answer save put_at bytes_eq settle send_instruction
    wait_for_action_result
submits = refl
