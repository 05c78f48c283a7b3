-- ===== src/EndToEnd/Steps.antt =====
-- go/tools/cmd/run-test/main.go: a policy's way to its registered model and its proof. What is only
-- logged is left out.
use aegis_labs.Common.{
  ◌>>=◌, ◌>>◌, ℕ, zero, suc, String, Bool, true, false, not, ◌||◌, Option, none, some, List, [],
  ◌∷◌, if◌then◌else◌, ◌==◌, length, take, Outcome, ok, err, panic, map_err,
}
use aegis_labs.Common.Int.{ℤ, pos, lt_ℤ}
use aegis_labs.Common.Bytes.{Bytes, Hash, bytes_eq, zero_hash}
use aegis_labs.Instructions.{send_instruction, send_register_policy_trigger}
use aegis_labs.Support.Revert.{simulate_and_decode_revert}
use aegis_labs.Fdc.Feed.{request_body}
use aegis_labs.Fdc.Prepare.{prepare_request}
use aegis_labs.Fdc.Submit.{submit_request, decode_weather_reading}
use aegis_labs.Fdc.Polling.{Waited, proof, crashed, wait_for_proof}
use aegis_labs.Tee.Results.{action_result}
use aegis_labs.Agent.Pool.{Pool, resolve_pool, balance}
use aegis_labs.Agent.Register.{BindCalls}
use aegis_labs.Agent.Sealing.{contains_bytes, text_bytes, first_leak, secret_strings}
use aegis_labs.EndToEnd.Network.{
  TestPolicy, test_model, TestFault, Network, given, present, require, cannot_cover,
  setting_extension_id, asking_hash, binding_sender, reading_trigger, bound_elsewhere,
  binding_trigger, pool_fault, building_request, preparing, submitting, encoding_model, encrypting,
  leaks_secret, registering, no_result, register_failed, no_proof, decoding_reading, wrong_season,
  no_code, raw_path_open, no_attested_path, packing_call, foreign_accepted,
}

-- `strings.Contains` on an ASCII part.
abbrev pub says : String → String → Bool
says part text = contains_bytes (text_bytes part) (text_bytes text)

-- `assertNoSecrets`
no_leak : List Bytes → Bool
no_leak [] = true
no_leak (blob ∷ rest) = elim (first_leak (secret_strings test_model) blob) [
  | none ↦ no_leak rest
  | some f ↦ false
]

unfoldable pub assert_no_secrets : List Bytes → Outcome TestFault (Unit {0})
unfolding no_leak require
assert_no_secrets blobs = require leaks_secret (no_leak blobs)

module _ {P : Type 0} (net : Network P) where
  -- The balance of the executor against the largest claim of the model.
  unfoldable pub check_pool_can_cover : ℤ → Outcome TestFault Pool
  unfolding require
  check_pool_can_cover worst_case = do
    pool ← map_err pool_fault (resolve_pool net.pool_calls)
    held ← map_err pool_fault (balance net.pool_calls pool pool.executor)
    require cannot_cover (not (lt_ℤ (pos held) worst_case))
    ok pool

  -- An extension id that is set already is no failure.
  unfoldable pub already_set : Outcome String (Unit {0}) → Outcome TestFault (Unit {0})
  unfolding require
  already_set (ok u) = ok tt
  already_set (err text) =
      require setting_extension_id (says "already set" text || says "Extension ID already set" text)
  already_set panic = panic

  -- The `switch` on the hash that the policy is bound to.
  bound_to : BindCalls → Hash → Hash → Hash → Outcome TestFault (Unit {0})
  bound_to calls id request_hash existing =
      if bytes_eq existing request_hash
      then ok tt
      else if not (bytes_eq existing zero_hash)
      then err (bound_elsewhere existing)
      else map_err binding_trigger (send_register_policy_trigger calls.trigger id request_hash)
        >>= λ tx. ok tt

  unfoldable pub bind_policy_trigger : BindCalls → Hash → Outcome TestFault (Unit {0})
  unfolding given require bound_to
  bind_policy_trigger calls id = do
    request_hash ← given asking_hash calls.trigger_request_hash
    require binding_sender calls.binds_sender
    existing ← given reading_trigger (calls.policy_trigger_request_hash id)
    bound_to calls id request_hash existing

  unfoldable pub prepare_policy : TestPolicy P → Outcome TestFault (TestPolicy P)
  unfolding bind_policy_trigger
  prepare_policy p = do
    body ← map_err building_request (request_body net.marshal_query p.feed)
    encoded ← map_err preparing (prepare_request net.verifier body)
    bind_policy_trigger (net.bind_calls p.id body) p.id
    ok (record p { abi_encoded_request = encoded })

  unfoldable pub submit_policy : ℕ → TestPolicy P → Outcome TestFault (TestPolicy P)
  submit_policy more p = do
    submitted ← map_err submitting (submit_request (net.hub p.id more) p.abi_encoded_request)
    ok (record p { voting_round = submitted.0 })

  unfoldable pub seal_model : TestPolicy P → Outcome TestFault Bytes
  unfolding given require assert_no_secrets
  seal_model p = do
    plaintext ←
        given encoding_model (net.encode_model (record { policy_id = p.id; model = test_model }))
    ciphertext ← given encrypting (net.encrypt p.id plaintext)
    require leaks_secret (not (contains_bytes plaintext ciphertext))
    assert_no_secrets (ciphertext ∷ [])
    ok ciphertext

  unfoldable pub register_model : TestPolicy P → Outcome TestFault (Unit {0})
  unfolding seal_model require assert_no_secrets
  register_model p = do
    ciphertext ← seal_model p
    sent ← map_err registering (send_instruction (net.register_calls ciphertext) net.fee)
    response ← map_err no_result (action_result net.read_response (net.gets sent.0))
    require (register_failed response.result.log) (not (response.result.status == 0))
    assert_no_secrets (net.log_bytes response.result.log ∷ response.result.result_data ∷ [])

  unfoldable pub proof_or :
      Outcome TestFault (TestPolicy P) → TestPolicy P → Waited P → Outcome TestFault (TestPolicy P)
  proof_or again p (proof v) = ok (record p { proof = some v })
  proof_or again p crashed = panic
  proof_or again p _ = again

  -- The proof of the policy's round, or a submission into another one; `more` of these may follow.
  unfoldable pub collect_from : ℕ → TestPolicy P → Outcome TestFault (TestPolicy P)
  unfolding proof_or submit_policy
  collect_from zero p =
      proof_or (err no_proof) p
        (wait_for_proof (net.polls p.id zero p.voting_round p.abi_encoded_request))
  collect_from (suc more) p =
      proof_or (submit_policy more p >>= collect_from more) p
        (wait_for_proof (net.polls p.id (suc more) p.voting_round p.abi_encoded_request))

  unfoldable pub collect_proof : TestPolicy P → Outcome TestFault (TestPolicy P)
  unfolding collect_from
  collect_proof = collect_from 2

  attested_of : Option P → Option Bytes
  attested_of none = none
  attested_of (some v) = some (net.attested v)

  -- The ABI's decoder gives no nil number; a nil one would panic where the code compares it.
  unfoldable pub rainfall_of : TestPolicy P → Outcome TestFault ℤ
  unfolding attested_of present
  rainfall_of p = do
    reading ←
        map_err decoding_reading
          (decode_weather_reading net.abi_inputs net.unpack_readings (attested_of p.proof))
    present reading.rainfall_tenths_mm

  -- Drought is below the trigger.
  unfoldable pub assert_season_makes_sense : TestPolicy P → ℤ → Outcome TestFault (Unit {0})
  unfolding require
  assert_season_makes_sense p rainfall =
      let drought = lt_ℤ rainfall (pos test_model.trigger_tenths_mm) in
      require wrong_season (if p.should_trigger then drought else not drought)

  unfoldable pub prove_policy : TestPolicy P → Outcome TestFault (TestPolicy P)
  unfolding collect_proof rainfall_of assert_season_makes_sense
  prove_policy p = do
    proved ← collect_proof p
    rainfall ← rainfall_of proved
    assert_season_makes_sense proved rainfall
    ok proved

  selector : String → Bytes
  selector signature = take 4 (net.keccak signature)

  unfoldable pub assert_raw_rainfall_path_removed : Outcome TestFault (Unit {0})
  unfolding given require selector
  assert_raw_rainfall_path_removed = do
    code ← given no_code net.code
    require no_code (not (length code == 0))
    require raw_path_open (not (contains_bytes (selector "evaluate(bytes32,uint256,address)") code))
    require no_attested_path (
        contains_bytes
          (selector
            "evaluate(bytes32,address,(bytes32[],(bytes32,bytes32,uint64,uint64,(string,string,string,string,string,string,string),(bytes))))")
          code)

  unfoldable pub assert_foreign_attestation_rejected :
      List (TestPolicy P) → Outcome TestFault (Unit {0})
  unfolding given present require
  assert_foreign_attestation_rejected (victim ∷ foreign ∷ rest) = do
    v ← present foreign.proof
    answer ← given packing_call (net.foreign_call victim.id v)
    require foreign_accepted (
        says "attestation is not this policy's trigger"
          (simulate_and_decode_revert net.unpack_revert answer))
  assert_foreign_attestation_rejected _ = ok tt
