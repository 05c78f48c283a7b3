-- ===== src/EndToEnd/Network.antt =====
-- go/tools/cmd/run-test/main.go: the policies under test and its model, and what the run reaches outside, the parameter
-- `Network`. `P` is the type of an attestation's proof.
use aegis_labs.Common.{
  ◌>>=◌, ok, err, panic, ℕ, ◌/◌, ◌%◌, String, Bool, true, false, Option, none, some, List, [], ◌∷◌,
  ◌++◌, take, replicate, Outcome,
}
use aegis_labs.Common.Int.{pos}
use aegis_labs.Common.Bytes.{Bytes, Hash, Address}
use aegis_labs.Model.{ModelParameters, RegisterModelRequest}
use aegis_labs.Model.Abi.{Abi}
use aegis_labs.Model.Codec.{DecodeFault}
use aegis_labs.Extension.Scoring.{EvalFault}
use aegis_labs.Extension.Actions.{HttpResponse, Log}
use aegis_labs.Payout.Decision.{ActionResponse, Crypto}
use aegis_labs.Payout.Settle.{Chain, SettleFault}
use aegis_labs.Support.Revert.{CallAnswer}
use aegis_labs.Instructions.{SenderCalls, SendFault}
use aegis_labs.Fdc.Feed.{DroughtFeed, RequestBody, FeedFault}
use aegis_labs.Fdc.Prepare.{Verifier, PrepareFault}
use aegis_labs.Fdc.Submit.{Hub, SubmitFault, WeatherReading, ReadingFault}
use aegis_labs.Fdc.Polling.{Poll}
use aegis_labs.Tee.Results.{ResultFault}
use aegis_labs.Agent.Pool.{PoolCalls, PoolFault}
use aegis_labs.Agent.Register.{BindCalls}

pub record TestPolicy (P : Type 0) : Type 0 where
  pub label : String
  pub id : Hash
  pub feed : DroughtFeed
  pub should_trigger : Bool
  -- filled in as the test progresses
  pub abi_encoded_request : Bytes
  pub voting_round : ℕ
  pub proof : Option P
  pub decision : Option ActionResponse

-- Two bytes of prefix, then the run's nonce, into 32 zero bytes.
unfoldable pub test_policy_id : ℕ → Bytes → Hash
test_policy_id prefix nonce = prefix / 256 % 256 ∷ prefix % 256 ∷ take 30 (nonce ++ replicate 30 0)

test_policy : {P : Type 0} → String → Hash → String → String → Bool → TestPolicy P
test_policy label id first last triggers = record {
  label = label;
  id = id;
  feed = record {
    latitude_deg = "-7.25";
    longitude_deg = "112.75";
    start_date = first;
    end_date = last;
  };
  should_trigger = triggers;
  abi_encoded_request = [];
  voting_round = 0;
  proof = none;
  decision = none;
}

unfoldable pub test_policies : {P : Type 0} → Bytes → List (TestPolicy P)
unfolding test_policy_id test_policy
test_policies nonce =
    test_policy "dry season (drought)" (test_policy_id 0xa3d1 nonce) "2025-06-01" "2025-08-31" true
    ∷ test_policy "wet season (normal)" (test_policy_id 0xa3d2 nonce) "2024-12-01" "2025-02-28"
        false
    ∷ []

abbrev pub test_model : ModelParameters
test_model = record {
  trigger_tenths_mm = 1200;
  exit_tenths_mm = 400;
  sum_insured_units = some (pos 5_000_000);
  payout_factor_bps = 9000;
  min_payout_units = some (pos 100_000);
}

pub data TestFault : Type 0 where
  pool_fault : PoolFault → TestFault
  cannot_cover setting_extension_id : TestFault
  building_request : FeedFault → TestFault
  preparing : PrepareFault → TestFault
  asking_hash binding_sender reading_trigger : TestFault
  bound_elsewhere : Hash → TestFault
  binding_trigger registering sending_evaluate : SendFault → TestFault
  submitting : SubmitFault → TestFault
  fetching_key parsing_key encoding_model encrypting leaks_secret : TestFault
  no_result : ResultFault → TestFault
  register_failed evaluate_failed : Log → TestFault
  no_proof : TestFault
  decoding_reading : ReadingFault → TestFault
  wrong_season no_code raw_path_open no_attested_path packing_call foreign_accepted : TestFault
  decoding_decision : DecodeFault → TestFault
  other_policy other_recipient no_signature : TestFault
  scoring : EvalFault → TestFault
  other_payout nothing_paid paid_without_drought : TestFault
  no_decision : TestFault
  settling settlement_record : SettleFault → TestFault
  recipient_moved pool_moved not_settled : TestFault
  recorded_amount recorded_instruction recorded_recipient wet_season_paid : TestFault
  no_such_error packing_replay replay_accepted : TestFault

-- What a step reaches may change from one policy to the next: it depends on the policy's id.
pub record Network (P : Type 0) : Type 0 where
  pub pool_calls : PoolCalls
  -- `SetExtensionId`, with the text of its error
  pub set_extension_id : Outcome String (Unit {0})
  pub marshal_query : List (String × String) → String
  pub verifier : Verifier
  pub bind_calls : Hash → RequestBody → BindCalls
  -- the hub at a submission, and the fetches up to the one at the deadline, by the attempts that may follow
  pub hub : Hash → ℕ → Hub
  pub polls : Hash → ℕ → ℕ → Bytes → List (Poll P)
  pub has_tee_info : Bool
  pub key_parses : Bool
  pub encode_model : RegisterModelRequest → Option Bytes
  pub encrypt : Hash → Bytes → Option Bytes
  pub register_calls : Bytes → SenderCalls
  pub evaluate_calls : Hash → Address → P → SenderCalls
  pub fee : ℕ
  pub gets : Hash → ℕ → Option HttpResponse
  pub read_response : Bytes → Option ActionResponse
  pub log_bytes : Log → Bytes
  -- the ABI of a reading, and the attested data of a proof
  pub abi_inputs : Option ℕ
  pub unpack_readings : Bytes → Option (List WeatherReading)
  pub attested : P → Bytes
  pub code : Option Bytes
  -- `crypto.Keccak256` of a signature
  pub keccak : String → Bytes
  pub unpack_revert : Bytes → Option String
  -- the simulated evaluate of a policy with a proof, where the ABI packs it
  pub foreign_call : Hash → P → Option CallAnswer
  pub abi : Abi
  -- the tokens in front of and behind a policy's settlement
  pub before_settle : Hash → PoolCalls
  pub after_settle : Hash → PoolCalls
  pub crypto : Crypto
  pub chain : Hash → Chain
  -- the ids of the contract's errors by name, and the simulated second settlement
  pub error_id : String → Option Bytes
  pub replay_call : ActionResponse → Option CallAnswer

unfoldable pub given : {A : Type 0} → TestFault → Option A → Outcome TestFault A
given f none = err f
given f (some a) = ok a

-- A nil pointer panics.
unfoldable pub present : {A : Type 0} → Option A → Outcome TestFault A
present none = panic
present (some a) = ok a

unfoldable pub require : TestFault → Bool → Outcome TestFault (Unit {0})
require f true = ok tt
require f false = err f

-- A step for each policy, in order.
unfoldable pub for_each :
    {A B : Type 0} → (A → Outcome TestFault B) → List A → Outcome TestFault (List B)
for_each f [] = ok []
for_each f (x ∷ xs) = do y ← f x; ys ← for_each f xs; ok (y ∷ ys)
