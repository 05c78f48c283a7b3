-- ===== src/Examples/Production.antt =====
-- A machine that is registered from its first step to production.
use aegis_labs.Common.{
  ◌≡◌, refl, ℕ, some, none, List, [], ◌∷◌, ◌++◌, Bool, true, false, if◌then◌else◌, Bool-cases, inl,
  inr, ok, replicate,
}
use aegis_labs.Common.Bytes.{Bytes, Hash, Address, zero_hash, bytes_eq}
use aegis_labs.Support.{Mined, check_tx}
use aegis_labs.Tee.Registration.{
  Call, pre_register, to_production, availability_check, fetch_result, no_state, Progress, Stepped,
  going, stopped, missing, contains, register_node, load_state,
}
use aegis_labs.Tee.Results.{action_result, last_answer}
use aegis_labs.Tee.OnChain.{
  MachineChain, AvailabilityProof, request_tee_attestation, pre_registration,
  request_availability_check, succeeded,
}
use aegis_labs.Tee.OnChain.Node.{ProofReader, NodeArguments, node_calls, availability_check_result}
use aegis_labs.Tee.OnChain.{to_production as bring_to_production}
use aegis_labs.Tee.Resume.{any_call}
use aegis_labs.Tee.OnChain.Produced.{InProduction, MachineLaws, register_node-InProduction}
use aegis_labs.Examples.Relay.{response_800}

abbrev machine : Address
machine = 1 ∷ []

abbrev mined : Mined
mined = record {
  receipt = some (record {
    status = 1;
    tx_hash = 2 ∷ [];
    block_hash = 3 ∷ [];
    logs = (4 ∷ []) ∷ (5 ∷ []) ∷ [];
  });
  failing_message = none;
}

abbrev is_registration : Call → Bool
is_registration pre_register = true
is_registration _ = false

abbrev is_production : Call → Bool
is_production to_production = true
is_production _ = false

-- The registry knows the machine once it was registered, and has it in production once it was brought there.
abbrev chain : List Call → MachineChain Bytes Bytes
chain journal = record {
  makes_transactor = true;
  register = λ registry signature proxy url. some mined;
  request_attestation = λ tee. some mined;
  request_availability = λ tee id external. some mined;
  to_production = λ proof. some mined;
  add_version = λ extension version code platform. some mined;
  machine_status = λ tee. some (if any_call is_production journal then 2 else 1);
  machine_of = λ tee. if any_call is_registration journal then some machine else none;
  parse_attestation_requested = λ log. some (6 ∷ []);
  parse_instructions_sent = λ log. some (7 ∷ []);
  to_vrs = λ rsv. some rsv;
  tee_id_of = λ request. machine;
}

abbrev reader : ProofReader Bytes Bytes
reader = record {
  read_response = λ raw. some response_800;
  gets = λ id i. some (record { status = 200; body = [] });
  unmarshal = λ raw. some (record {
    response_header = [];
    request_body = [];
    response_body = [];
    data_provider_signatures = [];
  });
  decode_header = λ raw. some [];
  decode_request = λ raw. some [];
  decode_response = λ raw. some (record {
    status = 0;
    tee_timestamp = 0;
    code_hash = [];
    platform = [];
    initial_signing_policy_id = 0;
    last_signing_policy_id = 0;
    state = [];
  });
}

abbrev arguments : NodeArguments
arguments = record {
  tee_id = machine;
  proxy_id = 8 ∷ [];
  external_tee = 9 ∷ [];
  info = record {
    machine_data = record {
      extension_id = 1 ∷ [];
      initial_owner = [];
      code_hash = [];
      platform = [];
      key_x = [];
      key_y = [];
      governance_hash = [];
    };
    data_signature = replicate 65 27;
  };
  host_url = "http://proxy";
  consistency = none;
  saves = true;
  removes = true;
}

abbrev command : List ℕ
command = b'r' ∷ b'a' ∷ b'p' ∷ []

abbrev progress_of : Stepped → Progress
progress_of (going p) = p
progress_of (stopped f file journal) = record {
  state = record { completed_steps = []; tee_attest_instruction_id = []; instruction_id = [] };
  file = missing;
  journal = [];
  attest_id = [];
  instruction = [];
}

abbrev ended : Progress
ended = progress_of (register_node (node_calls chain reader arguments) command zero_hash missing)

goes : register_node (node_calls chain reader arguments) command zero_hash missing ≡ going ended
unfolding register_node load_state contains node_calls request_tee_attestation pre_registration
    request_availability_check availability_check_result bring_to_production succeeded check_tx
    action_result last_answer bytes_eq
goes = refl

asks : (contains b'a' command ≡ true) × (contains b'p' command ≡ true)
unfolding contains
asks = (refl, refl)

fresh : (load_state missing ≡ ok no_state) × (contains b'a' no_state.completed_steps ≡ false)
unfolding load_state contains
fresh = (refl, refl)

-- Behind the call there is one.
brought : (journal : List Call) → any_call is_production (journal ++ (to_production ∷ [])) ≡ true
brought [] = refl
brought (c ∷ rest) = elim (Bool-cases (is_production c)) [
  | inl e ↦ rw e refl
  | inr e ↦ rw e (brought rest)
]

laws : MachineLaws chain reader arguments
laws = record {
  enters = λ journal proof m r sent succeeded. rw (brought journal) refl;
  is_about = λ journal later attest_id id proof requested read. refl;
}

register_node-InProduction_example :
    (journal : List Call) × (attest_id : Hash) × (proof : AvailabilityProof Bytes Bytes)
    × (ended.journal
        ≡ journal
          ++ (availability_check attest_id ∷ fetch_result ended.instruction ∷ to_production ∷ []))
    × (request_availability_check (chain journal) machine (9 ∷ []) attest_id ≡ ok ended.instruction)
    × (availability_check_result reader ended.instruction ≡ ok proof)
    × InProduction
        (chain (journal ++ (availability_check attest_id ∷ [])))
        (chain ((journal ++ (availability_check attest_id ∷ [])) ++ (to_production ∷ [])))
        machine
register_node-InProduction_example =
    register_node-InProduction chain reader arguments command zero_hash missing no_state ended laws
      asks.0 asks.1 fresh.0 fresh.1 goes
