-- ===== src/Tee/OnChain.antt =====
-- go/tools/pkg/fccutils/registration.go: the calls under `RegisterNode`, and `AddTeeVersion`. The bindings,
-- the events' parsers and the signature's transformation are the parameter `MachineChain`.
pub mod Node
pub mod Produced
use aegis_labs.Common.{
  ◌>>=◌, ◌>>◌, ℕ, ◌+◌, ◌-◌, Bool, Option, none, some, List, [], ◌∷◌, ◌++◌, false, ltb, ◌==◌,
  if◌then◌else◌, length, take, drop, replicate, Outcome, ok, err, panic, map_err, String,
}
use aegis_labs.Common.Bytes.{Bytes, Hash, Address, set_bytes, bytes_eq}
use aegis_labs.Support.{Receipt, Mined, TxFault, check_tx}
use aegis_labs.Tee.Results.{ResultFault}

-- What the enclave signs of itself, as far as it is registered.
pub record MachineData : Type 0 where
  pub extension_id : Bytes
  pub initial_owner : Address
  pub code_hash : Hash
  pub platform : Hash
  pub key_x : Hash
  pub key_y : Hash
  pub governance_hash : Hash

pub record SignedTeeInfo : Type 0 where
  pub machine_data : MachineData
  pub data_signature : Bytes

-- The struct of the contract.
pub record RegistryData : Type 0 where
  pub extension : ℕ
  pub initial_owner : Address
  pub code_hash : Hash
  pub platform : Hash
  pub key_x : Hash
  pub key_y : Hash
  pub governance_hash : Hash

pub record Signature : Type 0 where
  pub v : ℕ
  pub r : Bytes
  pub s : Bytes

pub data OnChainFault : Type 0 where
  creating_transactor signature_error transforming_signature sending : OnChainFault
  transaction : TxFault → OnChainFault
  unexpected_logs parsing_attestation parsing_instructions : OnChainFault
  no_result : ResultFault → OnChainFault
  decoding_proof decoding_header decoding_request decoding_response : OnChainFault
  reading_machine not_set_up version_too_long : OnChainFault

pub record AvailabilityResponse : Type 0 where
  pub status : ℕ
  pub tee_timestamp : ℕ
  pub code_hash : Hash
  pub platform : Hash
  pub initial_signing_policy_id : ℕ
  pub last_signing_policy_id : ℕ
  pub state : Bytes

-- `H` is the type of a proof's header, and `R` that of the request in it.
pub record AvailabilityProof (H R : Type 0) : Type 0 where
  pub signatures : List Bytes
  pub header : H
  pub request_body : R
  pub response_body : AvailabilityResponse

pub record MachineChain (H R : Type 0) : Type 0 where
  pub makes_transactor : Bool
  pub register : RegistryData → Signature → Address → String → Option Mined
  pub request_attestation : Address → Option Mined
  pub request_availability : Address → Hash → Address → Option Mined
  pub to_production : AvailabilityProof H R → Option Mined
  pub add_version : ℕ → Bytes → Hash → Hash → Option Mined
  pub machine_status : Address → Option ℕ
  -- the id of the machine that the registry holds under an id
  pub machine_of : Address → Option Address
  pub parse_attestation_requested : Bytes → Option Hash
  pub parse_instructions_sent : Bytes → Option Hash
  pub to_vrs : Bytes → Option Bytes
  pub tee_id_of : R → Address

unfoldable pub or_fault : {A : Type 0} → OnChainFault → Option A → Outcome OnChainFault A
or_fault f none = err f
or_fault f (some a) = ok a

unless_fails : OnChainFault → Bool → Outcome OnChainFault (Unit {0})
unless_fails f b = if b then ok tt else err f

-- `sigVRS[0]`, `[32]byte(sigVRS[1:33])` and `[32]byte(sigVRS[33:65])`: a shorter slice panics.
signature_parts : Bytes → Outcome OnChainFault Signature
signature_parts [] = panic
signature_parts (v ∷ rest) =
    if ltb (length rest) 64
    then panic
    else ok (record { v = v; r = take 32 rest; s = take 32 (drop 32 rest) })

registry_data : MachineData → RegistryData
registry_data m = record {
  extension = set_bytes m.extension_id;
  initial_owner = m.initial_owner;
  code_hash = m.code_hash;
  platform = m.platform;
  key_x = m.key_x;
  key_y = m.key_y;
  governance_hash = m.governance_hash;
}

-- `stringToBytes32` on the bytes of a text.
unfoldable pub string_to_bytes32 : Bytes → Outcome OnChainFault Bytes
string_to_bytes32 text =
    if ltb 32 (length text)
    then err version_too_long
    else ok (text ++ replicate (32 - length text) 0)

-- `PRODUCTION` of the registry's enum.
abbrev pub tee_status_production : ℕ
tee_status_production = 2

module _ {H R : Type 0} (chain : MachineChain H R) where
  -- A transaction that was sent and succeeded.
  unfoldable pub succeeded : Option Mined → Outcome OnChainFault Receipt
  unfolding or_fault
  succeeded sent = do m ← or_fault sending sent; map_err transaction (check_tx m)

  -- The challenge and the instruction's id, from the second log and the first one.
  registration_events : List Bytes → Outcome OnChainFault (Hash × Hash)
  unfolding or_fault
  registration_events (first ∷ second ∷ rest) = do
    challenge ← or_fault parsing_attestation (chain.parse_attestation_requested second)
    id ← or_fault parsing_instructions (chain.parse_instructions_sent first)
    ok (challenge, id)
  registration_events _ = err unexpected_logs

  unfoldable pub pre_registration :
      SignedTeeInfo → Address → String → Outcome OnChainFault (Hash × Hash)
  unfolding or_fault unless_fails signature_parts registry_data succeeded registration_events
  pre_registration info proxy_id host_url = do
    unless_fails creating_transactor chain.makes_transactor
    unless_fails signature_error (length info.data_signature == 65)
    vrs ← or_fault transforming_signature (chain.to_vrs info.data_signature)
    signature ← signature_parts vrs
    receipt ←
        succeeded (chain.register (registry_data info.machine_data) signature proxy_id host_url)
    registration_events receipt.logs

  attestation_event : List Bytes → Outcome OnChainFault Hash
  unfolding or_fault
  attestation_event (first ∷ second ∷ rest) =
      or_fault parsing_instructions (chain.parse_instructions_sent first)
  attestation_event _ = err unexpected_logs

  unfoldable pub request_tee_attestation : Address → Outcome OnChainFault Hash
  unfolding unless_fails succeeded attestation_event
  request_tee_attestation tee_id = do
    unless_fails creating_transactor chain.makes_transactor
    receipt ← succeeded (chain.request_attestation tee_id)
    attestation_event receipt.logs

  availability_event : List Bytes → Outcome OnChainFault Hash
  unfolding or_fault
  availability_event [] = err unexpected_logs
  availability_event (first ∷ rest) =
      or_fault parsing_instructions (chain.parse_instructions_sent first)

  unfoldable pub request_availability_check : Address → Address → Hash → Outcome OnChainFault Hash
  unfolding unless_fails succeeded availability_event
  request_availability_check tee_id external_tee attest_id = do
    unless_fails creating_transactor chain.makes_transactor
    receipt ← succeeded (chain.request_availability tee_id attest_id external_tee)
    availability_event receipt.logs

  in_production : Option ℕ → Bool
  in_production none = false
  in_production (some status) = status == tee_status_production

  set_up : Address → Option Address → Outcome OnChainFault (Unit {0})
  set_up tee_id none = err reading_machine
  set_up tee_id (some held) = if bytes_eq held tee_id then ok tt else err not_set_up

  unfoldable pub send_to_production :
      (Address → Option Address) → AvailabilityProof H R → Outcome OnChainFault (Unit {0})
  unfolding unless_fails succeeded set_up
  send_to_production machine_after proof = do
    unless_fails creating_transactor chain.makes_transactor
    receipt ← succeeded (chain.to_production proof)
    set_up (chain.tee_id_of proof.request_body) (machine_after (chain.tee_id_of proof.request_body))

  -- A machine that is in production already is left alone; a status that cannot be read is not. The first
  -- argument is what `GetTeeMachine` answers behind the transaction.
  unfoldable pub to_production :
      (Address → Option Address) → AvailabilityProof H R → Outcome OnChainFault (Unit {0})
  unfolding in_production send_to_production
  to_production machine_after proof =
      if in_production (chain.machine_status (chain.tee_id_of proof.request_body))
      then ok tt
      else send_to_production machine_after proof

  unfoldable pub add_tee_version : ℕ → Hash → Hash → Bytes → Outcome OnChainFault (Unit {0})
  unfolding unless_fails succeeded
  add_tee_version extension code_hash platform version = do
    unless_fails creating_transactor chain.makes_transactor
    bytes ← string_to_bytes32 version
    receipt ← succeeded (chain.add_version extension bytes code_hash platform)
    ok tt
