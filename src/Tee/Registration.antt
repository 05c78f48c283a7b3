-- ===== src/Tee/Registration.antt =====
-- go/tools/pkg/fccutils/registration.go: `RegisterNode`, the resumable registration. Texts are lists of
-- code points. The calls that reach the chain and the proxies are the parameter `Calls`; each made is
-- written to a journal, in order.
use aegis_labs.Common.Bytes.{Hash, zero_hash}
use aegis_labs.Common.{
  ℕ, Bool, false, not, ◌||◌, Option, none, some, List, [], ◌∷◌, ◌++◌, ◌==◌, if◌then◌else◌, Outcome,
  ok, err, panic,
}
use aegis_labs.Tee.Policy.{OutOfSync}

-- `registrationState`, saved after each step.
pub record RegistrationState : Type 0 where
  pub completed_steps : List ℕ
  pub tee_attest_instruction_id : Hash
  pub instruction_id : Hash

abbrev pub no_state : RegistrationState
no_state = record {
  completed_steps = [];
  tee_attest_instruction_id = zero_hash;
  instruction_id = zero_hash;
}

pub data StateFile : Type 0 where
  missing unreadable malformed : StateFile
  saved : RegistrationState → StateFile

pub data RegisterNodeFault : Type 0 where
  identity_failed state_unreadable state_malformed : RegisterNodeFault
  attestation_failed pre_registration_failed : RegisterNodeFault
  out_of_sync : OutOfSync → RegisterNodeFault
  availability_failed result_failed production_failed : RegisterNodeFault

pub data Call : Type 0 where
  request_attestation pre_register : Call
  availability_check : Hash → Call
  fetch_result : Hash → Call
  to_production : Call

-- `Proof` is the type of a proof of availability.
pub record Calls (Proof : Type 0) : Type 0 where
  -- the TEE's identity could be read
  pub identified : Bool
  -- the machine is registered on-chain
  pub is_registered : Bool
  pub attestation : Option Hash
  pub pre_registration : Option Hash
  pub consistency : Option OutOfSync
  pub availability : Hash → Option Hash
  pub result_of : Hash → Option Proof
  pub production : Proof → Bool
  -- writing the state file succeeds, and removing it
  pub saves : Bool
  pub removes : Bool

-- `strings.Contains(text, letter)` for a text of one letter.
unfoldable pub contains : ℕ → List ℕ → Bool
contains c [] = false
contains c (x ∷ rest) = x == c || contains c rest

-- What the function carries from step to step: the state, the file, the journal, and the two local
-- ids.
pub record Progress : Type 0 where
  pub state : RegistrationState
  pub file : StateFile
  pub journal : List Call
  pub attest_id : Hash
  pub instruction : Hash

-- A step ends with progress or with an error, and leaves file and journal in both.
pub data Stepped : Type 0 where
  going : Progress → Stepped
  stopped : RegisterNodeFault → StateFile → List Call → Stepped

abbrev pub then_do : Stepped → (Progress → Stepped) → Stepped
then_do (going p) k = k p
then_do (stopped f file journal) k = stopped f file journal

-- `saveState`; a failed save only warns.
abbrev pub save : {Proof : Type 0} → Calls Proof → Progress → Progress
save calls p = if calls.saves then record p { file = saved p.state } else p

-- A letter is added to the completed steps, with the attestation's id.
abbrev pub attested : {Proof : Type 0} → Calls Proof → ℕ → Progress → Hash → Progress
attested calls letter p id = save calls (record p {
  state = record (p.state) {
    completed_steps = p.state.completed_steps ++ (letter ∷ []);
    tee_attest_instruction_id = id;
  };
  attest_id = id;
})

abbrev pub resumed : Progress → Progress
resumed p = record p { attest_id = p.state.tee_attest_instruction_id }

abbrev pub noted : Progress → Call → Progress
noted p c = record p { journal = p.journal ++ (c ∷ []) }

unfoldable pub attest_with :
    {Proof : Type 0} → Calls Proof → ℕ → RegisterNodeFault → Call → Progress → Option Hash → Stepped
attest_with calls letter f c p none = stopped f p.file (p.journal ++ (c ∷ []))
attest_with calls letter f c p (some id) = going (attested calls letter (noted p c) id)

-- Step `r`: a machine that is registered asks for a fresh attestation instead.
unfoldable pub pre_registration_step : {Proof : Type 0} → Calls Proof → List ℕ → Progress → Stepped
unfolding attest_with
pre_registration_step calls command p =
    if not (contains b'r' command)
    then going p
    else if contains b'r' p.state.completed_steps
    then going (resumed p)
    else if calls.is_registered
    then attest_with calls b'r' attestation_failed request_attestation p calls.attestation
    else attest_with calls b'r' pre_registration_failed pre_register p calls.pre_registration

-- Step `R`.
unfoldable pub attestation_step : {Proof : Type 0} → Calls Proof → List ℕ → Progress → Stepped
unfolding attest_with
attestation_step calls command p =
    if not (contains b'R' command)
    then going p
    else if contains b'R' p.state.completed_steps
    then going (resumed p)
    else attest_with calls b'R' attestation_failed request_attestation p calls.attestation

unfoldable pub checked : {Proof : Type 0} → Calls Proof → Progress → Option Hash → Stepped
checked calls p none =
    stopped availability_failed p.file (p.journal ++ (availability_check p.attest_id ∷ []))
checked calls p (some id) = going (
    save calls (record p {
      state = record (p.state) {
        completed_steps = p.state.completed_steps ++ (b'a' ∷ []);
        instruction_id = id;
      };
      journal = p.journal ++ (availability_check p.attest_id ∷ []);
      instruction = id;
    }))

unfoldable pub gated : {Proof : Type 0} → Calls Proof → Progress → Option OutOfSync → Stepped
unfolding checked
gated calls p (some e) = stopped (out_of_sync e) p.file p.journal
gated calls p none = checked calls p (calls.availability p.attest_id)

-- Step `a`, behind the gate of the signing policy.
unfoldable pub availability_step :
    {Proof : Type 0} → Calls Proof → List ℕ → Hash → Progress → Stepped
unfolding gated
availability_step calls command given p =
    if not (contains b'a' command)
    then going (record p { instruction = given })
    else if contains b'a' p.state.completed_steps
    then going (record p { instruction = p.state.instruction_id })
    else gated calls p calls.consistency

unfoldable pub produced : {Proof : Type 0} → Calls Proof → Progress → Option Proof → Stepped
produced calls p none =
    stopped result_failed p.file (p.journal ++ (fetch_result p.instruction ∷ []))
produced calls p (some proof) =
    let journal = p.journal ++ (fetch_result p.instruction ∷ to_production ∷ []) in
    if calls.production proof
    then going (record p { journal = journal })
    else stopped production_failed p.file journal

-- Step `p`.
unfoldable pub production_step : {Proof : Type 0} → Calls Proof → List ℕ → Progress → Stepped
unfolding produced
production_step calls command p =
    if not (contains b'p' command)
    then going p
    else produced calls p (calls.result_of p.instruction)

-- The end: the state file is removed; the error of a removal that fails is dropped.
abbrev pub finish : {Proof : Type 0} → Calls Proof → Progress → Stepped
finish calls p = going (if calls.removes then record p { file = missing } else p)

unfoldable pub load_state : StateFile → Outcome RegisterNodeFault RegistrationState
load_state missing = ok no_state
load_state unreadable = err state_unreadable
load_state malformed = err state_malformed
load_state (saved s) = ok s

abbrev pub start : StateFile → RegistrationState → Progress
start file s = record {
  state = s;
  file = file;
  journal = [];
  attest_id = zero_hash;
  instruction = zero_hash;
}

-- The steps in order. What a call answers may depend on the calls made before.
unfoldable pub steps :
    {Proof : Type 0} → (List Call → Calls Proof) → List ℕ → Hash → Progress → Stepped
unfolding pre_registration_step attestation_step availability_step production_step
steps calls command given p = then_do (pre_registration_step (calls p.journal) command p) λ after_r.
    then_do (attestation_step (calls after_r.journal) command after_r) λ after_attest.
      then_do (availability_step (calls after_attest.journal) command given after_attest)
        λ after_check.
          then_do (production_step (calls after_check.journal) command after_check)
            λ after_p. finish (calls after_p.journal) after_p

unfoldable pub begun :
    {Proof : Type 0}
    → (List Call → Calls Proof)
    → List ℕ
    → Hash
    → StateFile
    → Outcome RegisterNodeFault RegistrationState
    → Stepped
unfolding steps
begun calls command given file (ok s) = steps calls command given (start file s)
begun calls command given file (err f) = stopped f file []
begun calls command given file panic = stopped state_malformed file []

unfoldable pub register_node :
    {Proof : Type 0} → (List Call → Calls Proof) → List ℕ → Hash → StateFile → Stepped
unfolding begun load_state
register_node calls command given file =
    if not (calls []).identified
    then stopped identity_failed file []
    else begun calls command given file (load_state file)
