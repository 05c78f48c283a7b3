-- ===== src/Agent/Registration.antt =====
-- `runRegisterModel` of go/tools/cmd/aegis/cmd_register.go, behind its flags, its proxy check and its
-- connection, without a web config.
pub mod Kept
pub mod Opened
use aegis_labs.Common.{ℕ, String, Bool, Option, Outcome, ok, err, panic, map_err}
use aegis_labs.Common.Exec.{Exec, lift, ◌>>=◌, ◌>>◌}
use aegis_labs.Common.Bytes.{Bytes, Hash}
use aegis_labs.Model.{ModelParameters}
use aegis_labs.Fdc.HexText.{encode_to_string, with_prefix}
use aegis_labs.Fdc.Feed.{RequestBody, FeedFault}
use aegis_labs.Fdc.Prepare.{Verifier, PrepareFault, prepare_request}
use aegis_labs.Payout.Decision.{ActionResponse}
use aegis_labs.Agent.Policies.{NonceFault, ModelFileFault}
use aegis_labs.Agent.Records.{
  PolicyRecord, Policies, Json, Disk, Stored, StateFault, put, save, load_state,
}
use aegis_labs.Agent.Minting.{current_policy}
use aegis_labs.Agent.Register.{
  RegisterFault, BindCalls, Binding, SealCalls, bind_trigger, seal_model,
}

pub data RunFault : Type 0 where
  model_fault : ModelFileFault → RunFault
  state_fault : StateFault → RunFault
  nonce_fault : NonceFault → RunFault
  building_request : FeedFault → RunFault
  verifier_refused : PrepareFault → RunFault
  register_fault : RegisterFault → RunFault

-- The settings of a run, and what it reaches outside.
pub record Desk (K E : Type 0) : Type 0 where
  pub policy_name : String
  pub force_new : Bool
  pub prefix : ℕ
  -- the model that `loadModel` gives, and the request of the policy's feed
  pub model : Outcome ModelFileFault ModelParameters
  pub body : Outcome FeedFault RequestBody
  pub nonce : Option Bytes
  pub now : ℕ
  pub hash_hex : Hash → String
  pub verifier : Verifier
  pub bind_calls : RequestBody → BindCalls
  pub seal_calls : SealCalls K E
  pub json : Json
  pub disk : Disk

pub record Office : Type 0 where
  pub file : Stored
  pub policies : Policies
  pub current : PolicyRecord

abbrev pub Run : Type 0 → Type 0
Run A = Exec Office RunFault A

-- A step on the record, which changes it also when it fails.
abbrev pub on_record :
    {A : Type 0} → (PolicyRecord → Outcome RegisterFault A × PolicyRecord) → Run A
on_record f s = (map_err register_fault (f s.current).0, record s { current = (f s.current).1 })

saved_office : Office → Outcome StateFault Stored → Outcome RunFault (Unit {0}) × Office
saved_office s (ok f) = (ok tt, record s { file = f; policies = put s.current s.policies })
saved_office s (err e) = (err (state_fault e), record s { policies = put s.current s.policies })
saved_office s panic = (panic, s)

module _ {K E : Type 0} (d : Desk K E) where
  unfoldable pub save_current : Run (Unit {0})
  unfolding saved_office
  save_current s = saved_office s (save d.json d.disk (put s.current s.policies))

  unfoldable pub note_request : Bytes → Run (Unit {0})
  note_request encoded s = (
    ok tt,
    record s {
      current = record s.current { abi_encoded_request = with_prefix (encode_to_string encoded) };
    },
  )

  unfoldable pub bind_current : RequestBody → Run Binding
  bind_current body = on_record (bind_trigger (d.bind_calls body))

  unfoldable pub seal_current : ModelParameters → Run ActionResponse
  seal_current model = on_record (λ r. seal_model d.seal_calls r model)

  -- The part behind the encoded request.
  unfoldable pub bind_and_seal : ModelParameters → RequestBody → Run (Unit {0})
  unfolding save_current bind_current seal_current
  bind_and_seal model body = do bind_current body; save_current; seal_current model; save_current

  unfoldable pub register_policy : ModelParameters → Run (Unit {0})
  unfolding note_request bind_and_seal
  register_policy model = do
    body ← lift (map_err building_request d.body)
    encoded ← lift (map_err verifier_refused (prepare_request d.verifier body))
    note_request encoded
    bind_and_seal model body

  closed : Outcome RunFault (Unit {0}) × Office → Outcome RunFault (Unit {0}) × Stored
  closed (outcome, s) = (outcome, s.file)

  working_on :
      ModelParameters
      → Stored
      → Policies
      → Outcome NonceFault (PolicyRecord × Bool)
      → Outcome RunFault (Unit {0}) × Stored
  unfolding closed register_policy
  working_on model file ps (err f) = (err (nonce_fault f), file)
  working_on model file ps panic = (panic, file)
  working_on model file ps (ok (r, new)) =
      closed (register_policy model (record { file = file; policies = ps; current = r }))

  with_policies :
      ModelParameters → Stored → Outcome StateFault Policies → Outcome RunFault (Unit {0}) × Stored
  unfolding working_on
  with_policies model file (err f) = (err (state_fault f), file)
  with_policies model file panic = (panic, file)
  with_policies model file (ok ps) =
      working_on model file ps
        (current_policy ps d.policy_name d.prefix d.force_new d.nonce d.now d.hash_hex)

  with_model :
      Stored → Outcome ModelFileFault ModelParameters → Outcome RunFault (Unit {0}) × Stored
  unfolding with_policies
  with_model file (err f) = (err (model_fault f), file)
  with_model file panic = (panic, file)
  with_model file (ok model) = with_policies model file (load_state d.json file)

  unfoldable pub run_register_model : Stored → Outcome RunFault (Unit {0}) × Stored
  unfolding with_model
  run_register_model file = with_model file d.model
