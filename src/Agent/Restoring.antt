-- ===== src/Agent/Restoring.antt =====
-- `runReregisterAll` of go/tools/cmd/aegis/cmd_reregister.go, behind its flags, its proxy and its
-- connection. The records are values: on a file whose records carry the names under which they are
-- stored this is what the source's pointers come to. The two counts that the enclave is asked for are only printed.
pub mod Kept
pub mod Dry
pub mod Owned
pub mod Sealing
use aegis_labs.Common.{
  ℕ, ◌+◌, String, Bool, true, false, Option, none, some, List, [], ◌∷◌, if◌then◌else◌, Outcome, ok,
  err, panic, map_err, str_eq,
}
use aegis_labs.Common.Exec.{Exec, lift, ◌>>=◌, ◌>>◌}
use aegis_labs.Common.Bytes.{Bytes, Hash, Address}
use aegis_labs.Model.{ModelParameters}
use aegis_labs.Payout.Decision.{ActionResponse}
use aegis_labs.Payout.Settle.{Chain}
use aegis_labs.Agent.Catalog.{policy_names, is_known}
use aegis_labs.Agent.Records.{
  PolicyRecord, Policies, Json, Disk, Stored, StateFault, get, put, save, load_state,
}
use aegis_labs.Agent.Register.{RegisterFault, SealCalls, seal_model}
use aegis_labs.Agent.Restore.{
  WebPolicy, RestoreFault, Reason, restore_targets, skip_reason, model_for,
  check_enclave_registered,
}

pub data RestoringFault : Type 0 where
  state_fault : StateFault → RestoringFault
  restore_fault : RestoreFault → RestoringFault
  binding_sender : RestoringFault
  register_fault : RegisterFault → RestoringFault

-- The settings of a run and what it reaches; what the chain and the enclave answer may change from
-- one target to the next, so it depends on the target's position.
pub record Restorer (K E : Type 0) : Type 0 where
  pub dry_run : Bool
  pub hex_to_hash : String → Hash
  -- the file of the web demo; `none` where the flag is empty
  pub web : Option (Option (List WebPolicy))
  pub has_proxy : Bool
  pub machines : Option (List Address)
  pub enclave : Option (Option Address)
  pub binds_sender : Bool
  pub trigger : ℕ → Hash → Option Hash
  pub chain : ℕ → Chain
  pub models_dir : String
  pub path : String → String → String
  pub exists : String → Bool
  pub read_file : String → Option Bytes
  pub unmarshal : Bytes → Option ModelParameters
  pub seal_calls : ℕ → SealCalls K E
  pub json : Json
  pub disk : Disk

-- The state file, the policies in memory, the two counts, and each target for which a model was to
-- be sealed, with that model.
pub record Restoration : Type 0 where
  pub file : Stored
  pub policies : Policies
  pub restored : ℕ
  pub skipped : ℕ
  pub sealed : List (PolicyRecord × ModelParameters)

abbrev pub Run : Type 0 → Type 0
Run A = Exec Restoration RestoringFault A

abbrev pub begun : Stored → Restoration
begun file = record { file = file; policies = []; restored = 0; skipped = 0; sealed = [] }

loaded : Restoration → Outcome StateFault Policies → Outcome RestoringFault Policies × Restoration
loaded s (ok ps) = (ok ps, record s { policies = ps })
loaded s (err f) = (err (state_fault f), s)
loaded s panic = (panic, s)

-- The target after its model was sealed.
sealed_as :
    Outcome RegisterFault ActionResponse × PolicyRecord → Outcome RestoringFault PolicyRecord
sealed_as (ok a, r) = ok r
sealed_as (err f, r) = err (register_fault f)
sealed_as (panic, r) = panic

-- `existing != nil && existing.PolicyID == target.PolicyID`
owns : Option PolicyRecord → PolicyRecord → Bool
owns none r = false
owns (some existing) r = str_eq existing.policy_id r.policy_id

written :
    Restoration
    → PolicyRecord
    → Outcome StateFault Stored
    → Outcome RestoringFault (Unit {0}) × Restoration
written s r (ok f) = (ok tt, record s { file = f; policies = put r s.policies })
written s r (err e) = (err (state_fault e), record s { policies = put r s.policies })
written s r panic = (panic, s)

module _ {K E : Type 0} (d : Restorer K E) where
  unfoldable pub load_policies : Run Policies
  unfolding loaded
  load_policies s = loaded s (load_state d.json s.file)

  unfoldable pub count_restored : Run (Unit {0})
  count_restored s = (ok tt, record s { restored = s.restored + 1 })

  unfoldable pub seal_target : ℕ → PolicyRecord → ModelParameters → Run PolicyRecord
  unfolding sealed_as
  seal_target i target model s = (
    sealed_as (seal_model (d.seal_calls i) target model),
    record s { sealed = (target, model) ∷ s.sealed },
  )

  -- Only a record that the file already holds under this id is written back.
  unfoldable pub save_owned : PolicyRecord → Run (Unit {0})
  unfolding owns written
  save_owned r s =
      if owns (get r.name s.policies) r
      then written s r (save d.json d.disk (put r s.policies))
      else (ok tt, s)

  seal_and_save : ℕ → PolicyRecord → ModelParameters → Run (Unit {0})
  unfolding seal_target save_owned count_restored
  seal_and_save i target model = do r ← seal_target i target model; count_restored; save_owned r

  unfoldable pub load_target : ℕ → PolicyRecord → ModelParameters → Run (Unit {0})
  unfolding count_restored seal_and_save
  load_target i target model s =
      if d.dry_run then count_restored s else seal_and_save i target model s

  unfoldable pub model_of_target : PolicyRecord → Outcome RestoreFault (ModelParameters × Bool)
  model_of_target target =
      model_for d.path d.exists d.read_file d.unmarshal d.models_dir target.name

  restore_for : ℕ → PolicyRecord → Option Reason → Run (Unit {0})
  unfolding load_target model_of_target
  restore_for i target (some why) s = (ok tt, record s { skipped = s.skipped + 1 })
  restore_for i target none s =
      (lift (map_err restore_fault (model_of_target target)) >>= λ m. load_target i target m.0) s

  -- The body of the loop, for the target at position `i`.
  unfoldable pub restore_one : ℕ → PolicyRecord → Run (Unit {0})
  unfolding restore_for
  restore_one i target = do
    reason ←
        lift (map_err restore_fault (skip_reason d.hex_to_hash (d.trigger i) (d.chain i) target))
    restore_for i target reason

  unfoldable pub restore_all : ℕ → List PolicyRecord → Run (Unit {0})
  unfolding restore_one
  restore_all i [] s = (ok tt, s)
  restore_all i (target ∷ rest) s = (restore_one i target >>= λ _. restore_all (i + 1) rest) s

  sender_bound : Outcome RestoringFault (Unit {0})
  sender_bound = if d.binds_sender then ok tt else err binding_sender

  -- The guards in front of the loop, where there is a target.
  restore_some : List PolicyRecord → Run (Unit {0})
  unfolding restore_all sender_bound
  restore_some [] = lift (ok tt)
  restore_some (target ∷ rest) = do
    lift (map_err restore_fault (check_enclave_registered d.has_proxy d.machines d.enclave))
    lift sender_bound
    restore_all 0 (target ∷ rest)

  unfoldable pub reregister : Run (Unit {0})
  unfolding load_policies restore_some
  reregister = do
    ps ← load_policies
    targets ←
        lift (map_err restore_fault (restore_targets d.hex_to_hash ps policy_names is_known d.web))
    restore_some targets

  unfoldable pub run_reregister_all : Stored → Outcome RestoringFault (Unit {0}) × Restoration
  unfolding reregister
  run_reregister_all file = reregister (begun file)
