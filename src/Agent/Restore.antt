-- ===== src/Agent/Restore.antt =====
-- go/tools/cmd/aegis/cmd_reregister.go: `restoreTargets`, `skipReason`, `modelFor` and
-- `checkEnclaveRegistered`. The chain, the proxy and the files are arguments.
pub mod Targets
pub mod Skipped
pub mod Genuine
use aegis_labs.Common.{
  ◌>>=◌, ℕ, String, Bool, true, false, not, ◌&&◌, ◌||◌, Option, none, some, List, [], ◌∷◌, ◌++◌,
  if◌then◌else◌, Outcome, ok, err, panic, map_err,
}
use aegis_labs.Common.Bytes.{Bytes, Hash, Address, zero_hash, bytes_eq}
use aegis_labs.Model.{ModelParameters}
use aegis_labs.Validate.Text.{is_empty}
use aegis_labs.Agent.Policies.{demo_model, load_model, ModelFileFault}
use aegis_labs.Agent.Records.{PolicyRecord, Policies, get}
use aegis_labs.Agent.Minting.{fresh}
use aegis_labs.Payout.Settle.{Chain, SettleFault, settlement_of, Record}

-- An entry of the web demo's file, as far as it is read.
pub record WebPolicy : Type 0 where
  pub name : String
  pub policy_id : String
  pub created_at : ℕ

abbrev pub from_web : WebPolicy → PolicyRecord
from_web entry = record (fresh entry.name [] entry.created_at (λ h. "")) {
  policy_id = entry.policy_id;
}

pub data RestoreFault : Type 0 where
  reading_web reading_trigger : RestoreFault
  reading_settlement : SettleFault → RestoreFault
  model_file : ModelFileFault → RestoreFault
  fetching_enclave deriving_id reading_machines : RestoreFault
  not_active : Address → RestoreFault

-- Why a policy needs no model.
pub data Reason : Type 0 where
  not_bound : Reason
  bound_elsewhere : Hash → Reason
  settled_already : Reason

unless_settled : Outcome SettleFault Record → Outcome RestoreFault (Option Reason)
unless_settled (err f) = err (reading_settlement f)
unless_settled panic = panic
unless_settled (ok r) = ok (if r.settled then some settled_already else none)

module _ (hex_to_hash : String → Hash) where
  -- `seen[id]`: the ids of the targets collected so far.
  unfoldable pub seen : Hash → List PolicyRecord → Bool
  seen id [] = false
  seen id (r ∷ rest) = bytes_eq (hex_to_hash r.policy_id) id || seen id rest

  unfoldable pub add_target : List PolicyRecord → PolicyRecord → List PolicyRecord
  add_target targets r =
      if seen (hex_to_hash r.policy_id) targets then targets else targets ++ (r ∷ [])

  add_found : List PolicyRecord → Option PolicyRecord → List PolicyRecord
  unfolding add_target
  add_found targets none = targets
  add_found targets (some r) = add_target targets r

  unfoldable pub add_named : Policies → List String → List PolicyRecord → List PolicyRecord
  unfolding add_found
  add_named ps [] targets = targets
  add_named ps (name ∷ rest) targets = add_named ps rest (add_found targets (get name ps))

  -- The entries from the last one to the first, without those of an unknown name.
  unfoldable pub add_web : (String → Bool) → List WebPolicy → List PolicyRecord → List PolicyRecord
  unfolding add_target
  add_web known [] targets = targets
  add_web known (entry ∷ later) targets =
      let behind = add_web known later targets in
      if known entry.name then add_target behind (from_web entry) else behind

  -- The web demo's file: none where no path is given, or what reading it gives.
  unfoldable pub restore_targets :
      Policies
      → List String
      → (String → Bool)
      → Option (Option (List WebPolicy))
      → Outcome RestoreFault (List PolicyRecord)
  unfolding add_named add_web
  restore_targets ps names known none = ok (add_named ps names [])
  restore_targets ps names known (some none) = err reading_web
  restore_targets ps names known (some (some web)) = ok (add_web known web (add_named ps names []))

  unless_bound : Chain → PolicyRecord → Option Hash → Outcome RestoreFault (Option Reason)
  unfolding unless_settled
  unless_bound chain r none = err reading_trigger
  unless_bound chain r (some bound) =
      if bytes_eq bound zero_hash
      then ok (some not_bound)
      else if not (is_empty r.request_hash) && not (bytes_eq bound (hex_to_hash r.request_hash))
      then ok (some (bound_elsewhere bound))
      else unless_settled (settlement_of chain (hex_to_hash r.policy_id))

  -- `trigger` reads the binding of a policy; no reason is a policy to restore.
  unfoldable pub skip_reason :
      (Hash → Option Hash) → Chain → PolicyRecord → Outcome RestoreFault (Option Reason)
  unfolding unless_bound
  skip_reason trigger chain r = unless_bound chain r (trigger (hex_to_hash r.policy_id))

-- The parameters of a policy, and whether they are a file's; `exists` stats a path.
unfoldable pub model_for :
    (String → String → String)
    → (String → Bool)
    → (String → Option Bytes)
    → (Bytes → Option ModelParameters)
    → String
    → String
    → Outcome RestoreFault (ModelParameters × Bool)
model_for path exists read_file unmarshal dir name =
    if not (exists (path dir name))
    then ok (demo_model, false)
    else (do m ← map_err model_file (load_model read_file unmarshal (path dir name)); ok (m, true))

unfoldable pub is_among : Address → List Address → Bool
is_among tee [] = false
is_among tee (id ∷ rest) = bytes_eq id tee || is_among tee rest

among_active : Address → Option (List Address) → Outcome RestoreFault (Unit {0})
unfolding is_among
among_active tee none = err reading_machines
among_active tee (some active) = if is_among tee active then ok tt else err (not_active tee)

enclave_active : Option (List Address) → Option Address → Outcome RestoreFault (Unit {0})
unfolding among_active
enclave_active machines none = err deriving_id
enclave_active machines (some tee) = among_active tee machines

fetched_enclave : Option (List Address) → Option (Option Address) → Outcome RestoreFault (Unit {0})
unfolding enclave_active
fetched_enclave machines none = err fetching_enclave
fetched_enclave machines (some derived) = enclave_active machines derived

-- The proxy's enclave, where there is a proxy: the information, and the id derived from it. `machines` are the
-- active ones of its extension.
unfoldable pub check_enclave_registered :
    Bool → Option (List Address) → Option (Option Address) → Outcome RestoreFault (Unit {0})
unfolding fetched_enclave
check_enclave_registered has_proxy machines info =
    if has_proxy then fetched_enclave machines info else ok tt
