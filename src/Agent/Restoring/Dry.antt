-- ===== src/Agent/Restoring/Dry.antt =====
-- `runReregisterAll` of go/tools/cmd/aegis/cmd_reregister.go with --dry-run: what it leaves alone.
use aegis_labs.Common.{◌≡◌, refl, ℕ, true, []}
use aegis_labs.Model.{ModelParameters}
use aegis_labs.Agent.Records.{PolicyRecord, Stored}
use aegis_labs.Agent.Restoring.{Restorer, Restoration, load_target, run_reregister_all}
use aegis_labs.Agent.Restoring.Kept.{AllFrom-unit, Keeps, run_keeps}

module _ {K E : Type 0} (d : Restorer K E) (dry : d.dry_run ≡ true) (file : Stored) where
  -- The state file is as it was and nothing was sealed.
  abbrev Quiet : Restoration → Type 0
  Quiet s = (s.file ≡ file) × (s.sealed ≡ [])

  target-Quiet :
      (i : ℕ) (t : PolicyRecord) (m : ModelParameters) (s : Restoration)
      → Quiet s
      → Quiet (load_target d i t m s).1
  unfolding load_target
  target-Quiet i t m s h = rw dry h

  Quiet-kept : Keeps d (λ i t. Unit {0}) Quiet
  Quiet-kept = record { skip = λ s h. h; load = λ i t m s q free given h. target-Quiet i t m.0 s h }

  -- A dry run, however it ends, leaves the state file as it was and seals no model.
  pub run_reregister_all-dry :
      ((run_reregister_all d file).1.file ≡ file) × ((run_reregister_all d file).1.sealed ≡ [])
  run_reregister_all-dry =
      run_keeps d (λ i t. Unit {0}) Quiet Quiet-kept file (λ failed. (refl, refl))
        (λ ps read. (refl, refl)) (λ ps ts read found. AllFrom-unit 0 ts)
