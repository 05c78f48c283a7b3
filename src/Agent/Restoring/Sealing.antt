-- ===== src/Agent/Restoring/Sealing.antt =====
-- `runReregisterAll` of go/tools/cmd/aegis/cmd_reregister.go: for which policies it seals which models.
use aegis_labs.Common.{
  ◌≡◌, ◌≢◌, ℕ, Bool, true, false, some, List, ◌⊎◌, All, Outcome, ok, err, panic,
}
use aegis_labs.Common.Exec.{bind_keeps}
use aegis_labs.Common.Bytes.{Hash, zero_hash}
use aegis_labs.Model.{ModelParameters}
use aegis_labs.Payout.Settle.{Record, settlement_of}
use aegis_labs.Agent.Records.{
  PolicyRecord, Policies, Stored, StateFault, load_state, save, put, get,
}
use aegis_labs.Validate.Text.{is_empty}
use aegis_labs.Agent.Catalog.{policy_names, is_known}
use aegis_labs.Agent.Restore.{restore_targets}
use aegis_labs.Agent.Restore.Skipped.{skip_reason-none}
use aegis_labs.Agent.Restoring.{
  Restorer, Restoration, load_target, seal_and_save, seal_target, count_restored, save_owned,
  written, owns, model_of_target, run_reregister_all,
}
use aegis_labs.Agent.Restoring.Kept.{
  IsAt, AllFrom-IsAt, AllFrom-weaken, either_keeps, NotSkipped, run_keeps,
}

module _ {K E : Type 0} (d : Restorer K E) (file : Stored) where
  -- The target has the position `i` among those that the run finds.
  abbrev pub IsTarget : ℕ → PolicyRecord → Type 0
  IsTarget i t =
      (ps : Policies) × (ts : List PolicyRecord) × (load_state d.json file ≡ ok ps)
      × (restore_targets d.hex_to_hash ps policy_names is_known d.web ≡ ok ts)
      × IsAt i t ts

  -- The model is the one that `modelFor` gives the target, and when its turn came, by its position among the
  -- targets, it was bound on-chain, to the request of its record where the record has one, and not settled there.
  abbrev pub IsRestorable : PolicyRecord × ModelParameters → Type 0
  IsRestorable (t, m) =
      (from_file : Bool) × (i : ℕ) × (bound : Hash) × (on_chain : Record) × IsTarget i t
      × (model_of_target d t ≡ ok (m, from_file))
      × (d.trigger i (d.hex_to_hash t.policy_id) ≡ some bound)
      × (bound ≢ zero_hash)
      × ((is_empty t.request_hash ≡ true) ⊎ (bound ≡ d.hex_to_hash t.request_hash))
      × (settlement_of (d.chain i) (d.hex_to_hash t.policy_id) ≡ ok on_chain)
      × (on_chain.settled ≡ false)

  abbrev Good : Restoration → Type 0
  Good s = All IsRestorable s.sealed

  restorable :
      (i : ℕ) (t : PolicyRecord) (m : ModelParameters × Bool)
      → IsTarget i t
      → NotSkipped d i t
      → model_of_target d t ≡ ok m
      → IsRestorable (t, m.0)
  restorable i t m target free given =
      let (bound, on_chain, read, nonzero, matches, answered, unsettled) =
        skip_reason-none d.hex_to_hash (d.trigger i) (d.chain i) t free in
      (m.1, i, bound, on_chain, target, given, read, nonzero, matches, answered, unsettled)

  written-Good :
      (s : Restoration) (r : PolicyRecord) (o : Outcome StateFault Stored)
      → Good s
      → Good (written s r o).1
  unfolding written
  written-Good s r (ok f) h = h
  written-Good s r (err f) h = h
  written-Good s r panic h = h

  save_owned-Good : (s : Restoration) (r : PolicyRecord) → Good s → Good (save_owned d r s).1
  unfolding save_owned
  save_owned-Good s r h =
      either_keeps Good (owns (get r.name s.policies) r) _ _
        (written-Good s r (save d.json d.disk (put r s.policies)) h) h

  seal-Good :
      (i : ℕ) (t : PolicyRecord) (m : ModelParameters) (s : Restoration)
      → IsRestorable (t, m)
      → Good s
      → Good (seal_and_save d i t m s).1
  unfolding seal_and_save seal_target count_restored
  seal-Good i t m s good h =
      bind_keeps Good (seal_target d i t m) _ s (good, h) (λ r is. save_owned-Good _ r (good, h))

  load-Good :
      (i : ℕ) (t : PolicyRecord) (m : ModelParameters) (s : Restoration)
      → IsRestorable (t, m)
      → Good s
      → Good (load_target d i t m s).1
  unfolding load_target count_restored
  load-Good i t m s good h = either_keeps Good d.dry_run _ _ h (seal-Good i t m s good h)

  -- However a run ends, every model that it seals is the one that `modelFor` gives a target of the run, and by
  -- what the chain answered at that target's turn it was bound, to the request of its record where the
  -- record has one, and not settled.
  pub run_reregister_all-IsRestorable : All IsRestorable (run_reregister_all d file).1.sealed
  run_reregister_all-IsRestorable =
      run_keeps d IsTarget Good
        (record {
          skip = λ s h. h;
          load = λ i t m s q free given h. load-Good i t m.0 s (restorable i t m q free given) h;
        })
        file (λ failed. tt) (λ ps read. tt)
        (λ ps ts read found.
          AllFrom-weaken (λ i t. IsAt i t ts) IsTarget 0 ts (λ i t is. (ps, ts, read, found, is))
            (AllFrom-IsAt ts))
