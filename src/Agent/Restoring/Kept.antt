-- ===== src/Agent/Restoring/Kept.antt =====
-- `runReregisterAll` of go/tools/cmd/aegis/cmd_reregister.go: a predicate that each target's turn keeps
-- holds at the end of the run, however that ends.
use aegis_labs.Common.{
  if◌then◌else◌, if_either, ◌≡◌, refl, ap, ◌∙◌, ◌++◌, length, length-append, ok_inj, Bool, ℕ, ◌+◌,
  List, [], ◌∷◌, Option, none, some, Outcome, ok, err, panic, map_err, map_err_ok, All,
}
use aegis_labs.Common.Exec.{continue_keeps, bind_keeps}
use aegis_labs.Model.{ModelParameters}
use aegis_labs.Agent.Catalog.{policy_names, is_known}
use aegis_labs.Agent.Records.{PolicyRecord, Policies, Stored, StateFault, load_state}
use aegis_labs.Agent.Restore.{Reason, restore_targets, skip_reason, check_enclave_registered}
use aegis_labs.Agent.Restoring.{
  Restorer, Restoration, RestoringFault, restore_fault, begun, loaded, load_policies, load_target,
  model_of_target, restore_for, restore_one, restore_all, restore_some, sender_bound, reregister,
  run_reregister_all,
}

abbrev Ended : Type 0
Ended = Outcome RestoringFault (Unit {0}) × Restoration

-- What two ends of a step have, the one that a test chooses has.
pub either_keeps :
    (P : Restoration → Type 0) (b : Bool) (x y : Ended) → P x.1 → P y.1 → P (if b then x else y).1
either_keeps P b x y h k = if_either (λ (z : Ended). P z.1) b h k

-- `Q` holds of the members of a list from the position `i` on.
abbrev pub AllFrom : (ℕ → PolicyRecord → Type 0) → ℕ → List PolicyRecord → Type 0
AllFrom Q i [] = Unit
AllFrom Q i (t ∷ rest) = Q i t × AllFrom Q (i + 1) rest

-- The list holds the target at the position `i`.
abbrev pub IsAt : ℕ → PolicyRecord → List PolicyRecord → Type 0
IsAt i t ts =
    (before after : List PolicyRecord) × (ts ≡ before ++ (t ∷ after)) × (length before ≡ i)

pub AllFrom-unit : (i : ℕ) (ts : List PolicyRecord) → AllFrom (λ j t. Unit {0}) i ts
AllFrom-unit i [] = tt
AllFrom-unit i (t ∷ rest) = (tt, AllFrom-unit (i + 1) rest)

pub AllFrom-All :
    (Q : PolicyRecord → Type 0) (i : ℕ) (ts : List PolicyRecord)
    → All Q ts
    → AllFrom (λ j t. Q t) i ts
AllFrom-All Q i [] h = tt
AllFrom-All Q i (t ∷ rest) h = (h.0, AllFrom-All Q (i + 1) rest h.1)

moved_over :
    (before : List PolicyRecord) (t : PolicyRecord) (rest : List PolicyRecord)
    → before ++ (t ∷ rest) ≡ (before ++ (t ∷ [])) ++ rest
moved_over [] t rest = refl
moved_over (x ∷ xs) t rest = ap (λ l. x ∷ l) (moved_over xs t rest)

AllFrom-IsAt_behind :
    (all before ts : List PolicyRecord) (i : ℕ)
    → all ≡ before ++ ts
    → length before ≡ i
    → AllFrom (λ j t. IsAt j t all) i ts
AllFrom-IsAt_behind all before [] i is at = tt
AllFrom-IsAt_behind all before (t ∷ rest) i is at = (
  (before, rest, is, at),
  AllFrom-IsAt_behind all (before ++ (t ∷ [])) rest (i + 1) (is ∙ moved_over before t rest)
      (length-append before (t ∷ []) ∙ ap (λ n. n + 1) at),
)

-- Each member of a list stands at its position.
pub AllFrom-IsAt : (ts : List PolicyRecord) → AllFrom (λ j t. IsAt j t ts) 0 ts
AllFrom-IsAt ts = AllFrom-IsAt_behind ts [] ts 0 refl refl

pub AllFrom-weaken :
    (Q R : ℕ → PolicyRecord → Type 0) (i : ℕ) (ts : List PolicyRecord)
    → ((j : ℕ) (t : PolicyRecord) → Q j t → R j t)
    → AllFrom Q i ts
    → AllFrom R i ts
AllFrom-weaken Q R i [] f h = tt
AllFrom-weaken Q R i (t ∷ rest) f h = (f i t h.0, AllFrom-weaken Q R (i + 1) rest f h.1)

module _ {K E : Type 0} (d : Restorer K E) where
  abbrev pub NotSkipped : ℕ → PolicyRecord → Type 0
  NotSkipped i t = skip_reason d.hex_to_hash (d.trigger i) (d.chain i) t ≡ ok none

  -- Skipping a target keeps `P`, and so does loading the model of a target with `Q` that is not skipped.
  pub record Keeps (Q : ℕ → PolicyRecord → Type 0) (P : Restoration → Type 0) : Type 0 where
    pub skip : (s : Restoration) → P s → P (record s { skipped = s.skipped + 1 })
    pub load :
        (i : ℕ) (t : PolicyRecord) (m : ModelParameters × Bool) (s : Restoration)
        → Q i t
        → NotSkipped i t
        → model_of_target d t ≡ ok m
        → P s
        → P (load_target d i t m.0 s).1

module _ {K E : Type 0} (d : Restorer K E) (Q : ℕ → PolicyRecord → Type 0)
    (P : Restoration → Type 0) (k : Keeps d Q P) where
  for_keeps :
      (i : ℕ) (t : PolicyRecord) (o : Option Reason) (s : Restoration)
      → Q i t
      → skip_reason d.hex_to_hash (d.trigger i) (d.chain i) t ≡ ok o
      → P s
      → P (restore_for d i t o s).1
  unfolding restore_for
  for_keeps i t (some why) s q is h = k.skip s h
  for_keeps i t none s q is h =
      continue_keeps P (map_err restore_fault (model_of_target d t)) _ s h
        (λ m loads. k.load i t m s q is (map_err_ok restore_fault _ loads) h)

  one_keeps : (i : ℕ) (t : PolicyRecord) (s : Restoration) → Q i t → P s → P (restore_one d i t s).1
  unfolding restore_one
  one_keeps i t s q h =
      continue_keeps P
        (map_err restore_fault (skip_reason d.hex_to_hash (d.trigger i) (d.chain i) t)) _ s h
        (λ o is. for_keeps i t o s q (map_err_ok restore_fault _ is) h)

  all_keeps :
      (i : ℕ) (ts : List PolicyRecord) (s : Restoration)
      → AllFrom Q i ts
      → P s
      → P (restore_all d i ts s).1
  unfolding restore_all
  all_keeps i [] s q h = h
  all_keeps i (t ∷ rest) s (q, qs) h =
      let once = one_keeps i t s q h in
      bind_keeps P (restore_one d i t) _ s once (λ u is. all_keeps (i + 1) rest _ qs once)

  some_keeps :
      (ts : List PolicyRecord) (s : Restoration) → AllFrom Q 0 ts → P s → P (restore_some d ts s).1
  unfolding restore_some
  some_keeps [] s q h = h
  some_keeps (t ∷ rest) s q h =
      continue_keeps P
        (map_err restore_fault (check_enclave_registered d.has_proxy d.machines d.enclave)) _ s h
        (λ u is. continue_keeps P (sender_bound d) _ s h (λ v bound. all_keeps 0 (t ∷ rest) s q h))

module _ {K E : Type 0} (d : Restorer K E) (Q : ℕ → PolicyRecord → Type 0)
    (P : Restoration → Type 0) (k : Keeps d Q P) (file : Stored) where
  abbrev at_start : Policies → Restoration
  at_start ps = record (begun file) { policies = ps }

  loaded_keeps :
      (s : Restoration) (o : Outcome StateFault Policies)
      → (((ps : Policies) → ¬ (o ≡ ok ps)) → P s)
      → ((ps : Policies) → o ≡ ok ps → P (record s { policies = ps }))
      → P (loaded s o).1
  unfolding loaded
  loaded_keeps s (ok ps) h start = start ps refl
  loaded_keeps s (err f) h start = h (λ ps is. cc)
  loaded_keeps s panic h start = h (λ ps is. cc)

  loaded_ok :
      (s : Restoration) (o : Outcome StateFault Policies) (ps : Policies)
      → (loaded s o).0 ≡ ok ps
      → o ≡ ok ps
  unfolding loaded
  loaded_ok s (ok qs) ps h = ap ok (ok_inj h)
  loaded_ok s (err f) ps h = absurd cc
  loaded_ok s panic ps h = absurd cc

  -- The run keeps `P` where its start has it, with or without policies, and where `Q` holds of each target at its position.
  pub run_keeps :
      (((ps : Policies) → ¬ (load_state d.json file ≡ ok ps)) → P (begun file))
      → ((ps : Policies) → load_state d.json file ≡ ok ps → P (at_start ps))
      → ((ps : Policies) (ts : List PolicyRecord)
          → load_state d.json file ≡ ok ps
          → restore_targets d.hex_to_hash ps policy_names is_known d.web ≡ ok ts
          → AllFrom Q 0 ts)
      → P (run_reregister_all d file).1
  unfolding run_reregister_all reregister load_policies
  run_keeps first start good =
      let kept = loaded_keeps (begun file) (load_state d.json file) first start in
      bind_keeps P (load_policies d) _ (begun file) kept (λ ps is.
        let read = loaded_ok (begun file) (load_state d.json file) ps is in
        continue_keeps P
          (map_err restore_fault (restore_targets d.hex_to_hash ps policy_names is_known d.web)) _ _
          kept
          (λ ts found.
            some_keeps d Q P k ts _ (good ps ts read (map_err_ok restore_fault _ found)) kept))
