-- ===== src/Agent/Restore/Targets.antt =====
-- `restoreTargets` of go/tools/cmd/aegis/cmd_reregister.go: which policies it collects.
use aegis_labs.Common.{
  String, ◌≡◌, refl, ◌∙◌, Bool, true, false, ◌||◌, Option, none, some, List, [], ◌∷◌, ◌++◌, ok,
  Bool-cases, inl, inr, arith, ok_inj, All, All-weaken,
}
use aegis_labs.Common.Bytes.{Hash, bytes_eq, bytes_eq_refl, bytes_eq_comm}
use aegis_labs.Agent.Records.{PolicyRecord, Policies, get}
use aegis_labs.Agent.Restore.{
  WebPolicy, from_web, seen, add_target, add_found, add_named, add_web, restore_targets,
}

module _ (hex_to_hash : String → Hash) where
  -- No two of the records have one id.
  abbrev pub HasDistinctIds : List PolicyRecord → Type 0
  HasDistinctIds [] = Unit {0}
  HasDistinctIds (r ∷ rest) =
      (seen hex_to_hash (hex_to_hash r.policy_id) rest ≡ false) × HasDistinctIds rest

  seen-append :
      (id : Hash) (xs ys : List PolicyRecord)
      → seen hex_to_hash id (xs ++ ys) ≡ (seen hex_to_hash id xs || seen hex_to_hash id ys)
  unfolding seen
  seen-append id [] ys = refl
  seen-append id (x ∷ xs) ys = elim (Bool-cases (bytes_eq (hex_to_hash x.policy_id) id)) [
    | inl e ↦ rw e refl
    | inr e ↦ rw e (seen-append id xs ys)
  ]

  append_distinct :
      (xs : List PolicyRecord) (r : PolicyRecord)
      → HasDistinctIds xs
      → seen hex_to_hash (hex_to_hash r.policy_id) xs ≡ false
      → HasDistinctIds (xs ++ (r ∷ []))
  unfolding seen
  append_distinct [] r h new = (refl, tt)
  append_distinct (x ∷ xs) r (fresh, rest) new =
      let other : bytes_eq (hex_to_hash x.policy_id) (hex_to_hash r.policy_id) ≡ false =
        ground arith in
      let others : seen hex_to_hash (hex_to_hash r.policy_id) xs ≡ false = ground arith in
      (
        seen-append (hex_to_hash x.policy_id) xs (r ∷ [])
            ∙ rw (fresh, bytes_eq_comm (hex_to_hash r.policy_id) (hex_to_hash x.policy_id), other)
                refl,
        append_distinct xs r rest others,
      )

  add_target-HasDistinctIds :
      (xs : List PolicyRecord) (r : PolicyRecord)
      → HasDistinctIds xs
      → HasDistinctIds (add_target hex_to_hash xs r)
  unfolding add_target
  add_target-HasDistinctIds xs r h =
      elim (Bool-cases (seen hex_to_hash (hex_to_hash r.policy_id) xs)) [
        | inl e ↦ rw e h
        | inr e ↦ rw e (append_distinct xs r h e)
      ]

  found_distinct :
      (xs : List PolicyRecord) (o : Option PolicyRecord)
      → HasDistinctIds xs
      → HasDistinctIds (add_found hex_to_hash xs o)
  unfolding add_found
  found_distinct xs none h = h
  found_distinct xs (some r) h = add_target-HasDistinctIds xs r h

  add_named-HasDistinctIds :
      (ps : Policies) (names : List String) (xs : List PolicyRecord)
      → HasDistinctIds xs
      → HasDistinctIds (add_named hex_to_hash ps names xs)
  unfolding add_named
  add_named-HasDistinctIds ps [] xs h = h
  add_named-HasDistinctIds ps (name ∷ rest) xs h =
      add_named-HasDistinctIds ps rest _ (found_distinct xs (get name ps) h)

  add_web-HasDistinctIds :
      (known : String → Bool) (web : List WebPolicy) (xs : List PolicyRecord)
      → HasDistinctIds xs
      → HasDistinctIds (add_web hex_to_hash known web xs)
  unfolding add_web
  add_web-HasDistinctIds known [] xs h = h
  add_web-HasDistinctIds known (e ∷ later) xs h =
      let behind = add_web-HasDistinctIds known later xs h in
      elim (Bool-cases (known e.name)) [
        | inl listed ↦ rw listed (add_target-HasDistinctIds _ (from_web e) behind)
        | inr unlisted ↦ rw unlisted behind
      ]

  -- What was collected stays collected, and a record that is added is there by its id.
  still_seen :
      (id : Hash) (xs : List PolicyRecord) (r : PolicyRecord)
      → seen hex_to_hash id xs ≡ true
      → seen hex_to_hash id (add_target hex_to_hash xs r) ≡ true
  unfolding add_target
  still_seen id xs r h = elim (Bool-cases (seen hex_to_hash (hex_to_hash r.policy_id) xs)) [
    | inl e ↦ rw e h
    | inr e ↦ rw e (seen-append id xs (r ∷ []) ∙ rw h refl)
  ]

  now_seen :
      (xs : List PolicyRecord) (r : PolicyRecord)
      → seen hex_to_hash (hex_to_hash r.policy_id) (add_target hex_to_hash xs r) ≡ true
  unfolding add_target seen
  now_seen xs r = elim (Bool-cases (seen hex_to_hash (hex_to_hash r.policy_id) xs)) [
    | inl e ↦ rw e e
    | inr e ↦ rw e (
        seen-append (hex_to_hash r.policy_id) xs (r ∷ [])
        ∙ rw (e, bytes_eq_refl (hex_to_hash r.policy_id)) refl)
  ]

  still_found :
      (id : Hash) (xs : List PolicyRecord) (o : Option PolicyRecord)
      → seen hex_to_hash id xs ≡ true
      → seen hex_to_hash id (add_found hex_to_hash xs o) ≡ true
  unfolding add_found
  still_found id xs none h = h
  still_found id xs (some r) h = still_seen id xs r h

  still_named :
      (id : Hash) (ps : Policies) (names : List String) (xs : List PolicyRecord)
      → seen hex_to_hash id xs ≡ true
      → seen hex_to_hash id (add_named hex_to_hash ps names xs) ≡ true
  unfolding add_named
  still_named id ps [] xs h = h
  still_named id ps (name ∷ rest) xs h =
      still_named id ps rest _ (still_found id xs (get name ps) h)

  pub still_web :
      (id : Hash) (known : String → Bool) (web : List WebPolicy) (xs : List PolicyRecord)
      → seen hex_to_hash id xs ≡ true
      → seen hex_to_hash id (add_web hex_to_hash known web xs) ≡ true
  unfolding add_web
  still_web id known [] xs h = h
  still_web id known (e ∷ later) xs h = elim (Bool-cases (known e.name)) [
    | inl listed ↦ rw listed (still_seen id _ (from_web e) (still_web id known later xs h))
    | inr unlisted ↦ rw unlisted (still_web id known later xs h)
  ]

  found_seen :
      (xs : List PolicyRecord) (o : Option PolicyRecord) (r : PolicyRecord)
      → o ≡ some r
      → seen hex_to_hash (hex_to_hash r.policy_id) (add_found hex_to_hash xs o) ≡ true
  unfolding add_found
  found_seen xs o r is = rw is (now_seen xs r)

  pub named_seen :
      (ps : Policies) (names : List String) (xs : List PolicyRecord)
      → All
          (λ name.
            (r : PolicyRecord)
            → get name ps ≡ some r
            → seen hex_to_hash (hex_to_hash r.policy_id) (add_named hex_to_hash ps names xs) ≡ true)
          names
  unfolding add_named
  named_seen ps [] xs = tt
  named_seen ps (name ∷ rest) xs = (
    λ r held. still_named (hex_to_hash r.policy_id) ps rest _ (found_seen xs (get name ps) r held),
    named_seen ps rest (add_found hex_to_hash xs (get name ps)),
  )

  -- Each target's id is collected once, and the record of every name that the operator has one of
  -- is among the targets, by its id.
  pub restore_targets_ok :
      (ps : Policies) (names : List String) (known : String → Bool)
      (web : Option (Option (List WebPolicy))) (targets : List PolicyRecord)
      → restore_targets hex_to_hash ps names known web ≡ ok targets
      → HasDistinctIds targets
        × All
            (λ name.
              (r : PolicyRecord)
              → get name ps ≡ some r
              → seen hex_to_hash (hex_to_hash r.policy_id) targets ≡ true)
            names
  unfolding restore_targets
  restore_targets_ok ps names known none targets h =
      rw⁻¹ (ok_inj h) (add_named-HasDistinctIds ps names [] tt, named_seen ps names [])
  restore_targets_ok ps names known (some none) targets h = absurd cc
  restore_targets_ok ps names known (some (some web)) targets h = rw⁻¹ (ok_inj h) (
    add_web-HasDistinctIds known web _ (add_named-HasDistinctIds ps names [] tt),
    All-weaken names
        (λ name found r held. still_web (hex_to_hash r.policy_id) known web _ (found r held))
        (named_seen ps names []),
  )
