-- ===== src/Agent/Restore/Genuine.antt =====
-- `restoreTargets` of go/tools/cmd/aegis/cmd_reregister.go: which of its targets are the operator's own.
use aegis_labs.Common.{
  String, ◌≡◌, refl, ◌∙◌, ap, sym, Bool, true, false, Option, none, some, List, [], ◌∷◌, Bool-cases,
  inl, inr, ok, ok_inj, All, All-append,
}
use aegis_labs.Common.Bytes.{Hash}
use aegis_labs.Agent.Records.{PolicyRecord, Policies, get}
use aegis_labs.Agent.Restore.{
  WebPolicy, from_web, seen, add_target, add_found, add_named, add_web, restore_targets,
}
use aegis_labs.Agent.Restore.Targets.{named_seen, still_web}

-- A target that has the name and the id of a record of the operator is that record.
abbrev pub IsGenuine : Policies → PolicyRecord → Type 0
IsGenuine ps t = (e : PolicyRecord) → get t.name ps ≡ some e → e.policy_id ≡ t.policy_id → t ≡ e

module _ (hex_to_hash : String → Hash) (ps : Policies) where
  abbrev Own : List PolicyRecord → Type 0
  Own = All (IsGenuine ps)

  add_target-Own :
      (xs : List PolicyRecord) (r : PolicyRecord)
      → Own xs
      → (seen hex_to_hash (hex_to_hash r.policy_id) xs ≡ false → IsGenuine ps r)
      → Own (add_target hex_to_hash xs r)
  unfolding add_target
  add_target-Own xs r h g = elim (Bool-cases (seen hex_to_hash (hex_to_hash r.policy_id) xs)) [
    | inl e ↦ rw e h
    | inr e ↦ rw e (All-append (IsGenuine ps) xs (r ∷ []) h (g e, tt))
  ]

  module _ (keyed : (name : String) (r : PolicyRecord) → get name ps ≡ some r → r.name ≡ name) where
    found-Own :
        (xs : List PolicyRecord) (name : String) (o : Option PolicyRecord)
        → get name ps ≡ o
        → Own xs
        → Own (add_found hex_to_hash xs o)
    unfolding add_found
    found-Own xs name none is h = h
    found-Own xs name (some r) is h = add_target-Own xs r h (λ new e held same. is_held e held)
      where
        is_held : (e : PolicyRecord) → get r.name ps ≡ some e → r ≡ e
        is_held e held =
            let named : r.name ≡ name = keyed name r is in
            let at_name : get name ps ≡ some e = ap (λ n. get n ps) (sym named) ∙ held in
            let both : some r ≡ some e = sym is ∙ at_name in cc

    add_named-Own :
        (names : List String) (xs : List PolicyRecord)
        → Own xs
        → Own (add_named hex_to_hash ps names xs)
    unfolding add_named
    add_named-Own [] xs h = h
    add_named-Own (name ∷ rest) xs h = add_named-Own rest _ (found-Own xs name (get name ps) refl h)

    module _ (known : String → Bool) (names : List String)
        (listed : (P : String → Type 0) (name : String)
          → known name ≡ true
          → All P names
          → P name) where
      abbrev named : List PolicyRecord
      named = add_named hex_to_hash ps names []

      -- An entry of the web demo with the id of a record of the operator finds that id collected.
      entry_own :
          (later : List WebPolicy) (entry : WebPolicy)
          → known entry.name ≡ true
          → seen hex_to_hash (hex_to_hash entry.policy_id) (add_web hex_to_hash known later named)
            ≡ false
          → IsGenuine ps (from_web entry)
      entry_own later entry is_known new e held same =
          let found =
            listed
              (λ name.
                (r : PolicyRecord)
                → get name ps ≡ some r
                → seen hex_to_hash (hex_to_hash r.policy_id) named ≡ true)
              entry.name is_known (named_seen hex_to_hash ps names []) e held in
          let still = still_web hex_to_hash (hex_to_hash e.policy_id) known later named found in
          let clash : true ≡ false =
            sym still
            ∙ ap (λ id. seen hex_to_hash (hex_to_hash id) (add_web hex_to_hash known later named))
                same
            ∙ new in
          cc

      add_web-Own : (web : List WebPolicy) → Own (add_web hex_to_hash known web named)
      unfolding add_web
      add_web-Own [] = add_named-Own names [] tt
      add_web-Own (entry ∷ later) = elim (Bool-cases (known entry.name)) [
        | inl e ↦
            rw e (add_target-Own _ (from_web entry) (add_web-Own later) (entry_own later entry e))
        | inr e ↦ rw e (add_web-Own later)
      ]

      pub restore_targets-IsGenuine :
          (web : Option (Option (List WebPolicy))) (targets : List PolicyRecord)
          → restore_targets hex_to_hash ps names known web ≡ ok targets
          → All (IsGenuine ps) targets
      unfolding restore_targets
      restore_targets-IsGenuine none targets h = rw⁻¹ (ok_inj h) (add_named-Own names [] tt)
      restore_targets-IsGenuine (some none) targets h = absurd cc
      restore_targets-IsGenuine (some (some web)) targets h = rw⁻¹ (ok_inj h) (add_web-Own web)
