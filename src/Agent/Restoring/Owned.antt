-- ===== src/Agent/Restoring/Owned.antt =====
-- `runReregisterAll` of go/tools/cmd/aegis/cmd_reregister.go: what it leaves of the operator's records.
use mathlib.Core.Path.{subst}
use aegis_labs.Common.{
  ◌≡◌, refl, ap, sym, ◌∙◌, ◌⊎◌, inl, inr, String, true, Option, none, some, All, Bool-cases,
  Option-cases, Outcome, ok, err, panic, ok_inj, str_eq, str_eq_iff, arith, ℕ,
}
use aegis_labs.Common.Exec.{bind_keeps}
use aegis_labs.Model.{ModelParameters}
use aegis_labs.Agent.Catalog.{policy_names, is_known, template_in}
use aegis_labs.Agent.Records.{
  PolicyRecord, Policies, Stored, StateFault, JsonLaws, get, put, get-put, get-put_other, save,
  load_state, loads-save,
}
use aegis_labs.Agent.Register.{seal_model, RegisterFault}
use aegis_labs.Payout.Decision.{ActionResponse}
use aegis_labs.Agent.Register.Kept.{Kept, seal_model-Kept}
use aegis_labs.Agent.Restore.Genuine.{IsGenuine, restore_targets-IsGenuine}
use aegis_labs.Agent.Restore.{restore_targets}
use aegis_labs.Agent.Restoring.{
  Restorer, Restoration, load_target, seal_and_save, seal_target, sealed_as, count_restored,
  save_owned, written, owns, run_reregister_all,
}
use aegis_labs.Agent.Restoring.Kept.{AllFrom-All, either_keeps, run_keeps}

-- Under each name the second map has a record exactly where the first one has, of the same name, id
-- and request, and settled as before.
abbrev pub Follows : Policies → Policies → Type 0
Follows ps ps' =
    (name : String)
    → ((get name ps ≡ none) × (get name ps' ≡ none))
      ⊎ ((e e' : PolicyRecord) × (get name ps ≡ some e) × (get name ps' ≡ some e') × Kept e e')

Follows-refl : (ps : Policies) → Follows ps ps
Follows-refl ps name = elim (Option-cases (get name ps)) [
  | inl e ↦ inl (e, e)
  | inr (r, e) ↦ inr (r, r, e, e, (refl, refl, refl, refl))
]

Follows-put :
    (ps ps' : Policies) (e r : PolicyRecord)
    → Follows ps ps'
    → get r.name ps ≡ some e
    → Kept e r
    → Follows ps (put r ps')
Follows-put ps ps' e r h held kept name = elim (Bool-cases (str_eq r.name name)) [
  | inl same ↦
      let is : r.name ≡ name = (str_eq_iff r.name name).0 same in
      inr (
        e,
        r,
        ap (λ n. get n ps) (sym is) ∙ held,
        ap (λ n. get n (put r ps')) (sym is) ∙ get-put r ps',
        kept,
      )
  | inr other ↦ rw (get-put_other name r ps' other) (h name)
]

owns_ok :
    (o : Option PolicyRecord) (r : PolicyRecord)
    → owns o r ≡ true
    → (existing : PolicyRecord) × (o ≡ some existing) × (existing.policy_id ≡ r.policy_id)
unfolding owns
owns_ok none r h = absurd cc
owns_ok (some existing) r h = (existing, refl, (str_eq_iff existing.policy_id r.policy_id).0 h)

sealed_as_ok :
    (x : Outcome RegisterFault ActionResponse × PolicyRecord) (r : PolicyRecord)
    → sealed_as x ≡ ok r
    → x.1 ≡ r
unfolding sealed_as
sealed_as_ok (ok a, q) r h = ok_inj h
sealed_as_ok (err f, q) r h = absurd cc
sealed_as_ok (panic, q) r h = absurd cc

module _ {K E : Type 0} (d : Restorer K E) (laws : JsonLaws d.json) (ps : Policies) where
  abbrev FileFollows : Stored → Type 0
  FileFollows f = (ps' : Policies) → load_state d.json f ≡ ok ps' → Follows ps ps'

  abbrev Good : Restoration → Type 0
  Good s = Follows ps s.policies × FileFollows s.file

  written-Good :
      (s : Restoration) (r : PolicyRecord) (o : Outcome StateFault Stored)
      → save d.json d.disk (put r s.policies) ≡ o
      → Follows ps (put r s.policies)
      → Good s
      → Good (written s r o).1
  unfolding written
  written-Good s r (ok f) is follows h = (
    follows,
    λ ps' read.
        let loads = loads-save d.json d.disk (put r s.policies) f laws is in
        let same : put r s.policies ≡ ps' = ok_inj (sym loads ∙ read) in rw⁻¹ same follows,
  )
  written-Good s r (err e) is follows h = (follows, h.1)
  written-Good s r panic is follows h = h

  -- A record with the name and the id of one in the first map goes back only where it keeps that one.
  save_owned-Good :
      (t r : PolicyRecord) (s : Restoration)
      → IsGenuine ps t
      → Kept t r
      → Good s
      → Good (save_owned d r s).1
  unfolding save_owned
  save_owned-Good t r s own kept h = elim (Bool-cases (owns (get r.name s.policies) r)) [
    | inr other ↦ rw other h
    | inl owned ↦ rw owned (written-Good s r _ refl (followed owned) h)
  ]
    where
      followed : owns (get r.name s.policies) r ≡ true → Follows ps (put r s.policies)
      followed owned =
          let (existing, held, same_id) = owns_ok (get r.name s.policies) r owned in
          elim (h.0 r.name) [
            | inl (gone, gone_too) ↦
                let clash : none ≡ some existing = sym gone_too ∙ held in absurd (cc)
            | inr (e, e', first, second, (n, id, settled, request)) ↦
                let is : e' ≡ existing = cc in
                let e_id : e.policy_id ≡ t.policy_id =
                  sym id ∙ ap (λ x. x.policy_id) is ∙ same_id ∙ kept.1 in
                let t_is : t ≡ e = own e (ap (λ m. get m ps) (sym kept.0) ∙ first) e_id in
                Follows-put ps s.policies e r h.0 first (subst (λ x. Kept x r) t_is kept)
          ]

  seal-Good :
      (i : ℕ) (t : PolicyRecord) (m : ModelParameters) (s : Restoration)
      → IsGenuine ps t
      → Good s
      → Good (seal_and_save d i t m s).1
  unfolding seal_and_save seal_target count_restored
  seal-Good i t m s own h = bind_keeps Good (seal_target d i t m) _ s h (λ r is.
      save_owned-Good t r _ own
        (subst (λ x. Kept t x) (sealed_as_ok (seal_model (d.seal_calls i) t m) r is)
          (seal_model-Kept (d.seal_calls i) t m))
        h)

  load-Good :
      (i : ℕ) (t : PolicyRecord) (m : ModelParameters) (s : Restoration)
      → IsGenuine ps t
      → Good s
      → Good (load_target d i t m s).1
  unfolding load_target count_restored
  load-Good i t m s own h = either_keeps Good d.dry_run _ _ h (seal-Good i t m s own h)

-- Every known name is one of the two that are walked.
known_listed :
    (P : String → Type 0) (name : String) → is_known name ≡ true → All P policy_names → P name
unfolding is_known template_in
known_listed P name h (drought, monsoon) = elim (Bool-cases (str_eq "drought-surabaya" name)) [
  | inl e ↦ subst P ((str_eq_iff "drought-surabaya" name).0 e) drought
  | inr no_drought ↦ elim (Bool-cases (str_eq "monsoon-surabaya" name)) [
    | inl e ↦ subst P ((str_eq_iff "monsoon-surabaya" name).0 e) monsoon.0
    | inr no_monsoon ↦ absurd (ground (arith, h, no_drought, no_monsoon))
  ]
]

-- With a codec that reads back what it writes: however a run ends on a file whose records carry their names, the file that it leaves has a record under
-- exactly the same names, each with the id and the request that it had, and settled only if it was:
-- restoring an older policy of the web demo does not replace the operator's own.
pub run_reregister_all-Follows :
    {K E : Type 0} (d : Restorer K E) (file : Stored) (ps ps' : Policies)
    → JsonLaws d.json
    → ((name : String) (r : PolicyRecord) → get name ps ≡ some r → r.name ≡ name)
    → load_state d.json file ≡ ok ps
    → load_state d.json (run_reregister_all d file).1.file ≡ ok ps'
    → Follows ps ps'
run_reregister_all-Follows d file ps ps' laws keyed before after =
    (run_keeps d (λ i t. IsGenuine ps t) (Good d laws ps)
        (record {
          skip = λ s h. h;
          load = λ i t m s own free given h. load-Good d laws ps i t m.0 s own h;
        })
        file (λ failed. absurd (failed ps before))
        (λ qs read.
          let same : ps ≡ qs = ok_inj (sym before ∙ read) in
          (
            subst (λ x. Follows ps x) same (Follows-refl ps),
            λ qs' again. subst (λ x. Follows ps x) (ok_inj (sym before ∙ again)) (Follows-refl ps),
          ))
        (λ qs ts read found.
          let same : qs ≡ ps = ok_inj (sym read ∙ before) in
          AllFrom-All (IsGenuine ps) 0 ts (
            restore_targets-IsGenuine d.hex_to_hash ps keyed is_known policy_names known_listed
              d.web ts
              (ap (λ x. restore_targets d.hex_to_hash x policy_names is_known d.web) (sym same)
                ∙ found)))).1
      ps' after
