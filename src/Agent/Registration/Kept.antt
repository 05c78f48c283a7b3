-- ===== src/Agent/Registration/Kept.antt =====
-- `runRegisterModel` of go/tools/cmd/aegis/cmd_register.go: what a run without an error saves.
use mathlib.Core.Path.{subst}
use aegis_labs.Common.{◌≡◌, refl, ap, sym, ◌∙◌, true, Outcome, ok, err, panic, map_err, map_err_ok}
use aegis_labs.Common.Exec.{run_ok, continue_ok}
use aegis_labs.Common.Bytes.{Bytes}
use aegis_labs.Model.{ModelParameters}
use aegis_labs.Fdc.HexText.{encode_to_string, with_prefix}
use aegis_labs.Fdc.Feed.{RequestBody}
use aegis_labs.Fdc.Prepare.{prepare_request}
use aegis_labs.Agent.Records.{PolicyRecord, Policies, Stored, StateFault, put, save}
use aegis_labs.Agent.Register.Kept.{Kept, bind_trigger-Kept, seal_model-Kept}
use aegis_labs.Agent.Register.Sealed.{seal_model_ok}
use aegis_labs.Agent.Registration.{
  Desk, Office, register_fault, building_request, verifier_refused, saved_office, save_current,
  note_request, bind_current, seal_current, bind_and_seal, register_policy,
}

module _ {K E : Type 0} (d : Desk K E) where
  -- The record `r` is stored as the record of its name in the file of `s`.
  abbrev pub Holds : Office → PolicyRecord → Type 0
  Holds s r = (ps : Policies) × (save d.json d.disk (put r ps) ≡ ok s.file)

  saved_office_ok :
      (s : Office) (o : Outcome StateFault Stored)
      → (saved_office s o).0 ≡ ok tt
      → (o ≡ ok (saved_office s o).1.file) × ((saved_office s o).1.current ≡ s.current)
  unfolding saved_office
  saved_office_ok s (ok f) h = (refl, refl)
  saved_office_ok s (err f) h = absurd cc
  saved_office_ok s panic h = absurd cc

  save_current_ok :
      (s : Office)
      → (save_current d s).0 ≡ ok tt
      → (save d.json d.disk (put s.current s.policies) ≡ ok (save_current d s).1.file)
        × ((save_current d s).1.current ≡ s.current)
  unfolding save_current
  save_current_ok s h = saved_office_ok s (save d.json d.disk (put s.current s.policies)) h

  Kept-trans : (a b c : PolicyRecord) → Kept a b → Kept b c → Kept a c
  Kept-trans a b c (n, k, s, q) (n', k', s', q') = (n' ∙ n, k' ∙ k, s' ∙ s, q' ∙ q)

  bind_and_seal_ok :
      (model : ModelParameters) (body : RequestBody) (s : Office)
      → (bind_and_seal d model body s).0 ≡ ok tt
      → (r : PolicyRecord) × Holds (bind_and_seal d model body s).1 r
        × Kept s.current r
        × (r.model_registered ≡ true)
  unfolding bind_and_seal bind_current seal_current
  bind_and_seal_ok model body s h =
      let (b, bound, h1, is1) = run_ok (bind_current d body) _ s h in
      let s1 = (bind_current d body s).1 in
      let (u, saved, h2, is2) = run_ok (save_current d) _ s1 h1 in
      let s2 = (save_current d s1).1 in
      let (a, sealed, h3, is3) = run_ok (seal_current d model) _ s2 h2 in
      let s3 = (seal_current d model s2).1 in
      let (last, done) = save_current_ok s3 h3 in
      let (first, same) = save_current_ok s1 saved in
      let (c, sent, i, t, clear, by, waited, success, loaded) =
        seal_model_ok d.seal_calls s2.current model a (map_err_ok register_fault _ sealed) in
      let to_first : Kept s.current s1.current = bind_trigger-Kept (d.bind_calls body) s.current in
      let to_third : Kept s1.current s3.current =
        subst (λ x. Kept x s3.current) same (seal_model-Kept d.seal_calls s2.current model) in
      (
        s3.current,
        (s3.policies, last ∙ ap (λ x. ok x.1.file) (sym (is1 ∙ is2 ∙ is3))),
        Kept-trans s.current s1.current s3.current to_first to_third,
        loaded,
      )

  pub register_policy_ok :
      (model : ModelParameters) (s : Office)
      → (register_policy d model s).0 ≡ ok tt
      → (body : RequestBody) × (encoded : Bytes) × (r : PolicyRecord) × (d.body ≡ ok body)
        × (prepare_request d.verifier body ≡ ok encoded)
        × Holds (register_policy d model s).1 r
        × Kept (record s.current { abi_encoded_request = with_prefix (encode_to_string encoded) }) r
        × (r.model_registered ≡ true)
  unfolding register_policy note_request
  register_policy_ok model s h =
      let (body, built, h1, is1) = continue_ok (map_err building_request d.body) _ s h in
      let (encoded, prepared, h2, is2) =
        continue_ok (map_err verifier_refused (prepare_request d.verifier body)) _ s h1 in
      let s' = (note_request d encoded s).1 in
      let (r, held, kept, loaded) = bind_and_seal_ok model body s' h2 in
      (
        body,
        encoded,
        r,
        map_err_ok building_request _ built,
        map_err_ok verifier_refused _ prepared,
        (held.0, held.1 ∙ ap (λ x. ok x.1.file) (sym (is1 ∙ is2))),
        kept,
        loaded,
      )
