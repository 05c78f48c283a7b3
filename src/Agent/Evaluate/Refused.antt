-- ===== src/Agent/Evaluate/Refused.antt =====
-- `runEvaluate` of go/tools/cmd/aegis/cmd_evaluate.go: the runs that the guards refuse.
use aegis_labs.Common.{
  ◌≡◌, refl, [], Option, none, some, true, false, ok, err, not, arith, map_err, map_err_ok, bind_ok,
  else_ok, ok_inj, ap, sym, ◌∙◌,
}
use aegis_labs.Common.Bytes.{Bytes}
use aegis_labs.Fdc.HexText.{trim_prefix, decode_string}
use aegis_labs.Agent.Records.{PolicyRecord, Policies, get, load_state}
use aegis_labs.Agent.World.{
  Outside, World, Settings, state_fault, no_policy, no_model, already_settled, unusable_request,
}
use aegis_labs.Agent.Evaluate.{request_bytes, usable, opened, evaluated_from, run_evaluate}

module _ {S P : Type 0} (o : Outside S P) (settings : Settings) where
  -- A run that finds no policy of its name, or one without a model, or one that is settled, or one
  -- whose stored request is not the hexadecimal of at least one byte, ends with that error and leaves the world as
  -- it was.
  pub run_evaluate_refused :
      (w : World S) (ps : Policies)
      → load_state o.json w.file ≡ ok ps
      → (get settings.policy_name ps ≡ none → run_evaluate o settings w ≡ (err no_policy, w))
        × ((r : PolicyRecord)
            → get settings.policy_name ps ≡ some r
            → (r.model_registered ≡ false → run_evaluate o settings w ≡ (err no_model, w))
              × (r.model_registered ≡ true
                  → r.settled ≡ true
                  → run_evaluate o settings w ≡ (err already_settled, w))
              × (r.model_registered ≡ true
                  → r.settled ≡ false
                  → decode_string (trim_prefix r.abi_encoded_request) ≡ none
                  → run_evaluate o settings w ≡ (err unusable_request, w))
              × (r.model_registered ≡ true
                  → r.settled ≡ false
                  → decode_string (trim_prefix r.abi_encoded_request) ≡ some []
                  → run_evaluate o settings w ≡ (err unusable_request, w)))
  unfolding run_evaluate opened usable request_bytes evaluated_from
  run_evaluate_refused w ps loaded = (
    λ missing. rw (loaded, missing) refl,
    λ r held. (
      λ model. rw (loaded, held, model) refl,
      λ model settled. rw (loaded, held, model, settled) refl,
      λ model settled bad. rw (loaded, held, model, settled, bad) refl,
      λ model settled empty. rw (loaded, held, model, settled, empty) refl,
    ),
  )

  usable_ok :
      (found : Option PolicyRecord) (r : PolicyRecord) (request : Bytes)
      → usable o settings found ≡ ok (r, request)
      → (found ≡ some r) × (r.model_registered ≡ true) × (r.settled ≡ false)
  unfolding usable
  usable_ok none r request h = cc
  usable_ok (some held) r request h =
      let (model, h1) = else_ok (not held.model_registered) no_model _ h in
      let (unsettled, h2) = else_ok held.settled already_settled _ h1 in
      let (b, decoded, is) =
        bind_ok (request_bytes o settings (decode_string (trim_prefix held.abi_encoded_request)))
          (λ b. ok (held, b)) h2 in
      let same : held ≡ r = ap (λ x. x.0) (ok_inj is) in
      (
        ap some same,
        ap (λ x. x.model_registered) (sym same) ∙ ground (arith, model),
        ap (λ x. x.settled) (sym same) ∙ unsettled,
      )

  -- A run that the guards let through works on the stored record of its name.
  pub opened_ok :
      (w : World S) (ps : Policies) (r : PolicyRecord) (request : Bytes)
      → opened o settings w ≡ ok (ps, r, request)
      → (load_state o.json w.file ≡ ok ps)
        × (get settings.policy_name ps ≡ some r)
        × (r.model_registered ≡ true)
        × (r.settled ≡ false)
  unfolding opened
  opened_ok w ps r request h =
      let (loaded, reads, h1) = bind_ok (map_err state_fault (load_state o.json w.file)) _ h in
      let (found, passes, is) =
        bind_ok (usable o settings (get settings.policy_name loaded)) _ h1 in
      let same = ok_inj is in
      let policies : loaded ≡ ps = ap (λ x. x.0) same in
      let (held, model, unsettled) =
        usable_ok (get settings.policy_name loaded) r request
          (passes ∙ ap (λ x. ok (x.1, x.2)) same) in
      (
        map_err_ok state_fault _ reads ∙ ap ok policies,
        ap (get settings.policy_name) (sym policies) ∙ held,
        model,
        unsettled,
      )
