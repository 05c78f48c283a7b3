-- ===== src/Agent/Registration/Opened.antt =====
-- `runRegisterModel` and `runEvaluate` of go/tools/cmd/aegis: what the one command leaves, the other opens.
use aegis_labs.Common.{
  ◌≡◌, refl, ap, sym, ◌∙◌, inl, inr, String, Bool, some, true, false, Outcome, ok, err, panic, ◌==◌,
  if◌then◌else◌, length,
}
use aegis_labs.Common.Bytes.{Bytes}
use aegis_labs.Model.{ModelParameters}
use aegis_labs.Fdc.HexText.{
  encode_to_string, with_prefix, trim_prefix, decode_string, decode-encode,
}
use aegis_labs.Fdc.Feed.{RequestBody}
use aegis_labs.Fdc.Prepare.{prepare_request}
use aegis_labs.Fdc.Prepare.Encoded.{prepare_request-All}
use aegis_labs.Agent.Policies.{NonceFault, ModelFileFault}
use aegis_labs.Agent.Records.{
  PolicyRecord, Policies, Stored, StateFault, JsonLaws, get, put, load_state, load_state-save,
}
use aegis_labs.Agent.Minting.{current_policy, current_policy_ok}
use aegis_labs.Agent.World.{Outside, World, Settings, unusable_request}
use aegis_labs.Agent.Evaluate.{opened}
use aegis_labs.Agent.Evaluate.Usable.{opened-usable}
use aegis_labs.Agent.Registration.{
  Desk, Office, closed, working_on, with_policies, with_model, run_register_model,
}
use aegis_labs.Agent.Registration.Kept.{register_policy_ok}

module _ {K E : Type 0} (d : Desk K E) where
  -- A file in which the record of the command's policy carries its name.
  abbrev pub NamesPolicy : Stored → Type 0
  NamesPolicy f =
      (ps : Policies) (r : PolicyRecord)
      → load_state d.json f ≡ ok ps
      → get d.policy_name ps ≡ some r
      → r.name ≡ d.policy_name

  -- What a run without an error leaves in the file.
  abbrev Registered : Stored → Type 0
  Registered f =
      (body : RequestBody) × (encoded : Bytes) × (ps : Policies) × (r : PolicyRecord) × (d.body
        ≡ ok body)
      × (prepare_request d.verifier body ≡ ok encoded)
      × (load_state d.json f ≡ ok ps)
      × (get d.policy_name ps ≡ some r)
      × (r.model_registered ≡ true)
      × (r.settled ≡ false)
      × (r.abi_encoded_request ≡ with_prefix (encode_to_string encoded))

  working_on_ok :
      (model : ModelParameters) (file : Stored) (ps : Policies)
      (o : Outcome NonceFault (PolicyRecord × Bool))
      → JsonLaws d.json
      → ((r : PolicyRecord) (new : Bool)
          → o ≡ ok (r, new)
          → (r.name ≡ d.policy_name) × (r.settled ≡ false))
      → (working_on d model file ps o).0 ≡ ok tt
      → Registered (working_on d model file ps o).1
  unfolding working_on closed
  working_on_ok model file ps (err f) laws good h = absurd cc
  working_on_ok model file ps panic laws good h = absurd cc
  working_on_ok model file ps (ok (r, new)) laws good h =
      let s : Office = record { file = file; policies = ps; current = r } in
      let (body, encoded, r', built, prepared, (ps', saved), (name, id, settled, request), loaded) =
        register_policy_ok d model s h in
      let (named, unsettled) = good r new refl in
      let (read, held, others) = load_state-save d.json d.disk r' ps' _ laws saved in
      (
        body,
        encoded,
        put r' ps',
        r',
        built,
        prepared,
        read,
        ap (λ n. get n (put r' ps')) (sym (name ∙ named)) ∙ held,
        loaded,
        settled ∙ unsettled,
        request,
      )

  with_policies_ok :
      (model : ModelParameters) (file : Stored) (o : Outcome StateFault Policies)
      → JsonLaws d.json
      → ((ps : Policies) (r : PolicyRecord)
          → o ≡ ok ps
          → get d.policy_name ps ≡ some r
          → r.name ≡ d.policy_name)
      → (with_policies d model file o).0 ≡ ok tt
      → Registered (with_policies d model file o).1
  unfolding with_policies
  with_policies_ok model file (err f) laws keyed h = absurd cc
  with_policies_ok model file panic laws keyed h = absurd cc
  with_policies_ok model file (ok ps) laws keyed h = working_on_ok model file ps _ laws good h
    where
      good :
          (r : PolicyRecord) (new : Bool)
          → current_policy ps d.policy_name d.prefix d.force_new d.nonce d.now d.hash_hex
            ≡ ok (r, new)
          → (r.name ≡ d.policy_name) × (r.settled ≡ false)
      good r new is =
          let (unsettled, which) =
            current_policy_ok ps d.policy_name d.prefix d.force_new d.nonce d.now d.hash_hex r new
              is in
          elim which [
            | inl (held, old, unforced) ↦ (keyed ps r refl held, unsettled)
            | inr (id, drawn, fresh, made) ↦ (ap (λ x. x.name) fresh, unsettled)
          ]

  with_model_ok :
      (file : Stored) (o : Outcome ModelFileFault ModelParameters)
      → JsonLaws d.json
      → NamesPolicy file
      → (with_model d file o).0 ≡ ok tt
      → Registered (with_model d file o).1
  unfolding with_model
  with_model_ok file (err f) laws keyed h = absurd cc
  with_model_ok file panic laws keyed h = absurd cc
  with_model_ok file (ok model) laws keyed h =
      with_policies_ok model file (load_state d.json file) laws keyed h

trimmed : (t : String) → decode_string (trim_prefix (with_prefix t)) ≡ decode_string t
unfolding trim_prefix
trimmed t = refl

-- A run of register-model without an error, on a file in which the policy's record carries its name,
-- leaves a file that evaluate, with the same codec and the same policy, opens at a record with a
-- model that is not settled and with exactly the bytes that the verifier gave for the policy's feed.
-- Only where those are no bytes does evaluate refuse the request.
pub opened-run_register_model :
    {K E S P : Type 0} (d : Desk K E) (o : Outside S P) (settings : Settings) (file : Stored)
    (w : World S)
    → JsonLaws d.json
    → NamesPolicy d file
    → o.json ≡ d.json
    → settings.policy_name ≡ d.policy_name
    → (run_register_model d file).0 ≡ ok tt
    → w.file ≡ (run_register_model d file).1
    → (body : RequestBody) × (encoded : Bytes) × (ps : Policies) × (r : PolicyRecord) × (d.body
        ≡ ok body)
      × (prepare_request d.verifier body ≡ ok encoded)
      × (get d.policy_name ps ≡ some r)
      × (r.model_registered ≡ true)
      × (r.settled ≡ false)
      × (opened o settings w
          ≡ (if length encoded == 0 then err unusable_request else ok (ps, r, encoded)))
unfolding run_register_model
opened-run_register_model d o settings file w laws keyed codec same done left =
    let (body, encoded, ps, r, built, prepared, read, held, loaded, unsettled, request) =
      with_model_ok d file d.model laws keyed done in
    let bytes = decode-encode encoded (prepare_request-All d.verifier body encoded prepared) in
    (
      body,
      encoded,
      ps,
      r,
      built,
      prepared,
      held,
      loaded,
      unsettled,
      opened-usable o settings w ps r encoded ((λ i. load_state (codec i) (left i)) ∙ read)
          (ap (λ n. get n ps) same ∙ held) loaded unsettled
          (ap (λ t. decode_string (trim_prefix t)) request
            ∙ trimmed (encode_to_string encoded)
            ∙ bytes),
    )
