-- ===== src/Agent/Evaluate/Usable.antt =====
-- `runEvaluate` of go/tools/cmd/aegis/cmd_evaluate.go: what its guards let through.
use aegis_labs.Common.{
  ◌≡◌, refl, some, true, false, ok, err, if◌then◌else◌, ◌==◌, length, Bool-cases, inl, inr,
}
use aegis_labs.Common.Bytes.{Bytes}
use aegis_labs.Fdc.HexText.{trim_prefix, decode_string}
use aegis_labs.Agent.Records.{PolicyRecord, Policies, get, load_state}
use aegis_labs.Agent.World.{Outside, World, Settings, unusable_request}
use aegis_labs.Agent.Evaluate.{opened, usable, request_bytes}

module _ {S P : Type 0} (o : Outside S P) (settings : Settings) where
  usable_lem :
      (r : PolicyRecord) (b : Bytes)
      → r.model_registered ≡ true
      → r.settled ≡ false
      → decode_string (trim_prefix r.abi_encoded_request) ≡ some b
      → usable o settings (some r) ≡ (if length b == 0 then err unusable_request else ok (r, b))
  unfolding usable request_bytes
  usable_lem r b loaded unsettled decoded = elim (Bool-cases (length b == 0)) [
    | inl e ↦ rw (loaded, unsettled, decoded, e) refl
    | inr e ↦ rw (loaded, unsettled, decoded, e) refl
  ]

  -- The guards let a record pass that has a model, is not settled and has a request of some bytes.
  pub opened-usable :
      (w : World S) (ps : Policies) (r : PolicyRecord) (b : Bytes)
      → load_state o.json w.file ≡ ok ps
      → get settings.policy_name ps ≡ some r
      → r.model_registered ≡ true
      → r.settled ≡ false
      → decode_string (trim_prefix r.abi_encoded_request) ≡ some b
      → opened o settings w ≡ (if length b == 0 then err unusable_request else ok (ps, r, b))
  unfolding opened
  opened-usable w ps r b read held loaded unsettled decoded = elim (Bool-cases (length b == 0)) [
    | inl e ↦ rw (read, held, usable_lem r b loaded unsettled decoded, e) refl
    | inr e ↦ rw (read, held, usable_lem r b loaded unsettled decoded, e) refl
  ]
