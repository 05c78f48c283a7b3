-- ===== src/Examples/Restoring.antt =====
-- A run of reregister-all over the operator's policy and an older one of the web demo.
use aegis_labs.Common.{
  ◌≡◌, refl, ap, sym, ◌∙◌, ℕ, String, none, some, List, [], ◌∷◌, true, false, ok, All, Bool-cases,
  inl, inr, str_eq, str_eq_iff, if◌then◌else◌,
}
use aegis_labs.Common.Bytes.{Hash, bytes_eq}
use aegis_labs.Extension.Actions.{build_result}
use aegis_labs.Instructions.{send_instruction}
use aegis_labs.Support.{check_tx}
use aegis_labs.Validate.Text.{decimal}
use aegis_labs.Payout.Settle.{Chain, settlement_of}
use aegis_labs.Tee.Results.{wait_for_action_result, action_result, last_answer}
use aegis_labs.Agent.Catalog.{is_known, template_in}
use aegis_labs.Agent.Records.{
  PolicyRecord, Policies, Stored, contents, get, put_at, load_state, save,
}
use aegis_labs.Agent.Sealing.{assert_sealed, first_leak, contains_bytes, is_prefix, text_bytes}
use aegis_labs.Agent.Register.{sealed_model, seal_model}
use aegis_labs.Agent.Restore.{
  WebPolicy, restore_targets, add_named, add_web, add_target, seen, skip_reason, model_for,
  check_enclave_registered,
}
use aegis_labs.Agent.Restoring.{
  Restorer, run_reregister_all, reregister, load_policies, restore_all, restore_one, load_target,
  model_of_target, seal_target, save_owned, count_restored,
}
use aegis_labs.Agent.Restoring.Dry.{run_reregister_all-dry}
use aegis_labs.Agent.Restoring.Sealing.{IsRestorable, run_reregister_all-IsRestorable}
use aegis_labs.Agent.Restoring.Owned.{Follows, run_reregister_all-Follows}
use aegis_labs.Examples.Codec.{codec, codec_laws, at, place}
use aegis_labs.Examples.Data.{policy, payee}
use aegis_labs.Examples.Agent.{bound, chain}
use aegis_labs.Examples.Operator.{sealing}

abbrev kept : PolicyRecord
kept = record bound { name = "drought-surabaya"; model_registered = false }

abbrev loaded : PolicyRecord
loaded = record kept { model_registered = true; register_instruction_id = "0x" }

abbrev unsettled : Chain
unsettled = record chain {
  settlement_record =
      λ id. some (record { settled = false; payout_to = payee; amount = 0; instruction_id = [] });
}

abbrev numbered : String → Hash
numbered text = if str_eq text "0x07" then policy else 8 ∷ []

-- The older one has the operator's name and another id; one of an unknown name is left out.
abbrev offered : List WebPolicy
offered =
    record { name = "flood"; policy_id = "0x09"; created_at = 1 }
    ∷ record { name = "drought-surabaya"; policy_id = "0x08"; created_at = 1 }
    ∷ record { name = "drought-surabaya"; policy_id = "0x07"; created_at = 2 }
    ∷ []

abbrev dry : Restorer ℕ ℕ
dry = record {
  dry_run = true;
  hex_to_hash = numbered;
  web = some (some offered);
  has_proxy = true;
  machines = some ((1 ∷ []) ∷ []);
  enclave = some (some (1 ∷ []));
  binds_sender = true;
  trigger = λ i id. some (9 ∷ []);
  chain = λ i. unsettled;
  models_dir = "models";
  path = λ dir name. name;
  exists = λ path. false;
  read_file = λ path. none;
  unmarshal = λ raw. none;
  seal_calls = λ i. sealing;
  json = codec (kept ∷ loaded ∷ []);
  disk = record { makes_directory = true; writes = true };
}

abbrev real : Restorer ℕ ℕ
real = record dry { dry_run = false }

abbrev file : Stored
file = contents (10 ∷ [])

abbrev before : Policies
before = ("drought-surabaya", kept) ∷ []

abbrev after : Policies
after = ("drought-surabaya", loaded) ∷ []

-- Both are restored, and the operator's own is written back.
restores_both :
    (run_reregister_all real file).0 ≡ ok tt
    × ((run_reregister_all real file).1.restored ≡ 2)
    × ((run_reregister_all real file).1.policies ≡ after)
    × ((run_reregister_all real file).1.file ≡ contents (0 ∷ 10 ∷ []))
unfolding run_reregister_all reregister load_policies restore_all restore_one load_target
    model_of_target seal_target save_owned count_restored restore_targets add_named add_web
    add_target seen skip_reason model_for check_enclave_registered is_known template_in
    settlement_of bytes_eq load_state save get put_at codec at place seal_model sealed_model
    assert_sealed first_leak contains_bytes is_prefix text_bytes send_instruction check_tx
    wait_for_action_result action_result last_answer decimal build_result
restores_both = (refl, refl, refl, refl)

run_reregister_all-dry_example :
    ((run_reregister_all dry file).1.file ≡ file) × ((run_reregister_all dry file).1.sealed ≡ [])
run_reregister_all-dry_example = run_reregister_all-dry dry refl file

run_reregister_all-IsRestorable_example :
    All (IsRestorable real file) (run_reregister_all real file).1.sealed
run_reregister_all-IsRestorable_example = run_reregister_all-IsRestorable real file

not_found : (r : PolicyRecord) → none ≡ some r → ⊥
not_found r h = cc

before-IsKeyed : (name : String) (r : PolicyRecord) → get name before ≡ some r → r.name ≡ name
unfolding get
before-IsKeyed name r found = elim (Bool-cases (str_eq "drought-surabaya" name)) [
  | inl e ↦
      let held : some kept ≡ some r = rw e at found in
      let is : kept ≡ r = cc in ap (λ x. x.name) (sym is) ∙ (str_eq_iff "drought-surabaya" name).0 e
  | inr e ↦ absurd (not_found r (rw e at found))
]

read_before : load_state real.json file ≡ ok before
unfolding load_state codec at
read_before = refl

read_after : load_state real.json (run_reregister_all real file).1.file ≡ ok after
unfolding load_state codec at
read_after = ap (load_state real.json) restores_both.3

run_reregister_all-Follows_example : Follows before after
run_reregister_all-Follows_example =
    run_reregister_all-Follows real file before after (codec_laws (kept ∷ loaded ∷ []))
      before-IsKeyed read_before read_after
