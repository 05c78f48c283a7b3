-- ===== src/EndToEnd/Decided.antt =====
-- What each check of go/tools/cmd/run-test/main.go that passes shows of its policy.
use aegis_labs.Common.{
  ℕ, ◌+◌, Bool, true, false, not, ◌&&◌, ◌||◌, ◌==◌, ◌≡◌, refl, ap, ◌∙◌, sym, Option, none, some, [],
  ◌∷◌, ok, map_err, bind_ok, map_err_ok, ok_inj, ==_iff, arith, length,
}
use aegis_labs.Common.Int.{ℤ, pos, negsuc, eq_ℤ, ◌-ℤ◌}
use aegis_labs.Common.Bytes.{Hash, Address, bytes_eq, bytes_eq_iff}
use aegis_labs.Model.{EvaluateResponse}
use aegis_labs.Model.Codec.{decode_evaluate_response}
use aegis_labs.Instructions.{send_instruction}
use aegis_labs.Tee.Results.{action_result}
use aegis_labs.Payout.Decision.{ActionResponse}
use aegis_labs.EndToEnd.Network.{
  TestPolicy, test_model, TestFault, Network, require, present, given, sending_evaluate, no_result,
  decoding_decision, other_policy, other_recipient, no_signature, scoring, other_payout,
  nothing_paid, paid_without_drought,
}
use aegis_labs.EndToEnd.Payout.{expected_payout}
use aegis_labs.EndToEnd.Steps.{rainfall_of, assert_no_secrets}
use aegis_labs.EndToEnd.Settling.{
  is_zero, accepted_payout, run_evaluate, assert_payout, evaluate_policy,
}
use aegis_labs.EndToEnd.Identity.{identity}

pub require_ok : (f : TestFault) (b : Bool) {u : Unit {0}} → require f b ≡ ok u → b ≡ true
unfolding require
require_ok f true h = refl
require_ok f false h = cc

pub present_ok : {A : Type 0} (o : Option A) {a : A} → present o ≡ ok a → o ≡ some a
unfolding present
present_ok none h = cc
present_ok (some b) h = ap some (ok_inj h)

pub given_ok : {A : Type 0} (f : TestFault) (o : Option A) {a : A} → given f o ≡ ok a → o ≡ some a
unfolding given
given_ok f none h = cc
given_ok f (some b) h = ap some (ok_inj h)

eq_ℤ_sound : (x y : ℤ) → eq_ℤ x y ≡ true → x ≡ y
eq_ℤ_sound (pos a) (pos b) h = ap pos ((==_iff a b).0 h)
eq_ℤ_sound (negsuc a) (negsuc b) h = ap negsuc ((==_iff a b).0 h)
eq_ℤ_sound (pos a) (negsuc b) h = cc
eq_ℤ_sound (negsuc a) (pos b) h = cc

-- What a difference says of the two balances.
pub moved_by : (a b n : ℕ) → eq_ℤ (pos a -ℤ pos b) (pos n) ≡ true → a ≡ n + b
unfolding ◌-ℤ◌
moved_by a b n h = ground arith

paid_as_expected :
    (triggers paid_nothing : Bool)
    → not (triggers && paid_nothing) ≡ true
    → (triggers || paid_nothing) ≡ true
    → paid_nothing ≡ not triggers
paid_as_expected true true h k = cc
paid_as_expected true false h k = refl
paid_as_expected false true h k = refl
paid_as_expected false false h k = cc

module _ {P : Type 0} (net : Network P) (payee : Address) where
  -- The enclave's answer is kept, it decodes to a decision for this policy and the recipient, and its amount is
  -- the one that the model owes at the attested rainfall, which is zero just where no payout is expected.
  abbrev pub IsDecided : TestPolicy P → Type 0
  IsDecided p =
      (response : ActionResponse) × (e : EvaluateResponse) × (rainfall payout : ℤ) × (p.decision
        ≡ some response)
      × (decode_evaluate_response net.abi response.result.result_data ≡ ok e)
      × (e.policy_id ≡ p.id)
      × (e.payout_to ≡ payee)
      × (e.payout_amount ≡ some payout)
      × (rainfall_of net p ≡ ok rainfall)
      × (expected_payout test_model rainfall ≡ ok payout)
      × (is_zero payout ≡ not p.should_trigger)

  accepted_payout_ok :
      (id : Hash) (response : ActionResponse) (e : EvaluateResponse) (payout : ℤ)
      → accepted_payout net payee id response e ≡ ok payout
      → (e.policy_id ≡ id) × (e.payout_to ≡ payee) × (e.payout_amount ≡ some payout)
  unfolding accepted_payout
  accepted_payout_ok id response e payout h =
      let (a, same, h1) = bind_ok (require other_policy (bytes_eq e.policy_id id)) _ h in
      let (b, to, h2) = bind_ok (require other_recipient (bytes_eq e.payout_to payee)) _ h1 in
      let (c, signed, h3) =
        bind_ok (require no_signature (not (length response.signature == 0))) _ h2 in
      let blobs = net.log_bytes response.result.log ∷ response.result.result_data ∷ [] in
      let (u, sealed, h4) = bind_ok (assert_no_secrets blobs) _ h3 in
      (
        (bytes_eq_iff e.policy_id id).0 (require_ok other_policy _ same),
        (bytes_eq_iff e.payout_to payee).0 (require_ok other_recipient _ to),
        present_ok e.payout_amount h4,
      )

  -- The answer that `run_evaluate` puts into the record.
  IsAnswered : TestPolicy P → ℤ × TestPolicy P → Type 0
  IsAnswered p r =
      (response : ActionResponse) × (e : EvaluateResponse) × (r.1
        ≡ record p { decision = some response })
      × (decode_evaluate_response net.abi response.result.result_data ≡ ok e)
      × (e.policy_id ≡ p.id)
      × (e.payout_to ≡ payee)
      × (e.payout_amount ≡ some r.0)

  run_evaluate_ok :
      (p : TestPolicy P) (r : ℤ × TestPolicy P) → run_evaluate net payee p ≡ ok r → IsAnswered p r
  unfolding run_evaluate IsAnswered
  run_evaluate_ok p r h =
      let (v, proved, h1) = bind_ok (present p.proof) _ h in
      let (ids, went, h2) =
        bind_ok
          (map_err sending_evaluate (send_instruction (net.evaluate_calls p.id payee v) net.fee)) _
          h1 in
      let (response, came, h3) =
        bind_ok (map_err no_result (action_result net.read_response (net.gets ids.0))) _ h2 in
      let (u, succeeded, h4) = bind_ok (require _ (not (response.result.status == 0))) _ h3 in
      let (e, decoded, h5) =
        bind_ok
          (map_err decoding_decision (decode_evaluate_response net.abi response.result.result_data))
          _ h4 in
      let (payout, accepted, h6) = bind_ok (accepted_payout net payee p.id response e) _ h5 in
      let (same, to, amount) = accepted_payout_ok p.id response e payout accepted in
      let is = ok_inj h6 in
      (
        response,
        e,
        ap (λ x. x.1) (sym is),
        map_err_ok decoding_decision _ decoded,
        same,
        to,
        amount ∙ ap (λ x. some x.0) is,
      )

  assert_payout_ok :
      (p : TestPolicy P) (payout expected : ℤ) {u : Unit {0}}
      → assert_payout net payee p payout expected ≡ ok u
      → (payout ≡ expected) × (is_zero payout ≡ not p.should_trigger)
  unfolding assert_payout
  assert_payout_ok p payout expected h =
      let (a, same, h1) = bind_ok (require other_payout (eq_ℤ payout expected)) _ h in
      let (b, paid, h2) =
        bind_ok (require nothing_paid (not (p.should_trigger && is_zero payout))) _ h1 in
      (
        eq_ℤ_sound payout expected (require_ok other_payout _ same),
        paid_as_expected p.should_trigger (is_zero payout) (require_ok nothing_paid _ paid)
            (require_ok paid_without_drought _ h2),
      )

  rainfall_decision :
      (p : TestPolicy P) (response : ActionResponse)
      → rainfall_of net (record p { decision = some response }) ≡ rainfall_of net p
  unfolding rainfall_of
  rainfall_decision p response = refl

  pub evaluate_policy_ok : (p q : TestPolicy P) → evaluate_policy net payee p ≡ ok q → IsDecided q
  unfolding evaluate_policy IsAnswered
  evaluate_policy_ok p q h =
      let (rainfall, read, h1) = bind_ok (rainfall_of net p) _ h in
      let (r, ran, h2) = bind_ok (run_evaluate net payee p) _ h1 in
      let (expected, model, h3) =
        bind_ok (map_err scoring (expected_payout test_model rainfall)) _ h2 in
      let (u, asserted, h4) = bind_ok (assert_payout net payee p r.0 expected) _ h3 in
      let (response, e, put, decoded, same, to, amount) = run_evaluate_ok p r ran in
      let (equal, season) = assert_payout_ok p r.0 expected asserted in
      let is : q ≡ record p { decision = some response } = sym (ok_inj h4) ∙ put in
      (
        response,
        e,
        rainfall,
        r.0,
        ap (λ x. x.decision) is,
        decoded,
        same ∙ ap (λ x. x.id) (sym is),
        to,
        amount,
        ap (rainfall_of net) is ∙ rainfall_decision p response ∙ read,
        map_err_ok scoring _ model ∙ ap ok (sym equal),
        season ∙ ap (λ x. not x.should_trigger) (sym is),
      )

  pub evaluate_policy-identity :
      (p q : TestPolicy P) → evaluate_policy net payee p ≡ ok q → identity q ≡ identity p
  unfolding evaluate_policy IsAnswered
  evaluate_policy-identity p q h =
      let (rainfall, read, h1) = bind_ok (rainfall_of net p) _ h in
      let (r, ran, h2) = bind_ok (run_evaluate net payee p) _ h1 in
      let (expected, model, h3) =
        bind_ok (map_err scoring (expected_payout test_model rainfall)) _ h2 in
      let (u, asserted, h4) = bind_ok (assert_payout net payee p r.0 expected) _ h3 in
      let (response, e, put, d0, d1, d2, d3) = run_evaluate_ok p r ran in
      ap identity (sym (ok_inj h4) ∙ put)
