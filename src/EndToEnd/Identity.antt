-- ===== src/EndToEnd/Identity.antt =====
-- go/tools/cmd/run-test/main.go: a step fills in a policy under test, and keeps what it is.
use aegis_labs.Common.{
  ◌>>=◌, ℕ, zero, suc, Bool, ◌≡◌, ap, ◌∙◌, sym, Outcome, ok, err, map_err, bind_ok, ok_inj,
}
use aegis_labs.Common.Bytes.{Hash}
use aegis_labs.Fdc.Feed.{DroughtFeed, request_body}
use aegis_labs.Fdc.Prepare.{prepare_request}
use aegis_labs.Fdc.Submit.{submit_request}
use aegis_labs.Fdc.Polling.{Waited, proof, failed, timed_out, crashed, polling, wait_for_proof}
use aegis_labs.EndToEnd.Network.{
  TestPolicy, TestFault, Network, building_request, preparing, submitting, no_proof,
}
use aegis_labs.EndToEnd.Steps.{
  prepare_policy, submit_policy, proof_or, collect_from, collect_proof, rainfall_of,
  assert_season_makes_sense, prove_policy, bind_policy_trigger,
}

-- The policy's id, its feed and what is expected of it.
abbrev pub identity : {P : Type 0} → TestPolicy P → Hash × DroughtFeed × Bool
identity p = (p.id, p.feed, p.should_trigger)

module _ {P : Type 0} (net : Network P) where
  pub prepare_policy-identity :
      (p q : TestPolicy P) → prepare_policy net p ≡ ok q → identity q ≡ identity p
  unfolding prepare_policy
  prepare_policy-identity p q h =
      let (body, one, h1) =
        bind_ok (map_err building_request (request_body net.marshal_query p.feed)) _ h in
      let (encoded, two, h2) =
        bind_ok (map_err preparing (prepare_request net.verifier body)) _ h1 in
      let (u, three, h3) = bind_ok (bind_policy_trigger net (net.bind_calls p.id body) p.id) _ h2 in
      ap identity (sym (ok_inj h3))

  pub submit_policy-identity :
      (more : ℕ) (p q : TestPolicy P) → submit_policy net more p ≡ ok q → identity q ≡ identity p
  unfolding submit_policy
  submit_policy-identity more p q h =
      let (r, one, h1) =
        bind_ok (map_err submitting (submit_request (net.hub p.id more) p.abi_encoded_request)) _
          h in
      ap identity (sym (ok_inj h1))

  proof_or-identity :
      (again : Outcome TestFault (TestPolicy P)) (p q : TestPolicy P) (w : Waited P)
      → (again ≡ ok q → identity q ≡ identity p)
      → proof_or net again p w ≡ ok q
      → identity q ≡ identity p
  unfolding proof_or
  proof_or-identity again p q (proof v) keeps h = ap identity (sym (ok_inj h))
  proof_or-identity again p q (failed f) keeps h = keeps h
  proof_or-identity again p q timed_out keeps h = keeps h
  proof_or-identity again p q crashed keeps h = cc
  proof_or-identity again p q polling keeps h = keeps h

  collect_from-identity :
      (more : ℕ) (p q : TestPolicy P) → collect_from net more p ≡ ok q → identity q ≡ identity p
  unfolding collect_from
  collect_from-identity zero p q h =
      proof_or-identity (err no_proof) p q
        (wait_for_proof (net.polls p.id zero p.voting_round p.abi_encoded_request)) (λ e. cc) h
  collect_from-identity (suc more) p q h =
      proof_or-identity (submit_policy net more p >>= collect_from net more) p q
        (wait_for_proof (net.polls p.id (suc more) p.voting_round p.abi_encoded_request))
        (λ e.
          let (r, one, rest) = bind_ok (submit_policy net more p) _ e in
          collect_from-identity more r q rest ∙ submit_policy-identity more p r one)
        h

  pub prove_policy-identity :
      (p q : TestPolicy P) → prove_policy net p ≡ ok q → identity q ≡ identity p
  unfolding prove_policy collect_proof
  prove_policy-identity p q h =
      let (r, proved, h1) = bind_ok (collect_proof net p) _ h in
      let (x, read, h2) = bind_ok (rainfall_of net r) _ h1 in
      let (u, season, h3) = bind_ok (assert_season_makes_sense net r x) _ h2 in
      ap identity (sym (ok_inj h3)) ∙ collect_from-identity 2 p r proved
