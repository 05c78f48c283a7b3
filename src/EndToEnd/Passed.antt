-- ===== src/EndToEnd/Passed.antt =====
-- What it shows that go/tools/cmd/run-test/main.go says that all tests passed.
use aegis_labs.Common.{
  Bool, ◌≡◌, refl, ap, ◌∙◌, sym, List, [], ◌∷◌, Outcome, ok, bind_ok, ok_inj, All, map,
}
use mathlib.Core.Path.{subst}
use aegis_labs.Common.Int.{pos}
use aegis_labs.Common.Bytes.{Bytes, Hash, Address}
use aegis_labs.Fdc.Feed.{DroughtFeed}
use aegis_labs.Agent.Pool.{Pool}
use aegis_labs.EndToEnd.Network.{
  TestPolicy, test_policies, TestFault, Network, require, for_each, fetching_key, parsing_key,
}
use aegis_labs.EndToEnd.Steps.{
  check_pool_can_cover, already_set, prepare_policy, submit_policy, register_model, prove_policy,
  assert_raw_rainfall_path_removed, assert_foreign_attestation_rejected,
}
use aegis_labs.EndToEnd.Settling.{evaluate_policy, settle_policy, assert_replay_rejected}
use aegis_labs.EndToEnd.Program.{decided_policies, run_test}
use aegis_labs.EndToEnd.Decided.{IsDecided, evaluate_policy_ok, evaluate_policy-identity}
use aegis_labs.EndToEnd.Paid.{IsPaid, settle_policy_ok}
use aegis_labs.EndToEnd.Identity.{
  identity, prepare_policy-identity, submit_policy-identity, prove_policy-identity,
}

for_each_results :
    {A B : Type 0} (f : A → Outcome TestFault B) (R : B → Type 0)
    → ((x : A) (y : B) → f x ≡ ok y → R y)
    → (xs : List A) (ys : List B) → for_each f xs ≡ ok ys
    → All R ys
unfolding for_each
for_each_results f R each [] [] h = tt
for_each_results f R each [] (y ∷ ys) h = cc
for_each_results f R each (x ∷ xs) ys h =
    let (z, one, h1) = bind_ok (f x) _ h in
    let (zs, others, h2) = bind_ok (for_each f xs) _ h1 in
    subst (λ l. All R l) (ok_inj h2) (each x z one, for_each_results f R each xs zs others)

for_each_inputs :
    {A B : Type 0} (f : A → Outcome TestFault B) (R : A → Type 0)
    → ((x : A) (y : B) → f x ≡ ok y → R x)
    → (xs : List A) (ys : List B) → for_each f xs ≡ ok ys
    → All R xs
unfolding for_each
for_each_inputs f R each [] ys h = tt
for_each_inputs f R each (x ∷ xs) ys h =
    let (z, one, h1) = bind_ok (f x) _ h in
    let (zs, others, h2) = bind_ok (for_each f xs) _ h1 in
    (each x z one, for_each_inputs f R each xs zs others)

for_each_same :
    {A B C : Type 0} (f : A → Outcome TestFault B) (g : A → C) (k : B → C)
    → ((x : A) (y : B) → f x ≡ ok y → k y ≡ g x)
    → (xs : List A) (ys : List B) → for_each f xs ≡ ok ys
    → map k ys ≡ map g xs
unfolding for_each
for_each_same f g k each [] [] h = refl
for_each_same f g k each [] (y ∷ ys) h = cc
for_each_same f g k each (x ∷ xs) ys h =
    let (z, one, h1) = bind_ok (f x) _ h in
    let (zs, others, h2) = bind_ok (for_each f xs) _ h1 in
    let first : k z ≡ g x = each x z one in
    let rest : map k zs ≡ map g xs = for_each_same f g k each xs zs others in
    ap (map k) (sym (ok_inj h2)) ∙ ap (λ c. c ∷ map k zs) first ∙ ap (λ l. g x ∷ l) rest

-- The ids of the policies under test, their feeds and what is expected of them.
abbrev pub identities : {P : Type 0} → List (TestPolicy P) → List (Hash × DroughtFeed × Bool)
identities ps = map identity ps

module _ {P : Type 0} (net : Network P) (payee : Address) where
  decided_policies_ok :
      (nonce : Bytes) (decided : List (TestPolicy P))
      → decided_policies net payee nonce ≡ ok decided
      → (identities decided ≡ identities {P = P} (test_policies nonce))
        × All (IsDecided net payee) decided
  unfolding decided_policies
  decided_policies_ok nonce decided h =
      let (u, set, h1) = bind_ok (already_set net net.set_extension_id) _ h in
      let (prepared, one, h2) =
        bind_ok (for_each (prepare_policy net) (test_policies nonce)) _ h1 in
      let (submitted, two, h3) = bind_ok (for_each (submit_policy net 3) prepared) _ h2 in
      let (v, info, h4) = bind_ok (require fetching_key net.has_tee_info) _ h3 in
      let (w, key, h5) = bind_ok (require parsing_key net.key_parses) _ h4 in
      let (us, registered, h6) = bind_ok (for_each (register_model net) submitted) _ h5 in
      let (proved, three, h7) = bind_ok (for_each (prove_policy net) submitted) _ h6 in
      let (x, raw, h8) = bind_ok (assert_raw_rainfall_path_removed net) _ h7 in
      let (y, foreign, h9) = bind_ok (assert_foreign_attestation_rejected net proved) _ h8 in
      (
        for_each_same (evaluate_policy net payee) (identity {P = P}) (identity {P = P})
              (evaluate_policy-identity net payee) proved decided h9
            ∙ for_each_same (prove_policy net) (identity {P = P}) (identity {P = P})
                (prove_policy-identity net) submitted proved three
            ∙ for_each_same (submit_policy net 3) (identity {P = P}) (identity {P = P})
                (submit_policy-identity net 3) prepared submitted two
            ∙ for_each_same (prepare_policy net) (identity {P = P}) (identity {P = P})
                (prepare_policy-identity net) (test_policies nonce) prepared one,
        for_each_results (evaluate_policy net payee) (IsDecided net payee)
            (evaluate_policy_ok net payee) proved decided h9,
      )

  -- A run that passes leaves the two policies under test, for each of which the enclave's signed answer decodes to the
  -- amount that the model owes at the rainfall that was attested for it, zero just where the season owes
  -- nothing; and the relayed decision moved exactly its amount from the executor to the recipient and is what the chain recorded.
  pub run_test_ok :
      (nonce : Bytes) (decided : List (TestPolicy P))
      → run_test net payee nonce ≡ ok decided
      → (identities decided ≡ identities {P = P} (test_policies nonce))
        × All (IsDecided net payee) decided
        × ((pool : Pool) × All (IsPaid net payee pool) decided)
  unfolding run_test
  run_test_ok nonce decided h =
      let (pool, covers, h1) = bind_ok (check_pool_can_cover net (pos 5_000_000)) _ h in
      let (ps, went, h2) = bind_ok (decided_policies net payee nonce) _ h1 in
      let (us, settled, h3) = bind_ok (for_each (settle_policy net payee pool) ps) _ h2 in
      let (v, replayed, h4) = bind_ok (assert_replay_rejected net payee ps) _ h3 in
      let is : ps ≡ decided = ok_inj h4 in
      let (same, all) = decided_policies_ok nonce ps went in
      (
        ap (identities {P = P}) (sym is) ∙ same,
        subst (λ l. All (IsDecided net payee) l) is all,
        (
          pool,
          subst (λ l. All (IsPaid net payee pool) l) is
              (for_each_inputs (settle_policy net payee pool) (IsPaid net payee pool)
                (λ p u. settle_policy_ok net payee pool p) ps us settled),
        ),
      )
