-- ===== src/EndToEnd/Program.antt =====
-- go/tools/cmd/run-test/main.go, `main` behind its flags: the steps on the two policies.
use aegis_labs.Common.{◌>>=◌, ◌>>◌, List, Outcome, ok}
use aegis_labs.Common.Bytes.{Bytes, Address}
use aegis_labs.EndToEnd.Network.{
  TestPolicy, test_policies, test_model, present, TestFault, Network, require, for_each,
  fetching_key, parsing_key,
}
use aegis_labs.EndToEnd.Steps.{
  check_pool_can_cover, already_set, prepare_policy, submit_policy, register_model, prove_policy,
  assert_raw_rainfall_path_removed, assert_foreign_attestation_rejected,
}
use aegis_labs.EndToEnd.Settling.{evaluate_policy, settle_policy, assert_replay_rejected}

module _ {P : Type 0} (net : Network P) (test_payout_to : Address) where
  -- The policies with their decisions, up to the settlements.
  unfoldable pub decided_policies : Bytes → Outcome TestFault (List (TestPolicy P))
  unfolding require
  decided_policies nonce = do
    already_set net net.set_extension_id
    prepared ← for_each (prepare_policy net) (test_policies nonce)
    submitted ← for_each (submit_policy net 3) prepared
    require fetching_key net.has_tee_info
    require parsing_key net.key_parses
    registered ← for_each (register_model net) submitted
    proved ← for_each (prove_policy net) submitted
    assert_raw_rainfall_path_removed net
    assert_foreign_attestation_rejected net proved
    for_each (evaluate_policy net test_payout_to) proved

  -- `All tests passed.`
  unfoldable pub run_test : Bytes → Outcome TestFault (List (TestPolicy P))
  unfolding decided_policies present
  run_test nonce = do
    worst_case ← present test_model.sum_insured_units
    pool ← check_pool_can_cover net worst_case
    decided ← decided_policies nonce
    settled ← for_each (settle_policy net test_payout_to pool) decided
    assert_replay_rejected net test_payout_to decided
    ok decided
