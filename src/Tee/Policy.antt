-- ===== src/Tee/Policy.antt =====
-- go/tools/pkg/fccutils/policy_consistency.go: the proxy's signing policy against the reward epoch.
-- Both are uint64 numbers, and the sum wraps.
use aegis_labs.Common.{
  ℕ, ◌+◌, ◌-◌, ◌%◌, ◌^◌, ◌<◌, ◌≡◌, ◌↔◌, ◌⊎◌, Bool, ◌||◌, Option, none, some, arith, ltb, ◌==◌,
  if◌then◌else◌,
}

unfoldable pub policy_in_sync : ℕ → ℕ → Bool
policy_in_sync onchain_epoch proxy_policy_id =
    proxy_policy_id == onchain_epoch || proxy_policy_id == (onchain_epoch + 1) % 2 ^ 64

-- How far off the proxy is, as the error tells it.
pub data Distance : Type 0 where
  behind ahead : ℕ → Distance

pub record OutOfSync : Type 0 where
  pub proxy_policy_id : ℕ
  pub onchain_epoch : ℕ
  pub distance : Distance

unfoldable pub out_of_sync_error : ℕ → ℕ → OutOfSync
out_of_sync_error onchain_epoch proxy_policy_id = record {
  proxy_policy_id = proxy_policy_id;
  onchain_epoch = onchain_epoch;
  distance =
      if ltb proxy_policy_id onchain_epoch
      then behind (onchain_epoch - proxy_policy_id)
      else ahead (proxy_policy_id - onchain_epoch);
}

-- What the check reads: the epoch (an error, nil, or a number whose low 64 bits count), and the
-- proxy's policy id.
pub data Epoch : Type 0 where
  epoch_error epoch_nil : Epoch
  epoch : ℕ → Epoch

compared : ℕ → Option ℕ → Option OutOfSync
compared onchain_epoch none = none
compared onchain_epoch (some proxy_policy_id) =
    if policy_in_sync onchain_epoch proxy_policy_id
    then none
    else some (out_of_sync_error onchain_epoch proxy_policy_id)

unfoldable pub check_ftdc_proxy_policy_consistency : Epoch → Option ℕ → Option OutOfSync
unfolding compared policy_in_sync out_of_sync_error
check_ftdc_proxy_policy_consistency epoch_error proxy = none
check_ftdc_proxy_policy_consistency epoch_nil proxy = none
check_ftdc_proxy_policy_consistency (epoch onchain) proxy = compared (onchain % 2 ^ 64) proxy

-- With both numbers read, and the epoch below the last uint64 number, the gate returns no error
-- exactly when the proxy's policy is that of the epoch or the next one.
pub check_consistency_iff :
    (onchain proxy : ℕ)
    → onchain + 1 < 2 ^ 64
    → (check_ftdc_proxy_policy_consistency (epoch onchain) (some proxy) ≡ none)
      ↔ ((proxy ≡ onchain) ⊎ (proxy ≡ onchain + 1))
unfolding check_ftdc_proxy_policy_consistency
check_consistency_iff onchain proxy h = (λ e. ground arith, λ e. ground arith)
