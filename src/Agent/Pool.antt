-- ===== src/Agent/Pool.antt =====
-- go/tools/cmd/aegis/pool.go, and `ResolveFxrp`, `BalanceOf` and `Metadata` of
-- go/tools/pkg/payout/fassets.go. The contracts' answers are the parameter `PoolCalls`.
use aegis_labs.Common.{
  ◌>>=◌, ℕ, String, Bool, not, Option, none, some, if◌then◌else◌, Outcome, ok, err,
}
use aegis_labs.Common.Bytes.{Address, bytes_eq, zero_address}

-- The value that a call returns: one of the expected type, or another.
pub data Returned (A : Type 0) : Type 0 where
  value : A → Returned A
  other_type : Returned A

pub record PoolCalls : Type 0 where
  pub binds_settlement : Bool
  pub payout_executor : Option Address
  -- FLARE_CONTRACT_REGISTRY, read as an address, where it is set
  pub registry_override : Option Address
  pub flare_registry : Address
  pub registry_abi_parses : Bool
  -- `getContractAddressByName("AssetManagerFXRP")` of a registry
  pub asset_manager : Address → Option (Returned Address)
  pub manager_abi_parses : Bool
  pub f_asset : Address → Option (Returned Address)
  pub erc20_abi_parses : Bool
  pub symbol : Address → Option (Returned String)
  pub decimals : Address → Option (Returned ℕ)
  pub balance_of : Address → Address → Option (Returned ℕ)

pub data PoolFault : Type 0 where
  binding_settlement reading_executor no_executor parsing_registry_abi resolving_manager : PoolFault
  not_registered parsing_manager_abi reading_asset no_asset parsing_erc20_abi : PoolFault
  reading_symbol symbol_type reading_decimals decimals_type balance_call balance_type : PoolFault

pub record Pool : Type 0 where
  pub token : Address
  pub executor : Address
  pub symbol : String
  pub decimals : ℕ

-- A call's first value, with the error of the call and the one of its type.
typed : {A : Type 0} → PoolFault → PoolFault → Option (Returned A) → Outcome PoolFault A
typed call wrong none = err call
typed call wrong (some (value a)) = ok a
typed call wrong (some other_type) = err wrong

nonzero : PoolFault → Address → Outcome PoolFault Address
nonzero f a = if bytes_eq a zero_address then err f else ok a

abbrev or_default : Address → Option Address → Address
or_default a none = a
or_default a (some b) = b

unfoldable pub resolve_fxrp : PoolCalls → Outcome PoolFault Address
unfolding typed nonzero
resolve_fxrp calls = if not calls.registry_abi_parses then err parsing_registry_abi else do
  named ←
      typed resolving_manager not_registered
        (calls.asset_manager (or_default calls.flare_registry calls.registry_override))
  manager ← nonzero not_registered named
  asset ←
      if calls.manager_abi_parses
      then typed reading_asset no_asset (calls.f_asset manager)
      else err parsing_manager_abi
  nonzero no_asset asset

unfoldable pub metadata : PoolCalls → Address → Outcome PoolFault (String × ℕ)
unfolding typed
metadata calls token = do
  symbol ← typed reading_symbol symbol_type (calls.symbol token)
  decimals ← typed reading_decimals decimals_type (calls.decimals token)
  ok (symbol, decimals)

executor_of : Option Address → Outcome PoolFault Address
unfolding nonzero
executor_of none = err reading_executor
executor_of (some a) = nonzero no_executor a

unfoldable pub resolve_pool : PoolCalls → Outcome PoolFault Pool
unfolding executor_of resolve_fxrp metadata
resolve_pool calls = if not calls.binds_settlement then err binding_settlement else do
  executor ← executor_of calls.payout_executor
  token ← resolve_fxrp calls
  described ← if calls.erc20_abi_parses then metadata calls token else err parsing_erc20_abi
  ok (record { token = token; executor = executor; symbol = described.0; decimals = described.1 })

unfoldable pub balance : PoolCalls → Pool → Address → Outcome PoolFault ℕ
unfolding typed
balance calls pool account = typed balance_call balance_type (calls.balance_of pool.token account)
