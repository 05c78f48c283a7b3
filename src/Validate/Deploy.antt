-- ===== src/Validate/Deploy.antt =====
-- go/tools/pkg/validate/checks.go and validate.go: step 1, the contract deployment.
pub mod Soundness
use aegis_labs.Common.Bytes.{Bytes, Address, zero_address, bytes_eq}
use aegis_labs.Common.{
  ℕ, zero, ◌+◌, ◌-◌, ◌/◌, String, Bool, false, not, ◌||◌, Option, none, some, List, [], ◌∷◌, ◌++◌,
  map, ltb, ◌==◌, if◌then◌else◌, str_eq, length, check,
}
use Prim.Native.String.{◌++◌ as concat}
use aegis_labs.Validate.Text.{is_empty, decimal}
use aegis_labs.Validate.Report.{CheckResult, check_result, pass, warn, fail, Report, add_all}
use aegis_labs.Validate.EnvFile.{check_extension_env_format}
use aegis_labs.Validate.Machine.{Answer, answer, failure, Machine, Client, Hex, is_local}

-- 0.01 ETH
abbrev pub min_deploy_balance : ℕ
min_deploy_balance = 10_000_000_000_000_000

-- An address of the addresses file under its label.
abbrev pub Entry : Type 0
Entry = String × Address

-- `AddressNotZero`: the error, if there is one.
unfoldable pub address_not_zero : Hex → Address → String → Option String
address_not_zero hx addr label =
    if bytes_eq addr zero_address
    then some (
        concat label
          (concat " is the zero address (" (concat (hx.hex addr) ") in the addresses file")))
    else none

code_fault : Hex → Address → String → Answer Bytes → Option String
code_fault hx addr label (failure e) = some (concat "cannot check " (concat label (concat ": " e)))
code_fault hx addr label (answer code) =
    if length code == 0
    then some (
        concat label (
          concat " at " (
            concat (hx.hex addr) (
              concat
                " has no deployed code. This address will be set as immutable in the contract constructor and cannot be changed. "
                "Check your deployed-addresses.json file — are you on the right network?"))))
    else none

-- `AddressHasCode`
unfoldable pub address_has_code : Hex → Option Client → Address → String → Option String
unfolding code_fault
address_has_code hx none addr label =
    some (concat "cannot check " (concat label ": no chain client connected"))
address_has_code hx (some client) addr label = code_fault hx addr label (client.code_at addr)

funds_fault : Hex → Address → ℕ → Answer ℕ → Option String
funds_fault hx addr min_wei (failure e) = some (concat "cannot check deployer balance: " e)
funds_fault hx addr min_wei (answer balance) =
    if ltb balance min_wei
    then some (
        concat "deployer " (
          concat (hx.hex addr) (
            concat " has insufficient funds (balance: " (
              concat (decimal balance) (
                concat " wei, minimum required: "
                  (concat (decimal min_wei) " wei). Fund this account before deploying"))))))
    else none

-- `KeyHasFunds`; the key is known by its address.
unfoldable pub key_has_funds : Hex → Option Client → Address → ℕ → Option String
unfolding funds_fault
key_has_funds hx none addr min_wei = some "cannot check deployer balance: no chain client connected"
key_has_funds hx (some client) addr min_wei = funds_fault hx addr min_wei (client.balance_at addr)

-- `IsUsingDevKey`
unfoldable pub is_using_dev_key : Machine → Bool
is_using_dev_key m = is_empty (m.getenv "DEPLOYMENT_PRIVATE_KEY")

-- The result of a check that passes, or fails by its error.
unfoldable pub verdict : String → String → String → String → Option String → CheckResult
verdict id name found fix none = check_result "deploy" id name pass found ""
verdict id name found fix (some e) = check_result "deploy" id name fail e fix

unfoldable pub zero_check : Hex → Entry → CheckResult
zero_check hx (label, addr) =
    verdict "D3" (concat label " address not zero") (hx.hex addr)
      "Re-run the deploy script or check deployed-addresses.json" (address_not_zero hx addr label)

unfoldable pub code_check : Hex → Option Client → Entry → CheckResult
code_check hx client (label, addr) =
    verdict "D1" (concat label " has deployed code") (concat "code found at " (hx.hex addr))
      "Deploy contracts or check CHAIN_URL / deployed-addresses.json"
      (address_has_code hx client addr label)

-- The labels of the zero addresses, which the second loop skips.
unfoldable pub zero_labels : Hex → List Entry → List String
zero_labels hx [] = []
zero_labels hx ((label, addr) ∷ rest) =
    let labels = zero_labels hx rest in
    elim (address_not_zero hx addr label) [ none ↦ labels | some e ↦ label ∷ labels ]

abbrev pub has_label : String → List String → Bool
has_label label [] = false
has_label label (l ∷ rest) = str_eq l label || has_label label rest

unfoldable pub code_checks : Hex → Option Client → List String → List Entry → List CheckResult
unfolding code_check
code_checks hx client zeros [] = []
code_checks hx client zeros ((label, addr) ∷ rest) =
    let others = code_checks hx client zeros rest in
    if has_label label zeros then others else code_check hx client (label, addr) ∷ others

unfoldable pub check_deployer_key_source : Machine → CheckResult
check_deployer_key_source m =
    if not (is_empty (m.getenv "DEPLOYMENT_PRIVATE_KEY"))
    then check_result "deploy" "D5" "deployer key source" pass "DEPLOYMENT_PRIVATE_KEY is set" ""
    else if is_local (m.getenv "LOCAL_MODE")
    then check_result "deploy" "D5" "deployer key source" pass "using Hardhat dev key (LOCAL_MODE)"
        ""
    else check_result "deploy" "D5" "deployer key source" warn
        "DEPLOYMENT_PRIVATE_KEY not set — using Hardhat dev key which has no funds on Coston2"
        "Set DEPLOYMENT_PRIVATE_KEY in .env to a funded account on the target network"

-- Known chain ids by their number; the code compares their decimal texts.
unfoldable pub chain_name : ℕ → String
chain_name id =
    if id == 31337
    then "Hardhat/Anvil (local devnet)"
    else if id == 114
    then "Coston2 (testnet)"
    else if id == 14
    then "Flare (mainnet)"
    else "unknown network"

unfoldable pub check_chain_id : Client → CheckResult
check_chain_id client = elim client.chain_id [
  | failure e ↦
      check_result "deploy" "D6" "chain ID" fail (concat "failed to get chain ID: " e)
        "Check CHAIN_URL"
  | answer id ↦
      check_result "deploy" "D6" "chain ID" pass
        (concat "chain ID " (concat (decimal id) (concat " (" (concat (chain_name id) ")")))) ""
]

unfoldable pub funds_check : Hex → Option Client → Option Address → List CheckResult
funds_check hx (some client) (some key) =
    verdict "D5" "deployer has sufficient funds" "balance above minimum threshold"
      "Fund the deployer account before deploying"
      (key_has_funds hx (some client) key min_deploy_balance)
    ∷ []
funds_check hx _ _ = []

unfoldable pub chain_check : Option Client → List CheckResult
chain_check none = []
chain_check (some client) = check_chain_id client ∷ []

unfoldable pub env_check : Machine → String → List CheckResult
env_check m path = if is_empty path then [] else check_extension_env_format path (m.read_lines path)

-- `RegisterDeployChecks`. Go ranges over the map of addresses twice, in an order of its own each
-- time: `first` and `second` are the two.
unfoldable pub register_deploy_checks :
    Hex
    → Machine
    → Report
    → Option Client
    → Option Address
    → List Entry
    → List Entry
    → String
    → Report
unfolding zero_check funds_check chain_check env_check
register_deploy_checks hx m r client key first second path = add_all r (
    map (zero_check hx) first
    ++ (code_checks hx client (zero_labels hx first) second
        ++ ((check_deployer_key_source m ∷ [])
            ++ (funds_check hx client key ++ (chain_check client ++ env_check m path)))))
