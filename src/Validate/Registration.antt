-- ===== src/Validate/Registration.antt =====
-- go/tools/pkg/validate/checks.go: the registration checks R1 to R7. `parseExtensionEnv` returns
-- no error on any path, so the branch on its error is not there.
pub mod Senders
use aegis_labs.Common.Bytes.{Address, bytes_eq}
use aegis_labs.Common.{
  ℕ, zero, suc, ◌+◌, ◌-◌, ◌/◌, ◌%◌, ◌^◌, String, Bool, false, not, ◌&&◌, Option, none, some, List,
  [], ◌∷◌, ◌++◌, ltb, ◌==◌, if◌then◌else◌, length,
}
use Prim.Native.String.{◌++◌ as concat}
use aegis_labs.Validate.Text.{
  is_empty, decimal, quote, matches_address, matches_extension_id, hex_value_from, without_prefix,
}
use aegis_labs.Validate.Report.{
  CheckResult, check_result, Status, pass, warn, fail, skip, Report, add_all,
}
use aegis_labs.Validate.EnvFile.{Ids, parse_extension_env}
use aegis_labs.Validate.Machine.{Answer, answer, failure, Machine, Client, Hex, Registry, Allowlist}

-- A result of the step "register", with and without a fix.
abbrev register_result : String → String → Status → String → String → CheckResult
register_result = check_result "register"

counter_result : Answer ℕ → CheckResult
counter_result (failure e) =
    register_result "R1" "next public extension id" fail
      (concat "failed to query nextPublicExtensionId: " e) ""
counter_result (answer counter) =
    if counter == 0
    then register_result "R1" "next public extension id" warn
        "nextPublicExtensionId is 0 — no public extensions registered yet" ""
    else register_result "R1" "next public extension id" pass
        (concat "nextPublicExtensionId = " (decimal counter)) ""

sender_result : Hex → String → Answer Address → CheckResult
sender_result hx instr_sender (failure e) =
    register_result "R2" "instruction sender matches on-chain" fail
      (concat "failed to query instruction sender: " e) ""
sender_result hx instr_sender (answer sender) =
    if bytes_eq sender (hx.hex_to_address instr_sender)
    then register_result "R2" "instruction sender matches on-chain" pass
        (concat "on-chain sender " (concat (hx.hex sender) " matches extension.env")) ""
    else register_result "R2" "instruction sender matches on-chain" fail
        (concat "on-chain sender "
          (concat (hx.hex sender) (concat " != extension.env " instr_sender)))
        "Re-register the extension or update extension.env"

owner_result : Answer Bool → CheckResult
owner_result (failure e) =
    register_result "R3" "deployer is allowed TEE machine owner" fail
      (concat "failed to query allowlist: " e) ""
owner_result (answer allowed) =
    if allowed
    then register_result "R3" "deployer is allowed TEE machine owner" pass
        "deployer is on the TEE machine owner allowlist" ""
    else register_result "R3" "deployer is allowed TEE machine owner" fail
        "deployer is NOT on the TEE machine owner allowlist"
        "Run the register step to add the deployer as a TEE machine owner"

key_type_result : Answer Bool → CheckResult
key_type_result (failure e) =
    register_result "R4" "EVM key type supported" fail
      (concat "failed to query key type support: " e) ""
key_type_result (answer supported) =
    if supported
    then register_result "R4" "EVM key type supported" pass
        "EVM key type is supported for this extension" ""
    else register_result "R4" "EVM key type supported" fail
        "EVM key type is NOT supported for this extension"
        "Run the register step to add EVM key type support"

abbrev pub sends : Address → Answer Address → Bool
sends expected (failure e) = false
sends expected (answer sender) = bytes_eq sender expected

-- `for i := int64(0); i < counter.Int64(); i++`: the ids whose sender is the expected one. The
-- rounds are counted down and the ids up.
unfoldable pub matching_ids : Registry → Address → ℕ → ℕ → List ℕ
matching_ids registry expected zero i = []
matching_ids registry expected (suc rounds) i =
    let others = matching_ids registry expected rounds (i + 1) in
    if sends expected (registry.instructions_sender i) then i ∷ others else others

-- `counter.Int64()` as a number of rounds: the low 64 bits, none if they read as negative.
unfoldable pub int64_rounds : ℕ → ℕ
int64_rounds n = let low = n % 2 ^ 64 in if ltb low (2 ^ 63) then low else 0

abbrev join : List ℕ → String
join [] = ""
join (i ∷ []) = decimal i
join (i ∷ j ∷ rest) = concat (decimal i) (concat ", " (join (j ∷ rest)))

unique_result : String → List ℕ → CheckResult
unique_result instr_sender ids =
    if ltb 1 (length ids)
    then register_result "R7" "unique instruction sender" warn
        (concat "INSTRUCTION_SENDER "
          (concat instr_sender (concat " is used by multiple extensions: " (join ids))))
        ""
    else register_result "R7" "unique instruction sender" pass
        "instruction sender is unique across registered extensions" ""

-- What the chain checks need: `registry != nil && client != nil`.
abbrev pub both : Option Registry → Option Client → Option Registry
both registry none = none
both registry (some client) = registry

unfoldable pub counter_checks : Option Registry → List CheckResult
unfolding counter_result
counter_checks none = []
counter_checks (some reg) = counter_result reg.next_public_extension_id ∷ []

unfoldable pub sender_checks : Hex → Option Registry → String → ℕ → List CheckResult
unfolding sender_result
sender_checks hx none instr_sender id = []
sender_checks hx (some reg) instr_sender id =
    if matches_address instr_sender
    then sender_result hx instr_sender (reg.instructions_sender id) ∷ []
    else []

unfoldable pub owner_checks :
    Option Address → Option Allowlist → Option Client → ℕ → List CheckResult
unfolding owner_result
owner_checks (some key) (some allowlist) (some client) id =
    owner_result (allowlist.is_allowed_owner id key) ∷ []
owner_checks _ _ _ id = []

unfoldable pub key_type_checks : Option Registry → ℕ → List CheckResult
unfolding key_type_result
key_type_checks none id = []
key_type_checks (some reg) id = key_type_result (reg.is_key_type_supported id) ∷ []

abbrev counted : Answer ℕ → ℕ
counted (failure e) = 0
counted (answer counter) = counter

-- R7 runs on a counter that was read and is positive.
unfoldable pub unique_checks : Hex → Option Registry → String → List CheckResult
unfolding unique_result
unique_checks hx none instr_sender = []
unique_checks hx (some reg) instr_sender =
    let counter = counted reg.next_public_extension_id in
    if ltb 0 counter && matches_address instr_sender
    then unique_result instr_sender
        (matching_ids reg (hx.hex_to_address instr_sender) (int64_rounds counter) 0)
      ∷ []
    else []

-- The checks behind the format of EXTENSION_ID.
chain_checks :
    Hex
    → Option Client
    → Option Address
    → Option Registry
    → Option Allowlist
    → Ids
    → List CheckResult
unfolding sender_checks owner_checks key_type_checks unique_checks
chain_checks hx client key reg allowlist ids =
    let id = hex_value_from 0 (without_prefix ids.extension_id) in
    sender_checks hx reg ids.instruction_sender id
    ++ (owner_checks key allowlist client id
        ++ (key_type_checks reg id ++ unique_checks hx reg ids.instruction_sender))

checks_of :
    Hex
    → Option Client
    → Option Address
    → Option Registry
    → Option Allowlist
    → Ids
    → List CheckResult
unfolding counter_checks chain_checks
checks_of hx client key reg allowlist ids =
    if is_empty ids.extension_id && is_empty ids.instruction_sender
    then register_result "R1-R7" "registration checks" skip
        "config/extension.env not found — run pre-build.sh first" ""
      ∷ []
    else counter_checks reg
      ++ (if not (matches_extension_id ids.extension_id)
          then register_result "R2" "EXTENSION_ID format" fail
              (concat "malformed EXTENSION_ID: " (quote ids.extension_id))
              "Delete config/extension.env and re-run scripts/pre-build.sh"
            ∷ []
          else chain_checks hx client key reg allowlist ids)

-- `RegisterRegistrationChecks`; the key is known by its address.
unfoldable pub register_registration_checks :
    Hex
    → Machine
    → Report
    → Option Client
    → Option Address
    → Option Registry
    → Option Allowlist
    → String
    → Report
unfolding checks_of
register_registration_checks hx m r client key registry allowlist path =
    if is_empty path
    then add_all r
        (register_result "R1-R7" "registration checks" skip "no --config path provided" "" ∷ [])
    else add_all r (
        checks_of hx client key (both registry client) allowlist
          (parse_extension_env (m.read_lines path)))
