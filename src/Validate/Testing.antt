-- ===== src/Validate/Testing.antt =====
-- go/tools/pkg/validate/checks.go: the TEE machine and test checks, and the stub.
use aegis_labs.Common.{String, not, ◌&&◌, [], ◌∷◌, if◌then◌else◌, str_eq}
use Prim.Native.String.{◌++◌ as concat}
use aegis_labs.Validate.Text.{is_empty, matches_address}
use aegis_labs.Validate.Report.{
  CheckResult, check_result, pass, warn, fail, skip, Report, add, add_all,
}
use aegis_labs.Validate.EnvFile.{parse_extension_env, fix_env}
use aegis_labs.Validate.Machine.{Machine, answers_info}

-- T1
unfoldable pub simulated_tee_check : Machine → CheckResult
simulated_tee_check m =
    let result = check_result "tee-machine" "T1" "SIMULATED_TEE mode" in
    if str_eq (m.getenv "SIMULATED_TEE") "true" && str_eq (m.getenv "LOCAL_MODE") "false"
    then result warn
        "SIMULATED_TEE=true on non-local deployment — machine will be registered with test attestation values. Set SIMULATED_TEE=false for real TEE hardware"
        "Set SIMULATED_TEE=false in .env when deploying to a real GCP TEE"
    else if str_eq (m.getenv "SIMULATED_TEE") "true"
    then result pass "simulated TEE mode (local)" ""
    else result pass "real attestation mode" ""

-- T5
unfoldable pub normal_proxy_check : Machine → CheckResult
normal_proxy_check m =
    let result = check_result "tee-machine" "T5" "NORMAL_PROXY_URL reachable" in
    let url = m.getenv "NORMAL_PROXY_URL" in
    if is_empty url
    then result skip "NORMAL_PROXY_URL not set" ""
    else if answers_info m url
    then result pass (concat "normal proxy reachable at " url) ""
    else result warn
        (concat "normal proxy not reachable at "
          (concat url " — required for FTDC availability check"))
        "Ensure the normal/FTDC proxy is running and NORMAL_PROXY_URL is correct in .env"

-- T10
unfoldable pub host_check : Machine → CheckResult
host_check m =
    let result = check_result "tee-machine" "T10" "host URL reachable" in
    let url = m.getenv "EXT_PROXY_URL" in
    if is_empty url
    then result skip "EXT_PROXY_URL not set" ""
    else if answers_info m url
    then result pass (concat "host URL reachable at " url) ""
    else result warn
        (concat "host URL not reachable at " (
          concat url
            " — machine will be registered with unreachable host. Data providers can't relay instructions"))
        "Ensure the host is accessible and EXT_PROXY_URL or -h flag points to the right URL"

unfoldable pub register_tee_machine_checks : Machine → Report → String → Report
register_tee_machine_checks m r path =
    add_all r (simulated_tee_check m ∷ normal_proxy_check m ∷ host_check m ∷ [])

-- E1
unfoldable pub sender_check : Machine → String → CheckResult
sender_check m path =
    let result = check_result "test" "E1" "INSTRUCTION_SENDER valid" in
    if is_empty path
    then result skip "no --config provided" ""
    else let sender = (parse_extension_env (m.read_lines path)).instruction_sender in
      if m.is_missing path
      then result skip "extension.env not found — run pre-build.sh first" ""
      else if is_empty sender
      then result fail "INSTRUCTION_SENDER not set — run pre-build.sh"
          "Run scripts/pre-build.sh to deploy and register the extension"
      else if not (matches_address sender)
      then result fail "INSTRUCTION_SENDER malformed" fix_env
      else result pass sender ""

-- E3
unfoldable pub results_proxy_check : Machine → CheckResult
results_proxy_check m =
    let result = check_result "test" "E3" "proxy reachable for test results" in
    let url = m.getenv "EXT_PROXY_URL" in
    if is_empty url
    then result skip "EXT_PROXY_URL not set" ""
    else if answers_info m url
    then result pass "proxy reachable for test result polling" ""
    else result warn "proxy not reachable — test results cannot be polled"
        "Start the proxy or check EXT_PROXY_URL"

unfoldable pub register_test_checks : Machine → Report → String → Report
register_test_checks m r path = add_all r (
    sender_check m path
    ∷ results_proxy_check m
    ∷ check_result "test" "E6" "OPType/OPCommand alignment info" pass
        "OPType/OPCommand hashes are validated at runtime — if a 501 error occurs, check the hash values in the error message"
        ""
    ∷ [])

unfoldable pub register_stub_checks : Report → String → String → String → Report
unfolding add
register_stub_checks r step id_range name =
    add r (check_result step id_range name skip "not yet implemented" "")
