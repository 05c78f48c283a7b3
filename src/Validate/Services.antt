-- ===== src/Validate/Services.antt =====
-- go/tools/pkg/validate/checks.go: the service, TEE version, TEE machine and test checks.
use aegis_labs.Common.{String, not, ◌&&◌, ◌||◌, [], ◌∷◌, if◌then◌else◌, str_eq}
use Prim.Native.String.{◌++◌ as concat}
use aegis_labs.Validate.Text.{is_empty, quote, matches_extension_id}
use aegis_labs.Validate.Report.{CheckResult, check_result, pass, warn, fail, skip, Report, add_all}
use aegis_labs.Validate.EnvFile.{parse_extension_env, fix_env}
use aegis_labs.Validate.Machine.{Machine, answers_info, is_local}

-- S2
unfoldable pub services_id_check : Machine → String → CheckResult
services_id_check m path =
    let result = check_result "services" "S2" "EXTENSION_ID is set and well-formed" in
    if is_empty path
    then result skip "run pre-build.sh first" ""
    else let id = (parse_extension_env (m.read_lines path)).extension_id in
      if is_empty id
      then result fail "EXTENSION_ID is empty or not found in extension.env" fix_env
      else if not (matches_extension_id id)
      then result fail (concat "EXTENSION_ID has invalid format: " (quote id)) fix_env
      else result pass id ""

abbrev or_default : String → String → String
or_default text default = if is_empty text then default else text

-- S5
unfoldable pub port_check : Machine → CheckResult
port_check m =
    let result = check_result "services" "S5" "extension port not in use" in
    let port = or_default (m.getenv "EXTENSION_PORT") "7702" in
    if m.dials (concat "localhost:" port)
    then result warn
        (concat "port " (concat port " is already in use — extension server will fail to bind"))
        "Stop the process using that port or change EXTENSION_PORT"
    else result pass "port available" ""

-- S7
unfoldable pub ports_check : Machine → CheckResult
ports_check m =
    let result = check_result "services" "S7" "port configuration" pass in
    let ext_port = m.getenv "EXTENSION_PORT" in
    let sign_port = m.getenv "SIGN_PORT" in
    if not (is_empty ext_port) || not (is_empty sign_port)
    then result (concat "EXTENSION_PORT=" (concat ext_port (concat ", SIGN_PORT=" sign_port))) ""
    else result "using defaults (standalone: 8080/9090, Docker: 7702/7701)" ""

-- S10
unfoldable pub proxy_key_check : Machine → CheckResult
proxy_key_check m =
    let result = check_result "services" "S10" "PROXY_PRIVATE_KEY set on non-local" in
    if is_local (m.getenv "LOCAL_MODE")
    then result pass "local mode, dev key OK" ""
    else if str_eq (m.getenv "LOCAL_MODE") "false" && is_empty (m.getenv "PROXY_PRIVATE_KEY")
    then result warn "PROXY_PRIVATE_KEY not set in non-local mode — proxy will use default key"
        "Set PROXY_PRIVATE_KEY in .env for non-local deployments"
    else result pass "PROXY_PRIVATE_KEY is configured" ""

-- S9
unfoldable pub services_proxy_check : Machine → CheckResult
services_proxy_check m =
    let result = check_result "services" "S9" "EXT_PROXY_URL reachable" in
    let url = m.getenv "EXT_PROXY_URL" in
    if is_empty url
    then result skip "EXT_PROXY_URL not set" ""
    else if answers_info m url
    then result pass (concat "proxy reachable at " url) ""
    else result warn (concat "proxy not reachable at " (concat url " — is the proxy running?"))
        "Start the proxy or check EXT_PROXY_URL"

unfoldable pub register_services_checks : Machine → Report → String → Report
register_services_checks m r path = add_all r (
    services_id_check m path
    ∷ port_check m
    ∷ ports_check m
    ∷ services_proxy_check m
    ∷ proxy_key_check m
    ∷ [])

-- V2
unfoldable pub owner_key_check : Machine → CheckResult
owner_key_check m =
    let result = check_result "tee-version" "V2" "extension owner key" in
    if not (is_empty (m.getenv "EXTENSION_OWNER_KEY"))
    then result pass "EXTENSION_OWNER_KEY is configured" ""
    else if not (is_empty (m.getenv "DEPLOYMENT_PRIVATE_KEY"))
    then result pass "using DEPLOYMENT_PRIVATE_KEY (EXTENSION_OWNER_KEY not set)" ""
    else if not (str_eq (m.getenv "LOCAL_MODE") "true") && not (is_empty (m.getenv "LOCAL_MODE"))
    then result warn
        "neither EXTENSION_OWNER_KEY nor DEPLOYMENT_PRIVATE_KEY set — AddTeeVersion will use dev key which isn't the extension owner on Coston2"
        "Set EXTENSION_OWNER_KEY or DEPLOYMENT_PRIVATE_KEY in .env"
    else result pass "using dev key (local mode)" ""

-- V4
unfoldable pub version_id_check : Machine → String → CheckResult
version_id_check m path =
    let result = check_result "tee-version" "V4" "EXTENSION_ID valid" in
    if is_empty path
    then result skip "no --config provided" ""
    else let id = (parse_extension_env (m.read_lines path)).extension_id in
      if is_empty id
      then if m.is_missing path
        then result skip "extension.env not found — run pre-build.sh first" ""
        else result fail "EXTENSION_ID not set" fix_env
      else if not (matches_extension_id id)
      then result fail "EXTENSION_ID malformed" fix_env
      else result pass id ""

-- V6
unfoldable pub version_proxy_check : Machine → CheckResult
version_proxy_check m =
    let result = check_result "tee-version" "V6" "proxy reachable" in
    let url = m.getenv "EXT_PROXY_URL" in
    if is_empty url
    then result skip "EXT_PROXY_URL not set — allow-tee-version uses -p flag" ""
    else if answers_info m url
    then result pass (concat "proxy reachable at " url) ""
    else result warn (concat "proxy not reachable at " (concat url " — start services first"))
        "Start the proxy or check EXT_PROXY_URL"

unfoldable pub register_tee_version_checks : Machine → Report → String → Report
register_tee_version_checks m r path =
    add_all r (owner_key_check m ∷ version_id_check m path ∷ version_proxy_check m ∷ [])
