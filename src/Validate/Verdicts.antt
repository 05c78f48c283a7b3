-- ===== src/Validate/Verdicts.antt =====
-- The failures that the checks of go/tools/pkg/validate/checks.go add to the report, which decide
-- the exit of verify-deploy.
use aegis_labs.Common.{
  ℕ, ◌+◌, ◌≤◌, ◌<◌, String, ◌≡◌, refl, sym, ◌∙◌, ◌↔◌, Bool, true, false, not, ◌&&◌, ◌||◌, List, [],
  ◌∷◌, ◌++◌, arith, str_eq_iff, length,
}
use mathlib.Core.List.{append-nil, append_assoc}
use aegis_labs.Validate.Text.{is_empty, matches_address, matches_extension_id, matches_hex}
use aegis_labs.Validate.Report.{
  CheckResult, Report, add, add_all, is_fail, any_fail, has_failures, Counts, tally, summary_from,
  summary,
}
use aegis_labs.Validate.EnvFile.{parse_extension_env}
use aegis_labs.Validate.Machine.{Machine}
use aegis_labs.Validate.Services.{
  services_id_check, port_check, ports_check, services_proxy_check, proxy_key_check,
  register_services_checks, owner_key_check, version_id_check, version_proxy_check,
  register_tee_version_checks,
}
use aegis_labs.Validate.Testing.{
  simulated_tee_check, normal_proxy_check, host_check, register_tee_machine_checks, sender_check,
  results_proxy_check, register_test_checks,
}

pub any_fail-append :
    (xs ys : List CheckResult) → any_fail (xs ++ ys) ≡ (any_fail xs || any_fail ys)
unfolding any_fail
any_fail-append [] ys = refl
any_fail-append (x ∷ xs) ys = ground (arith, any_fail-append xs ys)

add_all-append : (r : Report) (xs : List CheckResult) → (add_all r xs).results ≡ r.results ++ xs
unfolding add_all add
add_all-append r [] = sym (append-nil r.results)
add_all-append r (x ∷ xs) = add_all-append (add r x) xs ∙ append_assoc r.results (x ∷ []) xs

pub has_failures-add_all :
    (r : Report) (xs : List CheckResult)
    → has_failures (add_all r xs) ≡ (has_failures r || any_fail xs)
unfolding has_failures
has_failures-add_all r xs = rw (add_all-append r xs) (any_fail-append r.results xs)

total : Counts → ℕ
total c = c.passed + c.warning + c.failed + c.skipped

summary_from_complete :
    (c : Counts) (xs : List CheckResult)
    → (total (summary_from c xs) ≡ total c + length xs)
      × (c.failed ≤ (summary_from c xs).failed)
      × ((any_fail xs ≡ true) ↔ (c.failed < (summary_from c xs).failed))
unfolding summary_from any_fail total
summary_from_complete c [] = (omega arith, omega arith, (λ h. cc, λ h. absurd (omega arith)))
summary_from_complete c (x ∷ xs) = ground (arith, summary_from_complete (tally x.status c) xs)

-- The four numbers of the summary count every result once, and the report has failures exactly when
-- the number of failed results is not zero.
pub summary_complete :
    (r : Report)
    → ((summary r).passed + (summary r).warning + (summary r).failed + (summary r).skipped
        ≡ length r.results)
      × ((has_failures r ≡ true) ↔ (0 < (summary r).failed))
unfolding summary has_failures total
summary_complete r =
    let (all, _, fails) =
      summary_from_complete (record { passed = 0; warning = 0; failed = 0; skipped = 0 })
        r.results in
    (omega (arith, all), fails)

empty_no_match : (n : ℕ) (text : String) → is_empty text ≡ true → matches_hex n text ≡ false
unfolding matches_hex
empty_no_match n text h = rw ((str_eq_iff text "").0 h)

module _ (m : Machine) where
  port_warns : is_fail (port_check m).status ≡ false
  unfolding port_check
  port_warns = ground arith

  ports_pass : is_fail (ports_check m).status ≡ false
  unfolding ports_check
  ports_pass = ground arith

  services_proxy_warns : is_fail (services_proxy_check m).status ≡ false
  unfolding services_proxy_check
  services_proxy_warns = ground arith

  proxy_key_warns : is_fail (proxy_key_check m).status ≡ false
  unfolding proxy_key_check
  proxy_key_warns = ground arith

  owner_key_warns : is_fail (owner_key_check m).status ≡ false
  unfolding owner_key_check
  owner_key_warns = ground arith

  version_proxy_warns : is_fail (version_proxy_check m).status ≡ false
  unfolding version_proxy_check
  version_proxy_warns = ground arith

  simulated_tee_warns : is_fail (simulated_tee_check m).status ≡ false
  unfolding simulated_tee_check
  simulated_tee_warns = ground arith

  normal_proxy_warns : is_fail (normal_proxy_check m).status ≡ false
  unfolding normal_proxy_check
  normal_proxy_warns = ground arith

  host_warns : is_fail (host_check m).status ≡ false
  unfolding host_check
  host_warns = ground arith

  results_proxy_warns : is_fail (results_proxy_check m).status ≡ false
  unfolding results_proxy_check
  results_proxy_warns = ground arith

abbrev pub extension_id_of : Machine → String → String
extension_id_of m path = (parse_extension_env (m.read_lines path)).extension_id

abbrev pub instruction_sender_of : Machine → String → String
instruction_sender_of m path = (parse_extension_env (m.read_lines path)).instruction_sender

services_id_fails :
    (m : Machine) (path : String)
    → is_fail (services_id_check m path).status
      ≡ (not (is_empty path) && not (matches_extension_id (extension_id_of m path)))
unfolding services_id_check
services_id_fails m path = ground (arith, empty_no_match 64 (extension_id_of m path))

version_id_fails :
    (m : Machine) (path : String)
    → is_fail (version_id_check m path).status ≡ (
        not (is_empty path)
        && not (matches_extension_id (extension_id_of m path))
        && not (is_empty (extension_id_of m path) && m.is_missing path))
unfolding version_id_check
version_id_fails m path = ground (arith, empty_no_match 64 (extension_id_of m path))

sender_fails :
    (m : Machine) (path : String)
    → is_fail (sender_check m path).status ≡ (
        not (is_empty path)
        && not (m.is_missing path)
        && not (matches_address (instruction_sender_of m path)))
unfolding sender_check
sender_fails m path = ground (arith, empty_no_match 40 (instruction_sender_of m path))

or_false : (b : Bool) → (b || false) ≡ b
or_false true = refl
or_false false = refl

-- After the service checks the report has failures exactly when it had some before, or a config
-- path is given and its EXTENSION_ID is not well formed.
pub register_services_checks-has_failures :
    (m : Machine) (r : Report) (path : String)
    → has_failures (register_services_checks m r path) ≡ (
        has_failures r
        || not (is_empty path) && not (matches_extension_id (extension_id_of m path)))
unfolding register_services_checks any_fail
register_services_checks-has_failures m r path =
    has_failures-add_all r _
    ∙ simp (
      services_id_fails m path,
      port_warns m,
      ports_pass m,
      services_proxy_warns m,
      proxy_key_warns m,
      or_false,
    )

-- After the TEE version checks the report has failures exactly when it had some before, or a
-- config path is given and its EXTENSION_ID is not well formed, unless the id is empty and the
-- file is not there.
pub register_tee_version_checks-has_failures :
    (m : Machine) (r : Report) (path : String)
    → has_failures (register_tee_version_checks m r path) ≡ (
        has_failures r
        || not (is_empty path)
          && not (matches_extension_id (extension_id_of m path))
          && not (is_empty (extension_id_of m path) && m.is_missing path))
unfolding register_tee_version_checks any_fail
register_tee_version_checks-has_failures m r path =
    has_failures-add_all r _
    ∙ simp (owner_key_warns m, version_id_fails m path, version_proxy_warns m, or_false)

-- The TEE machine checks leave it unchanged whether the report has failures.
pub register_tee_machine_checks-has_failures :
    (m : Machine) (r : Report) (path : String)
    → has_failures (register_tee_machine_checks m r path) ≡ has_failures r
unfolding register_tee_machine_checks any_fail
register_tee_machine_checks-has_failures m r path =
    has_failures-add_all r _
    ∙ simp (simulated_tee_warns m, normal_proxy_warns m, host_warns m, or_false)

-- After the test checks the report has failures exactly when it had some before, or a config path
-- is given, the file is there, and its INSTRUCTION_SENDER is not an address.
pub register_test_checks-has_failures :
    (m : Machine) (r : Report) (path : String)
    → has_failures (register_test_checks m r path) ≡ (
        has_failures r
        || not (is_empty path)
          && not (m.is_missing path)
          && not (matches_address (instruction_sender_of m path)))
unfolding register_test_checks any_fail
register_test_checks-has_failures m r path =
    has_failures-add_all r _ ∙ simp (sender_fails m path, results_proxy_warns m, or_false)
