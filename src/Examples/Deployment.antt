-- ===== src/Examples/Deployment.antt =====
-- The checks' theorems at a machine, a chain and an environment file.
use aegis_labs.Common.{String, ◌≡◌, refl, some, none, List, [], ◌∷◌, true, false, replicate, All}
use aegis_labs.Common.Bytes.{bytes_eq}
use aegis_labs.Validate.Report.{Report, has_failures, any_fail, add_all}
use aegis_labs.Validate.EnvFile.{
  parse_extension_env, or_empty, lookup, read_vars, parse_extension_env-read_vars,
}
use aegis_labs.Validate.Machine.{Machine, Client, Hex, Registry, answer}
use aegis_labs.Validate.Deploy.{
  Entry, verdict, register_deploy_checks, address_not_zero, address_has_code, key_has_funds,
  check_deployer_key_source, check_chain_id, code_checks, zero_labels,
}
use aegis_labs.Validate.Deploy.Soundness.{
  IsNonZero, HasCode, IsFunded, register_deploy_checks_sound,
}

-- The second assignment of a variable counts.
abbrev env_lines : List String
env_lines = "# ids" ∷ "EXTENSION_ID=0x01" ∷ " EXTENSION_ID = 0x02 " ∷ "OTHER=1" ∷ []

parse_extension_env-read_vars_example :
    ((parse_extension_env (some env_lines)).extension_id
      ≡ or_empty (lookup "EXTENSION_ID" (read_vars env_lines [])))
    × ((parse_extension_env (some env_lines)).instruction_sender
        ≡ or_empty (lookup "INSTRUCTION_SENDER" (read_vars env_lines [])))
parse_extension_env-read_vars_example = parse_extension_env-read_vars env_lines

-- A machine without variables, files or network.
abbrev bare : Machine
bare = record {
  getenv = λ name. "";
  read_lines = λ path. some env_lines;
  is_missing = λ path. false;
  dials = λ place. false;
  http_get = λ url. none;
}

abbrev three_extensions : Registry
three_extensions = record {
  next_public_extension_id = answer 3;
  instructions_sender = λ id. answer (id ∷ []);
  is_key_type_supported = λ id. answer true;
}

abbrev hex_texts : Hex
hex_texts = record { hex = λ addr. "0x"; hex_to_address = λ text. [] }

abbrev contracts : List Entry
contracts = ("Manager", replicate 20 1) ∷ []

abbrev devnet : Client
devnet = record {
  code_at = λ addr. answer (96 ∷ []);
  balance_at = λ addr. answer 20_000_000_000_000_000;
  chain_id = answer 31337;
}

abbrev empty_report : Report
empty_report = record { results = [] }

deploys :
    has_failures (
      register_deploy_checks hex_texts bare empty_report
        (some devnet)
        (some (replicate 20 2))
        contracts
        contracts
        "")
    ≡ false
unfolding register_deploy_checks has_failures any_fail add_all address_not_zero address_has_code
    key_has_funds check_deployer_key_source check_chain_id code_checks zero_labels bytes_eq verdict
deploys = refl

register_deploy_checks_sound_example :
    All IsNonZero contracts
    × All (HasCode hex_texts (some devnet)) contracts
    × IsFunded hex_texts (some devnet) (some (replicate 20 2))
register_deploy_checks_sound_example =
    register_deploy_checks_sound hex_texts bare empty_report (some devnet) (some (replicate 20 2))
      contracts contracts "" deploys
