-- ===== src/Validate/EnvFile.antt =====
-- go/tools/pkg/validate/checks.go: the two readers of config/extension.env. `none` stands for a
-- file that cannot be opened; the scanner's lines are the parameter.
use aegis_labs.Common.{
  String, ◌≡◌, refl, Bool, true, false, not, ◌||◌, Option, none, some, List, [], ◌∷◌, arith,
  if◌then◌else◌, str_eq, str_eq_iff,
}
use aegis_labs.Validate.Text.{
  trim_space, is_empty, is_comment, split_assignment, quote, matches_address, matches_extension_id,
}
use aegis_labs.Validate.Report.{CheckResult, check_result, pass, fail, skip}
use Prim.Native.String.{◌++◌ as concat}

-- A line's key and value, both trimmed; `none` for a blank line, a comment or a line with no `=`.
trimmed : Option (String × String) → Option (String × String)
trimmed none = none
trimmed (some (key, val)) = some (trim_space key, trim_space val)

unfoldable pub parse_line : String → Option (String × String)
unfolding trimmed
parse_line text =
    let line = trim_space text in
    if is_empty line || is_comment line then none else trimmed (split_assignment line)

abbrev pub Vars : Type 0
Vars = List (String × String)

unfoldable pub lookup : String → Vars → Option String
lookup k [] = none
lookup k ((j, v) ∷ rest) = if str_eq j k then some v else lookup k rest

unfoldable pub insert : String → String → Vars → Vars
insert k v [] = (k, v) ∷ []
insert k v ((j, w) ∷ rest) = if str_eq j k then (k, v) ∷ rest else (j, w) ∷ insert k v rest

abbrev assign : Option (String × String) → Vars → Vars
assign none vars = vars
assign (some (k, v)) vars = insert k v vars

-- The map that `CheckExtensionEnvFormat` fills.
unfoldable pub read_vars : List String → Vars → Vars
unfolding parse_line
read_vars [] vars = vars
read_vars (line ∷ rest) vars = read_vars rest (assign (parse_line line) vars)

-- The two values that `parseExtensionEnv` returns.
pub record Ids : Type 0 where
  pub extension_id : String
  pub instruction_sender : String

abbrev pick : Option (String × String) → Ids → Ids
pick none ids = ids
pick (some (k, v)) ids =
    if str_eq k "EXTENSION_ID"
    then record ids { extension_id = v }
    else if str_eq k "INSTRUCTION_SENDER"
    then record ids { instruction_sender = v }
    else ids

read_ids : List String → Ids → Ids
unfolding parse_line
read_ids [] ids = ids
read_ids (line ∷ rest) ids = read_ids rest (pick (parse_line line) ids)

abbrev pub no_ids : Ids
no_ids = record { extension_id = ""; instruction_sender = "" }

unfoldable pub parse_extension_env : Option (List String) → Ids
unfolding read_ids
parse_extension_env none = no_ids
parse_extension_env (some lines) = read_ids lines no_ids

abbrev pub fix_env : String
fix_env = "Delete config/extension.env and re-run scripts/pre-build.sh"

-- The check of one variable against its pattern.
check_var : String → (String → Bool) → Option String → CheckResult
check_var key matches none =
    check_result "deploy" "D7" (concat key " in extension.env") fail
      (concat key " not found in extension.env") fix_env
check_var key matches (some val) =
    if not (matches val)
    then check_result "deploy" "D7" (concat key " in extension.env") fail
        (concat key (concat " has invalid format: " (quote val))) fix_env
    else check_result "deploy" "D7" (concat key " in extension.env") pass val ""

unfoldable pub check_extension_env_format : String → Option (List String) → List CheckResult
unfolding check_var
check_extension_env_format path none =
    check_result "deploy" "D7" "extension.env exists" skip (concat "file not found: " path) "" ∷ []
check_extension_env_format path (some lines) =
    let vars = read_vars lines [] in
    check_var "INSTRUCTION_SENDER" matches_address (lookup "INSTRUCTION_SENDER" vars)
    ∷ check_var "EXTENSION_ID" matches_extension_id (lookup "EXTENSION_ID" vars)
    ∷ []

abbrev pub or_empty : Option String → String
or_empty none = ""
or_empty (some v) = v

lookup-insert :
    (k j v : String) (vars : Vars)
    → lookup j (insert k v vars) ≡ (if str_eq k j then some v else lookup j vars)
unfolding lookup insert
lookup-insert k j v [] = refl
lookup-insert k j v ((i, w) ∷ rest) =
    ground (arith, str_eq_iff k j, str_eq_iff i k, str_eq_iff i j, lookup-insert k j v rest)

keys_differ : (k : String) → str_eq k "EXTENSION_ID" ≡ true → str_eq k "INSTRUCTION_SENDER" ≡ false
keys_differ k h = rw ((str_eq_iff k "EXTENSION_ID").0 h)

abbrev Agree : Ids → Vars → Type 0
Agree ids vars =
    (ids.extension_id ≡ or_empty (lookup "EXTENSION_ID" vars))
    × (ids.instruction_sender ≡ or_empty (lookup "INSTRUCTION_SENDER" vars))

pick-assign :
    (o : Option (String × String)) (ids : Ids) (vars : Vars)
    → Agree ids vars
    → Agree (pick o ids) (assign o vars)
pick-assign none ids vars h = h
pick-assign (some (k, v)) ids vars h = ground (
  arith,
  lookup-insert k "EXTENSION_ID" v vars,
  lookup-insert k "INSTRUCTION_SENDER" v vars,
  keys_differ k,
)

read-Agree :
    (lines : List String) (ids : Ids) (vars : Vars)
    → Agree ids vars
    → Agree (read_ids lines ids) (read_vars lines vars)
unfolding read_ids read_vars
read-Agree [] ids vars h = h
read-Agree (line ∷ rest) ids vars h =
    read-Agree rest (pick (parse_line line) ids) (assign (parse_line line) vars)
      (pick-assign (parse_line line) ids vars h)

-- On every file that opens, the two ids that the later checks use are the values that the format
-- check looks at, with the empty text for a missing one.
pub parse_extension_env-read_vars :
    (lines : List String)
    → ((parse_extension_env (some lines)).extension_id
        ≡ or_empty (lookup "EXTENSION_ID" (read_vars lines [])))
      × ((parse_extension_env (some lines)).instruction_sender
          ≡ or_empty (lookup "INSTRUCTION_SENDER" (read_vars lines [])))
unfolding parse_extension_env
parse_extension_env-read_vars lines = read-Agree lines no_ids [] (unfold lookup in (refl, refl))
