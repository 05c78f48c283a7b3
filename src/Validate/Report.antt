-- ===== src/Validate/Report.antt =====
-- go/tools/pkg/validate/report.go: the report, its summary and its grouping for the terminal.
use aegis_labs.Common.{
  ℕ, ◌+◌, String, Bool, true, false, ◌||◌, List, [], ◌∷◌, ◌++◌, map, if◌then◌else◌, str_eq,
}
use aegis_labs.Validate.Text.{trim_space, is_empty}

pub data Status : Type 0 where
  pass warn fail skip : Status

pub record CheckResult : Type 0 where
  pub step : String
  pub id : String
  pub name : String
  pub status : Status
  pub message : String
  pub fix : String

abbrev pub check_result : String → String → String → Status → String → String → CheckResult
check_result step id name status message fix = record {
  step = step;
  id = id;
  name = name;
  status = status;
  message = message;
  fix = fix;
}

pub record Report : Type 0 where
  pub results : List CheckResult

unfoldable pub add : Report → CheckResult → Report
add r x = record { results = r.results ++ (x ∷ []) }

-- A run of `r.Add(...)` calls.
unfoldable pub add_all : Report → List CheckResult → Report
unfolding add
add_all r [] = r
add_all r (x ∷ xs) = add_all (add r x) xs

abbrev pub is_fail : Status → Bool
is_fail fail = true
is_fail _ = false

unfoldable pub any_fail : List CheckResult → Bool
any_fail [] = false
any_fail (x ∷ rest) = is_fail x.status || any_fail rest

unfoldable pub has_failures : Report → Bool
unfolding any_fail
has_failures r = any_fail r.results

-- The four numbers that `Summary` prints.
pub record Counts : Type 0 where
  pub passed : ℕ
  pub warning : ℕ
  pub failed : ℕ
  pub skipped : ℕ

abbrev pub tally : Status → Counts → Counts
tally pass c = record c { passed = c.passed + 1 }
tally warn c = record c { warning = c.warning + 1 }
tally fail c = record c { failed = c.failed + 1 }
tally skip c = record c { skipped = c.skipped + 1 }

unfoldable pub summary_from : Counts → List CheckResult → Counts
summary_from c [] = c
summary_from c (x ∷ rest) = summary_from (tally x.status c) rest

unfoldable pub summary : Report → Counts
unfolding summary_from
summary r = summary_from (record { passed = 0; warning = 0; failed = 0; skipped = 0 }) r.results

abbrev pub label_of : Status → String
label_of pass = "PASS"
label_of warn = "WARN"
label_of fail = "FAIL"
label_of skip = "SKIP"

abbrev pub seen : String → List String → Bool
seen step [] = false
seen step (s ∷ rest) = str_eq s step || seen step rest

-- The steps in the order of their first result; `steps` holds those found so far.
unfoldable pub steps_from : List String → List CheckResult → List String
steps_from steps [] = steps
steps_from steps (x ∷ rest) =
    steps_from (if seen x.step steps then steps else steps ++ (x.step ∷ [])) rest

-- `if res.Step != step { continue }`
unfoldable pub of_step : String → List CheckResult → List CheckResult
of_step step [] = []
of_step step (x ∷ rest) =
    let others = of_step step rest in if str_eq x.step step then x ∷ others else others

-- A printed group: the heading and the results under it, in order.
abbrev pub Group : Type 0
Group = String × List CheckResult

abbrev pub step_label : String → String
step_label step =
    if str_eq step "deploy"
    then "Contract Deployment"
    else if str_eq step "register"
    then "Extension Registration"
    else if str_eq step "services"
    then "Service Startup"
    else if str_eq step "tee-version"
    then "TEE Version Registration"
    else if str_eq step "tee-machine"
    then "TEE Machine Registration"
    else if str_eq step "test"
    then "Testing"
    else step

-- The lines under a result: its message and its fix, on a failure or a warning, where they are not
-- empty.
abbrev line_of : String → List String
line_of text = if is_empty text then [] else text ∷ []

unfoldable pub details : CheckResult → List String
details x = elim x.status [
  | fail ↦ line_of x.message ++ line_of x.fix
  | warn ↦ line_of x.message ++ line_of x.fix
  | _ ↦ []
]

unfoldable pub groups_of : List CheckResult → List String → List Group
unfolding of_step
groups_of results [] = []
groups_of results (step ∷ rest) = (step_label step, of_step step results) ∷ groups_of results rest

-- The groups that `Fprint` writes, without the colours.
unfoldable pub print_groups : Report → List Group
unfolding groups_of steps_from
print_groups r = groups_of r.results (steps_from [] r.results)

-- An entry of the JSON report.
pub record JsonResult : Type 0 where
  pub step : String
  pub id : String
  pub name : String
  pub status : String
  pub message : String
  pub fix : String

abbrev to_json : CheckResult → JsonResult
to_json x = record {
  step = x.step;
  id = x.id;
  name = x.name;
  status = label_of x.status;
  message = trim_space x.message;
  fix = trim_space x.fix;
}

unfoldable pub json_results : Report → List JsonResult
json_results r = map to_json r.results
