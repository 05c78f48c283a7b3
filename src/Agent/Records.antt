-- ===== src/Agent/Records.antt =====
-- go/tools/cmd/aegis/policy.go and cmd_register.go: the policies of an operator and the file that
-- holds them. The JSON codec and the file system are the parameters `Json` and `Disk`.
use aegis_labs.Common.{
  ℕ, String, ◌≡◌, refl, Bool, false, not, Option, none, some, List, [], ◌∷◌, ◌++◌, if◌then◌else◌,
  Outcome, ok, err, str_eq, str_eq_refl, str_eq_iff, Bool-cases, inl, inr, then_ok, else_ok, arith,
}
use aegis_labs.Common.Bytes.{Bytes}

pub record PolicyRecord : Type 0 where
  pub name : String
  pub policy_id : String
  pub created_at : ℕ
  pub request_hash : String
  pub abi_encoded_request : String
  pub model_registered : Bool
  pub register_instruction_id : String
  pub voting_round : ℕ
  pub evaluate_instruction_id : String
  pub payout_units : String
  pub settle_tx : String
  pub settled : Bool

-- Go's map of records by name, as an association list with each key once.
abbrev pub Policies : Type 0
Policies = List (String × PolicyRecord)

-- `s.Policies[name]`; `none` is nil.
unfoldable pub get : String → Policies → Option PolicyRecord
get name [] = none
get name ((n, r) ∷ rest) = if str_eq n name then some r else get name rest

unfoldable pub put_at : String → PolicyRecord → Policies → Policies
put_at name r [] = (name, r) ∷ []
put_at name r ((n, old) ∷ rest) =
    if str_eq n name then (n, r) ∷ rest else (n, old) ∷ put_at name r rest

-- The source holds pointers: on a file with a record under another name than its own, it changes both. On all
-- others this is what it does.
abbrev pub put : PolicyRecord → Policies → Policies
put r ps = put_at r.name r ps

-- What reading the state file gives.
pub data Stored : Type 0 where
  absent unreadable : Stored
  contents : Bytes → Stored

pub data StateFault : Type 0 where
  reading parsing encoding creating_directory writing : StateFault

-- The JSON codec; a file without a map of policies parses to `some none`.
pub record Json : Type 0 where
  pub marshal : Policies → Option Bytes
  pub unmarshal : Bytes → Option (Option Policies)

pub record Disk : Type 0 where
  pub makes_directory : Bool
  pub writes : Bool

parsed_state : Option (Option Policies) → Outcome StateFault Policies
parsed_state none = err parsing
parsed_state (some none) = ok []
parsed_state (some (some ps)) = ok ps

unfoldable pub load_state : Json → Stored → Outcome StateFault Policies
unfolding parsed_state
load_state json absent = ok []
load_state json unreadable = err reading
load_state json (contents raw) = parsed_state (json.unmarshal raw)

saved_bytes : Disk → Option Bytes → Outcome StateFault Stored
saved_bytes disk none = err encoding
saved_bytes disk (some raw) =
    if not disk.makes_directory
    then err creating_directory
    else if disk.writes
    then ok (contents (raw ++ (10 ∷ [])))
    else err writing

-- The file that `save` leaves, or its error.
unfoldable pub save : Json → Disk → Policies → Outcome StateFault Stored
unfolding saved_bytes
save json disk ps = saved_bytes disk (json.marshal ps)

get-put_at :
    (name : String) (r : PolicyRecord) (ps : Policies) → get name (put_at name r ps) ≡ some r
unfolding get put_at
get-put_at name r [] = rw (str_eq_refl name) refl
get-put_at name r ((n, old) ∷ rest) = elim (Bool-cases (str_eq n name)) [
  | inl e ↦ rw e (rw e refl)
  | inr e ↦ rw e (rw e (get-put_at name r rest))
]

pub get-put : (r : PolicyRecord) (ps : Policies) → get r.name (put r ps) ≡ some r
get-put r ps = get-put_at r.name r ps

get_other-put_at :
    (name other : String) (r : PolicyRecord) (ps : Policies)
    → str_eq other name ≡ false
    → get name (put_at other r ps) ≡ get name ps
unfolding get put_at
get_other-put_at name other r [] h = rw h refl
get_other-put_at name other r ((n, old) ∷ rest) h = elim (Bool-cases (str_eq n other)) [
  | inl e ↦
      let same : n ≡ other = (str_eq_iff n other).0 e in
      let off : str_eq n name ≡ false = rw same h in rw e (rw off refl)
  | inr e ↦ rw e (rw (get_other-put_at name other r rest h) refl)
]

pub get-put_other :
    (name : String) (r : PolicyRecord) (ps : Policies)
    → str_eq r.name name ≡ false
    → get name (put r ps) ≡ get name ps
get-put_other name r ps h = get_other-put_at name r.name r ps h

-- Parsing undoes marshalling, also behind the line break that `save` adds.
pub record JsonLaws (json : Json) : Type 0 where
  pub unmarshal-marshal :
      (ps : Policies) (raw : Bytes)
      → json.marshal ps ≡ some raw
      → json.unmarshal (raw ++ (10 ∷ [])) ≡ some (some ps)

saved_bytes_ok :
    (disk : Disk) (o : Option Bytes) (f : Stored)
    → saved_bytes disk o ≡ ok f
    → (raw : Bytes) × (o ≡ some raw) × (f ≡ contents (raw ++ (10 ∷ [])))
unfolding saved_bytes
saved_bytes_ok disk none f h = cc
saved_bytes_ok disk (some raw) f h =
    let (made, h1) = else_ok (not disk.makes_directory) creating_directory _ h in
    let (written, h2) = then_ok disk.writes writing _ h1 in (raw, refl, ground (arith, h2))

pub loads-save :
    (json : Json) (disk : Disk) (ps : Policies) (f : Stored)
    → JsonLaws json
    → save json disk ps ≡ ok f
    → load_state json f ≡ ok ps
unfolding save load_state parsed_state
loads-save json disk ps f laws h =
    let (raw, marshalled, is) = saved_bytes_ok disk (json.marshal ps) f h in
    rw (is, laws.unmarshal-marshal ps raw marshalled) refl

-- What one command saved, the next one loads: the record that was put last is found under its name,
-- and every other name has the record that it had.
pub load_state-save :
    (json : Json) (disk : Disk) (r : PolicyRecord) (ps : Policies) (f : Stored)
    → JsonLaws json
    → save json disk (put r ps) ≡ ok f
    → (load_state json f ≡ ok (put r ps))
      × (get r.name (put r ps) ≡ some r)
      × ((name : String) → str_eq r.name name ≡ false → get name (put r ps) ≡ get name ps)
load_state-save json disk r ps f laws h = (
  loads-save json disk (put r ps) f laws h,
  get-put r ps,
  λ name other. get-put_other name r ps other,
)
