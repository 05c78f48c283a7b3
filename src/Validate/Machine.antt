-- ===== src/Validate/Machine.antt =====
-- What go/tools/pkg/validate asks of the machine and of the chain: parameters of the model. A text
-- in a failed
-- answer is the error's.
use aegis_labs.Common.Bytes.{Bytes, Address}
use aegis_labs.Common.{ℕ, String, Bool, false, ◌||◌, Option, none, some, List, ◌==◌, str_eq}
use aegis_labs.Validate.Text.{is_empty}
use Prim.Native.String.{◌++◌ as concat}

pub data Answer {ℓ} (A : Type ℓ) : Type ℓ where
  answer : A → Answer A
  failure : String → Answer A

pub record Machine : Type 0 where
  pub getenv : String → String
  -- the lines of a file that the scanner reads, if the file opens
  pub read_lines : String → Option (List String)
  -- `os.IsNotExist` of the error of a stat
  pub is_missing : String → Bool
  -- a TCP connection to an address succeeds
  pub dials : String → Bool
  -- the status of a GET, `none` for a transport error
  pub http_get : String → Option ℕ

-- An Ethereum client and go-ethereum's address texts.
pub record Client : Type 0 where
  pub code_at : Address → Answer Bytes
  pub balance_at : Address → Answer ℕ
  pub chain_id : Answer ℕ

pub record Hex : Type 0 where
  pub hex : Address → String
  pub hex_to_address : String → Address

-- The bindings of the extension manager and of the owner allowlist.
pub record Registry : Type 0 where
  pub next_public_extension_id : Answer ℕ
  pub instructions_sender : ℕ → Answer Address
  pub is_key_type_supported : ℕ → Answer Bool

pub record Allowlist : Type 0 where
  pub is_allowed_owner : ℕ → Address → Answer Bool

-- The probe that four steps make: `GET <url>/info` answers 200.
unfoldable pub answers_info : Machine → String → Bool
answers_info m url = elim (m.http_get (concat url "/info")) [
  | none ↦ false
  | some status ↦ status == 200
]

-- `localMode == "true" || localMode == ""`
abbrev pub is_local : String → Bool
is_local mode = str_eq mode "true" || is_empty mode
