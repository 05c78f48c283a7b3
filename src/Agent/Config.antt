-- ===== src/Agent/Config.antt =====
-- go/tools/cmd/aegis/config.go: the project's root, the settings of a command and its proxy. A directory
-- is the list of its names, the innermost first. The file system, godotenv and go-ethereum's
-- reading of addresses are the parameter `Machine`.
pub mod Resolved
use aegis_labs.Common.{
  ◌>>=◌, ◌>>◌, ℕ, String, Bool, true, false, not, ◌&&◌, Option, none, some, List, [], ◌∷◌,
  if◌then◌else◌, ◌==◌, Outcome, ok, err,
}
use aegis_labs.Common.Bytes.{Address}
use aegis_labs.Validate.Text.{is_empty}
use aegis_labs.Agent.Catalog.{is_known}

abbrev pub Directory : Type 0
Directory = List String

-- The variables that are set.
abbrev pub Env : Type 0
Env = String → Option String

pub record CommonFlags : Type 0 where
  pub policy : String
  pub chain_url : String
  pub proxy_url : String
  pub state_url : String
  pub state_file : String
  pub payout_to : String
  pub instr_send : String
  pub settlement : String

pub record Config : Type 0 where
  pub root : Directory
  pub chain_url : String
  pub proxy_url : String
  pub addresses_file : String
  pub state_url : String
  pub instruction_sender : Address
  pub settlement : Address
  pub policy_name : String
  pub payout_to : Address
  pub state_file : String

pub record Machine : Type 0 where
  pub working_directory : Option Directory
  -- a file or directory below one, and a file by its path
  pub exists_below : Directory → String → Bool
  pub exists : String → Bool
  pub enters : Directory → Bool
  pub shell : Env
  -- `godotenv.Load` of a file below the root
  pub load_env : Directory → String → Env → Option Env
  -- `filepath.Join("config", chain, "deployed-addresses.json")`, and the state file below the root
  pub addresses_path : String → String
  pub state_path : Directory → String
  pub is_hex_address : String → Bool
  pub hex_to_address : String → Address
  -- the status of a GET, where the call returns
  pub get_info : String → Option ℕ

pub data ConfigFault : Type 0 where
  reading_working_directory no_root entering_root : ConfigFault
  loading_env : String → ConfigFault
  no_chain_url addresses_unreadable : ConfigFault
  no_sender not_an_address no_settlement unknown_policy no_proxy : ConfigFault

-- `firstNonEmpty` of two.
unfoldable pub first_non_empty : String → String → String
first_non_empty a b = if is_empty a then b else a

getenv_or : Option String → String
getenv_or none = ""
getenv_or (some v) = v

-- `os.Getenv`
unfoldable pub getenv : Env → String → String
unfolding getenv_or
getenv env name = getenv_or (env name)

module _ (m : Machine) where
  unfoldable pub has_layout : Directory → Bool
  has_layout dir = m.exists_below dir "docker-compose.yaml" && m.exists_below dir "go/tools"

  -- The parent of the outermost directory is itself, which ends the walk.
  unfoldable pub root_from : Directory → Option Directory
  unfolding has_layout
  root_from [] = if has_layout [] then some [] else none
  root_from (name ∷ parent) =
      if has_layout (name ∷ parent) then some (name ∷ parent) else root_from parent

  found_root : Option Directory → Outcome ConfigFault Directory
  found_root none = err no_root
  found_root (some dir) = ok dir

  from_working : Option Directory → Outcome ConfigFault Directory
  unfolding found_root root_from
  from_working none = err reading_working_directory
  from_working (some dir) = found_root (root_from dir)

  unfoldable pub project_root : Outcome ConfigFault Directory
  unfolding from_working
  project_root = from_working m.working_directory

  loaded : String → Option Env → Outcome ConfigFault Env
  loaded name none = err (loading_env name)
  loaded name (some env) = ok env

  unfoldable pub load_file : Directory → String → Env → Outcome ConfigFault Env
  unfolding loaded
  load_file root name env =
      if not (m.exists_below root name) then ok env else loaded name (m.load_env root name env)

  unfoldable pub load_files : Directory → Outcome ConfigFault Env
  unfolding load_file
  load_files root = do
    env ← load_file root ".env" m.shell
    with_extension ← load_file root "config/extension.env" env
    load_file root "config/settlement.env" with_extension

  -- A text that must not be empty and must be an address.
  unfoldable pub address_of : ConfigFault → String → Outcome ConfigFault Address
  address_of missing text =
      if is_empty text
      then err missing
      else if not (m.is_hex_address text)
      then err not_an_address
      else ok (m.hex_to_address text)

  -- `ADDRESSES_FILE`, or the file of the chain.
  unfoldable pub addresses_file_of : Env → String
  addresses_file_of env =
      let given = getenv env "ADDRESSES_FILE" in
      if is_empty given
      then m.addresses_path (first_non_empty (getenv env "CHAIN") "coston2")
      else given

  required : ConfigFault → Bool → Outcome ConfigFault (Unit {0})
  required f true = ok tt
  required f false = err f

  payout_address : String → Outcome ConfigFault Address
  payout_address text =
      if not (m.is_hex_address text) then err not_an_address else ok (m.hex_to_address text)

  -- The part behind the environment.
  unfoldable pub settle_on : CommonFlags → Directory → Env → Outcome ConfigFault Config
  unfolding required payout_address addresses_file_of
  settle_on c root env = do
    required no_chain_url (not (is_empty (first_non_empty c.chain_url (getenv env "CHAIN_URL"))))
    required addresses_unreadable (m.exists (addresses_file_of env))
    sender ← address_of no_sender (first_non_empty c.instr_send (getenv env "INSTRUCTION_SENDER"))
    settlement ←
        address_of no_settlement (first_non_empty c.settlement (getenv env "POLICY_SETTLEMENT"))
    payout_to ← payout_address c.payout_to
    required unknown_policy (if is_empty c.policy then true else is_known c.policy)
    ok (record {
      root = root;
      chain_url = first_non_empty c.chain_url (getenv env "CHAIN_URL");
      proxy_url = c.proxy_url;
      addresses_file = addresses_file_of env;
      state_url = c.state_url;
      instruction_sender = sender;
      settlement = settlement;
      policy_name = c.policy;
      payout_to = payout_to;
      state_file = first_non_empty c.state_file (m.state_path root);
    })

  unfoldable pub resolve : CommonFlags → Outcome ConfigFault Config
  unfolding required settle_on load_files project_root
  resolve c = do
    root ← project_root
    required entering_root (m.enters root)
    env ← load_files root
    settle_on c root env

  answers_ok : Option ℕ → Bool
  answers_ok none = false
  answers_ok (some status) = status == 200

  unfoldable pub proxy_reachable : String → Bool
  unfolding answers_ok
  proxy_reachable url = answers_ok (m.get_info url)

  first_reachable : List String → Option String
  unfolding proxy_reachable
  first_reachable [] = none
  first_reachable (url ∷ rest) = if proxy_reachable url then some url else first_reachable rest

  picked : Config → Option String → Outcome ConfigFault Config
  picked s none = err no_proxy
  picked s (some url) = ok (record s { proxy_url = url })

  unfoldable pub require_proxy : Config → Outcome ConfigFault Config
  unfolding first_reachable picked
  require_proxy s =
      if not (is_empty s.proxy_url)
      then ok s
      else picked s (first_reachable ("http://127.0.0.1:6674" ∷ "http://127.0.0.1:6664" ∷ []))
