-- ===== src/Agent/Config/Resolved.antt =====
-- `resolve` of go/tools/cmd/aegis/config.go: what the settings of a command are.
use mathlib.Core.Path.{subst}
use aegis_labs.Common.{
  ◌≡◌, refl, ap, sym, ◌∙◌, ◌⊎◌, inl, inr, String, Bool, true, false, not, Option, none, some, List,
  [], ◌∷◌, ok, bind_ok, else_ok, Bool-cases, arith, if◌then◌else◌, ok_inj,
}
use aegis_labs.Common.Bytes.{Address}
use aegis_labs.Validate.Text.{is_empty}
use aegis_labs.Agent.Catalog.{is_known}
use aegis_labs.Agent.Config.{
  Directory, Env, CommonFlags, Config, Machine, ConfigFault, no_chain_url, addresses_unreadable,
  no_sender, no_settlement, unknown_policy, entering_root, first_non_empty, getenv, project_root,
  loaded, load_file, load_files, address_of, addresses_file_of, required, payout_address, settle_on,
  resolve,
}

-- A value, or another where it is not set.
abbrev pub or_else : Option String → Option String → Option String
or_else none other = other
or_else (some v) other = some v

abbrev pub first_set : List (Option String) → Option String
first_set [] = none
first_set (none ∷ rest) = first_set rest
first_set (some v ∷ rest) = some v

or_else-none : (o : Option String) → or_else o none ≡ o
or_else-none none = refl
or_else-none (some v) = refl

or_else_layers :
    (a b c d : Option String) → or_else (or_else (or_else a b) c) d ≡ first_set (a ∷ b ∷ c ∷ d ∷ [])
or_else_layers (some v) b c d = refl
or_else_layers none (some v) c d = refl
or_else_layers none none (some v) d = refl
or_else_layers none none none (some v) = refl
or_else_layers none none none none = refl

module _ (m : Machine) where
  required_ok : (f : ConfigFault) (b : Bool) {u : Unit {0}} → required m f b ≡ ok u → b ≡ true
  unfolding required
  required_ok f true h = refl
  required_ok f false h = absurd cc

  address_of_ok :
      (missing : ConfigFault) (text : String) (a : Address)
      → address_of m missing text ≡ ok a
      → (m.is_hex_address text ≡ true) × (a ≡ m.hex_to_address text)
  unfolding address_of
  address_of_ok missing text a h =
      let (present, h1) = else_ok (is_empty text) missing _ h in
      let (valid, h2) = else_ok (not (m.is_hex_address text)) _ _ h1 in
      (ground (arith, valid), sym (ok_inj h2))

  payout_address_ok :
      (text : String) (a : Address)
      → payout_address m text ≡ ok a
      → (m.is_hex_address text ≡ true) × (a ≡ m.hex_to_address text)
  unfolding payout_address
  payout_address_ok text a h =
      let (valid, h1) = else_ok (not (m.is_hex_address text)) _ _ h in
      (ground (arith, valid), sym (ok_inj h1))

  loaded_ok : (name : String) (o : Option Env) (env : Env) → loaded m name o ≡ ok env → o ≡ some env
  unfolding loaded
  loaded_ok name none env h = absurd cc
  loaded_ok name (some e) env h = ap some (ok_inj h)

  -- `godotenv.Load` sets each variable of a file, whose values are given, that is not set yet.
  abbrev pub Sets : (Directory → String → Env) → Type 0
  Sets values =
      (root : Directory) (name : String) (env env' : Env)
      → m.load_env root name env ≡ some env'
      → (key : String) → env' key ≡ or_else (env key) (values root name key)

  -- The value in a file, where the file is there.
  abbrev pub in_file : (Directory → String → Env) → Directory → String → Env
  in_file values root name key = if m.exists_below root name then values root name key else none

  -- A variable has the value of the shell, or of the first of the three files that sets it.
  abbrev pub layered : (Directory → String → Env) → Directory → Env
  layered values root key = first_set (
      m.shell key
      ∷ in_file values root ".env" key
      ∷ in_file values root "config/extension.env" key
      ∷ in_file values root "config/settlement.env" key
      ∷ [])

module _ (m : Machine) (values : Directory → String → Env) (sets : Sets m values) where
  load_file_ok :
      (root : Directory) (name : String) (env env' : Env)
      → load_file m root name env ≡ ok env'
      → (key : String) → env' key ≡ or_else (env key) (in_file m values root name key)
  unfolding load_file
  load_file_ok root name env env' h key = elim (Bool-cases (m.exists_below root name)) [
    | inl e ↦ rw e (sets root name env env' (loaded_ok m name _ env' (rw e at h)) key)
    | inr e ↦ rw e (ap (λ x. x key) (sym (ok_inj (rw e at h))) ∙ sym (or_else-none (env key)))
  ]

  load_files_ok :
      (root : Directory) (env : Env) → load_files m root ≡ ok env → env ≡ layered m values root
  unfolding load_files
  load_files_ok root env h =
      let (first, one, h1) = bind_ok (load_file m root ".env" m.shell) _ h in
      let (second, two, h2) = bind_ok (load_file m root "config/extension.env" first) _ h1 in
      let each = λ (key : String).
        load_file_ok root "config/settlement.env" second env h2 key
        ∙ ap (λ x. or_else x (in_file m values root "config/settlement.env" key))
            (load_file_ok root "config/extension.env" first second two key
              ∙ ap (λ x. or_else x (in_file m values root "config/extension.env" key))
                  (load_file_ok root ".env" m.shell first one key))
        ∙ or_else_layers (m.shell key) (in_file m values root ".env" key)
            (in_file m values root "config/extension.env" key)
            (in_file m values root "config/settlement.env" key) in
      λ i key. each key i

module _ (m : Machine) where
  -- What the settings hold, from the root, the flags and the variables `env`.
  abbrev pub FromFlags : CommonFlags → Directory → Env → Config → Type 0
  FromFlags c root env s =
      let sender = first_non_empty c.instr_send (getenv env "INSTRUCTION_SENDER") in
      let settlement = first_non_empty c.settlement (getenv env "POLICY_SETTLEMENT") in
      (s.root ≡ root)
      × (s.chain_url ≡ first_non_empty c.chain_url (getenv env "CHAIN_URL"))
      × (is_empty s.chain_url ≡ false)
      × (s.proxy_url ≡ c.proxy_url)
      × (s.state_url ≡ c.state_url)
      × (s.state_file ≡ first_non_empty c.state_file (m.state_path root))
      × (s.addresses_file
          ≡ first_non_empty (getenv env "ADDRESSES_FILE")
              (m.addresses_path (first_non_empty (getenv env "CHAIN") "coston2")))
      × (m.exists s.addresses_file ≡ true)
      × (m.is_hex_address sender ≡ true)
      × (s.instruction_sender ≡ m.hex_to_address sender)
      × (m.is_hex_address settlement ≡ true)
      × (s.settlement ≡ m.hex_to_address settlement)
      × (m.is_hex_address c.payout_to ≡ true)
      × (s.payout_to ≡ m.hex_to_address c.payout_to)
      × (s.policy_name ≡ c.policy)
      × ((is_empty c.policy ≡ true) ⊎ (is_known c.policy ≡ true))

  addresses_file_is :
      (env : Env)
      → addresses_file_of m env
        ≡ first_non_empty
            (getenv env "ADDRESSES_FILE")
            (m.addresses_path (first_non_empty (getenv env "CHAIN") "coston2"))
  unfolding addresses_file_of first_non_empty
  addresses_file_is env = refl

  known_or_empty :
      (name : String)
      → (if is_empty name then true else is_known name) ≡ true
      → (is_empty name ≡ true) ⊎ (is_known name ≡ true)
  known_or_empty name h = elim (Bool-cases (is_empty name)) [
    | inl e ↦ inl e
    | inr e ↦ inr (rw e at h)
  ]

  settle_on_ok :
      (c : CommonFlags) (root : Directory) (env : Env) (s : Config)
      → settle_on m c root env ≡ ok s
      → FromFlags c root env s
  unfolding settle_on
  settle_on_ok c root env s h =
      let chain = first_non_empty c.chain_url (getenv env "CHAIN_URL") in
      let (u, url, h1) = bind_ok (required m no_chain_url (not (is_empty chain))) _ h in
      let (v, there, h2) =
        bind_ok (required m addresses_unreadable (m.exists (addresses_file_of m env))) _ h1 in
      let text = first_non_empty c.instr_send (getenv env "INSTRUCTION_SENDER") in
      let (a, sender, h3) = bind_ok (address_of m no_sender text) _ h2 in
      let text' = first_non_empty c.settlement (getenv env "POLICY_SETTLEMENT") in
      let (b, settlement, h4) = bind_ok (address_of m no_settlement text') _ h3 in
      let (p, payout, h5) = bind_ok (payout_address m c.payout_to) _ h4 in
      let (w, policy, h6) =
        bind_ok (required m unknown_policy (if is_empty c.policy then true else is_known c.policy))
          _ h5 in
      let is = ok_inj h6 in
      let nonempty : is_empty chain ≡ false = ground (arith, required_ok m no_chain_url _ url) in
      let sender_is = address_of_ok m no_sender text a sender in
      let settlement_is = address_of_ok m no_settlement text' b settlement in
      let payout_is = payout_address_ok m c.payout_to p payout in
      (
        ap (λ x. x.root) (sym is),
        ap (λ x. x.chain_url) (sym is),
        ap (λ x. is_empty x.chain_url) (sym is) ∙ nonempty,
        ap (λ x. x.proxy_url) (sym is),
        ap (λ x. x.state_url) (sym is),
        ap (λ x. x.state_file) (sym is),
        ap (λ x. x.addresses_file) (sym is) ∙ addresses_file_is env,
        ap (λ x. m.exists x.addresses_file) (sym is) ∙ required_ok m addresses_unreadable _ there,
        sender_is.0,
        ap (λ x. x.instruction_sender) (sym is) ∙ sender_is.1,
        settlement_is.0,
        ap (λ x. x.settlement) (sym is) ∙ settlement_is.1,
        payout_is.0,
        ap (λ x. x.payout_to) (sym is) ∙ payout_is.1,
        ap (λ x. x.policy_name) (sym is),
        known_or_empty c.policy (required_ok m unknown_policy _ policy),
      )

  -- Where `godotenv.Load` sets just the variables that are not set yet: settings that are resolved without an
  -- error hold what the flags say and, where a flag is empty, what the variables say, and a variable has
  -- the value of the shell, or else of the first of .env, config/extension.env and config/settlement.env
  -- below the project's root that is there and sets it. The root is the
  -- project's, the state file the flag's or the project's, the proxy and the state url are the flags'; a chain url is there, the addresses file is
  -- the one of ADDRESSES_FILE or of the chain and exists, the three addresses were written as
  -- addresses, and the policy is one of the catalog where one is named.
  pub resolve_ok :
      (values : Directory → String → Env)
      → Sets m values
      → (c : CommonFlags) (s : Config) → resolve m c ≡ ok s
      → (root : Directory) × (project_root m ≡ ok root)
        × (m.enters root ≡ true)
        × FromFlags c root (layered m values root) s
  unfolding resolve
  resolve_ok values sets c s h =
      let (root, found, h1) = bind_ok (project_root m) _ h in
      let (u, entered, h2) = bind_ok (required m entering_root (m.enters root)) _ h1 in
      let (env, loads, h3) = bind_ok (load_files m root) _ h2 in
      let is : env ≡ layered m values root = load_files_ok m values sets root env loads in
      (
        root,
        found,
        required_ok m entering_root (m.enters root) entered,
        subst (λ e. FromFlags c root e s) is (settle_on_ok c root env s h3),
      )
