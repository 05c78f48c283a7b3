-- ===== src/Examples/Settings.antt =====
-- The settings of a command in a repository below a home, and the list of the web demo.
use aegis_labs.Common.{
  sym, ◌≡◌, refl, ap, inl, inr, String, Bool, true, false, none, some, Option, List, [], ◌∷◌, ok,
  str_eq, str_eq_iff, if◌then◌else◌, Bool-cases, ◌==◌, ◌&&◌,
}
use aegis_labs.Common.Bytes.{Bytes, Address}
use aegis_labs.Agent.Catalog.{PolicyTemplate, is_known, template_in}
use aegis_labs.Agent.Records.{absent, contents, Disk}
use aegis_labs.Agent.Config.{
  Directory, Env, CommonFlags, Config, Machine, has_layout, root_from, project_root, load_files,
  load_file, getenv, first_non_empty, address_of, settle_on, resolve,
}
use aegis_labs.Agent.Config.Resolved.{or_else, Sets, layered, FromFlags, resolve_ok}
use aegis_labs.Fdc.Feed.{RequestBody}
use aegis_labs.Agent.WebConfig.{
  WebEntry, WebRequestBody, WebJson, read_web_policies, upsert, upsert_web_policy, entry_of,
  to_web_request_body,
}
use aegis_labs.Agent.WebConfig.Upsert.{find, HasDistinctEntries, WebLaws, read-upsert_web_policy}
use aegis_labs.Examples.Agent.{bound}
use aegis_labs.Examples.Registering.{body, desk}
use aegis_labs.Examples.Codec.{texts, numbers}

abbrev home : Directory
home = "repo" ∷ "home" ∷ []

abbrev at_home : Directory → Bool
at_home [] = false
at_home (name ∷ rest) = str_eq name "repo"

abbrev shell : Env
shell name = if str_eq name "CHAIN_URL" then some "http://node" else none

-- The chain url of .env is not the shell's; the other two files name the two contracts.
abbrev values : Directory → String → Env
values root name key =
    if str_eq name ".env" && str_eq key "CHAIN_URL"
    then some "http://other"
    else if str_eq name "config/extension.env" && str_eq key "INSTRUCTION_SENDER"
    then some "0x01"
    else if str_eq name "config/settlement.env" && str_eq key "POLICY_SETTLEMENT"
    then some "0x02"
    else none

abbrev with_file : Directory → String → Env → Env
with_file root name env key = or_else (env key) (values root name key)

abbrev address_in : String → Address
address_in text =
    if str_eq text "0x01" then 1 ∷ [] else if str_eq text "0x02" then 2 ∷ [] else 3 ∷ []

abbrev machine : Machine
machine = record {
  working_directory = some ("cmd" ∷ "go" ∷ home);
  exists_below = λ dir name. at_home dir;
  exists = λ path. true;
  enters = λ dir. true;
  shell = shell;
  load_env = λ root name env. some (with_file root name env);
  addresses_path = λ chain. chain;
  state_path = λ root. "demo-state.json";
  is_hex_address = λ text. true;
  hex_to_address = address_in;
  get_info = λ url. none;
}

abbrev flags : CommonFlags
flags = record {
  policy = "drought-surabaya";
  chain_url = "";
  proxy_url = "";
  state_url = "";
  state_file = "";
  payout_to = "0x03";
  instr_send = "";
  settlement = "";
}

abbrev settled : Config
settled = record {
  root = home;
  chain_url = "http://node";
  proxy_url = "";
  addresses_file = "coston2";
  state_url = "";
  instruction_sender = 1 ∷ [];
  settlement = 2 ∷ [];
  policy_name = "drought-surabaya";
  payout_to = 3 ∷ [];
  state_file = "demo-state.json";
}

resolves : resolve machine flags ≡ ok settled
unfolding resolve project_root root_from has_layout load_files load_file settle_on address_of
    first_non_empty getenv is_known template_in
resolves = refl

machine-Sets : Sets machine values
machine-Sets root name env env' loads key =
    ap (λ e. e key) (sym (same_env (with_file root name env) env' loads))
  where
    same_env : (x y : Env) → some x ≡ some y → x ≡ y
    same_env x y h = cc

resolve_ok_example :
    (root : Directory) × (project_root machine ≡ ok root)
    × (machine.enters root ≡ true)
    × FromFlags machine flags root (layered machine values root) settled
resolve_ok_example = resolve_ok machine values machine-Sets flags settled resolves

abbrev template : PolicyTemplate
template = record {
  prefix = 7;
  description = "dry season";
  feed = record { latitude_deg = "1"; longitude_deg = "2"; start_date = "3"; end_date = "4" };
}

abbrev recorded : WebEntry
recorded = entry_of bound template body

abbrev same_body : WebRequestBody → WebRequestBody → Bool
same_body x y =
    str_eq x.url y.url
    && (str_eq x.http_method y.http_method
        && (str_eq x.headers y.headers
            && (str_eq x.query_params y.query_params
                && (str_eq x.body y.body
                    && (str_eq x.post_process_jq y.post_process_jq
                        && (str_eq x.abi_signature y.abi_signature))))))

abbrev same_entry : WebEntry → WebEntry → Bool
same_entry x y =
    str_eq x.name y.name
    && (str_eq x.policy_id y.policy_id
        && (str_eq x.description y.description
            && (str_eq x.latitude_deg y.latitude_deg
                && (str_eq x.longitude_deg y.longitude_deg
                    && (str_eq x.start_date y.start_date
                        && (str_eq x.end_date y.end_date
                            && ((x.created_at == y.created_at)
                                && same_body x.request_body y.request_body)))))))

same_body_ok : (x y : WebRequestBody) → same_body x y ≡ true → x ≡ y
same_body_ok x y h =
    let (e0, h0) = texts x.url y.url _ h in
    let (e1, h1) = texts x.http_method y.http_method _ h0 in
    let (e2, h2) = texts x.headers y.headers _ h1 in
    let (e3, h3) = texts x.query_params y.query_params _ h2 in
    let (e4, h4) = texts x.body y.body _ h3 in
    let (e5, h5) = texts x.post_process_jq y.post_process_jq _ h4 in
    let e6 = (str_eq_iff x.abi_signature y.abi_signature).0 h5 in
    λ i. record {
      url = e0 i;
      http_method = e1 i;
      headers = e2 i;
      query_params = e3 i;
      body = e4 i;
      post_process_jq = e5 i;
      abi_signature = e6 i;
    }

same_entry_ok : (x y : WebEntry) → same_entry x y ≡ true → x ≡ y
same_entry_ok x y h =
    let (e0, h0) = texts x.name y.name _ h in
    let (e1, h1) = texts x.policy_id y.policy_id _ h0 in
    let (e2, h2) = texts x.description y.description _ h1 in
    let (e3, h3) = texts x.latitude_deg y.latitude_deg _ h2 in
    let (e4, h4) = texts x.longitude_deg y.longitude_deg _ h3 in
    let (e5, h5) = texts x.start_date y.start_date _ h4 in
    let (e6, h6) = texts x.end_date y.end_date _ h5 in
    let (made, hb) = numbers x.created_at y.created_at _ h6 in
    let body' = same_body_ok x.request_body y.request_body hb in
    λ i. record {
      name = e0 i;
      policy_id = e1 i;
      description = e2 i;
      latitude_deg = e3 i;
      longitude_deg = e4 i;
      start_date = e5 i;
      end_date = e6 i;
      request_body = body' i;
      created_at = made i;
    }

-- A codec for the list of that entry alone.
abbrev web_marshal : List WebEntry → Option Bytes
web_marshal (e ∷ []) = if same_entry recorded e then some [] else none
web_marshal es = none

abbrev web_json : WebJson
web_json = record { marshal = web_marshal; unmarshal = λ raw. some (recorded ∷ []) }

marshal_ok :
    (es : List WebEntry) (raw : Bytes) → web_marshal es ≡ some raw → some (recorded ∷ []) ≡ some es
marshal_ok [] raw h = absurd cc
marshal_ok (e ∷ f ∷ es) raw h = absurd cc
marshal_ok (e ∷ []) raw h = elim (Bool-cases (same_entry recorded e)) [
  | inl same ↦ ap (λ x. some (x ∷ [])) (same_entry_ok recorded e same)
  | inr other ↦ absurd (none_some raw (rw other at h))
]
  where
    none_some : (r : Bytes) → none ≡ some r → ⊥
    none_some r k = cc

web_laws : WebLaws web_json
web_laws = record { unmarshal-marshal = marshal_ok }

abbrev disk : Disk
disk = record { makes_directory = true; writes = true }

records_it :
    upsert_web_policy web_json disk (ok body) absent bound template ≡ ok (contents (10 ∷ []))
unfolding upsert_web_policy read_web_policies upsert entry_of to_web_request_body
records_it = refl

read-upsert_web_policy_example :
    (b : RequestBody) × (es' : List WebEntry) × (desk.body ≡ ok b)
    × (read_web_policies web_json (contents (10 ∷ [])) ≡ ok es')
    × (find "0x07" es' ≡ some (entry_of bound template b))
    × ((id : String) → str_eq "0x07" id ≡ false → find id es' ≡ find id [])
    × HasDistinctEntries es'
unfolding read_web_policies
read-upsert_web_policy_example =
    read-upsert_web_policy web_json disk desk.body absent (contents (10 ∷ [])) bound template []
      web_laws refl tt records_it
