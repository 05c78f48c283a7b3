-- ===== src/Agent/WebConfig.antt =====
-- go/tools/cmd/aegis/webconfig.go: the list of policies that the web demo reads. The JSON codec is the parameter
-- `WebJson`, which carries the file's fixed note.
pub mod Upsert
use aegis_labs.Common.{
  ◌>>=◌, ℕ, String, Bool, true, false, not, Option, none, some, List, [], ◌∷◌, ◌++◌, if◌then◌else◌,
  str_eq, Outcome, ok, err, map_err,
}
use aegis_labs.Common.Bytes.{Bytes}
use aegis_labs.Fdc.Feed.{DroughtFeed, RequestBody, FeedFault}
use aegis_labs.Agent.Catalog.{PolicyTemplate}
use aegis_labs.Agent.Records.{PolicyRecord, Stored, absent, unreadable, contents, Disk}

pub record WebRequestBody : Type 0 where
  pub url : String
  pub http_method : String
  pub headers : String
  pub query_params : String
  pub body : String
  pub post_process_jq : String
  pub abi_signature : String

pub record WebEntry : Type 0 where
  pub name : String
  pub policy_id : String
  pub description : String
  pub latitude_deg : String
  pub longitude_deg : String
  pub start_date : String
  pub end_date : String
  pub request_body : WebRequestBody
  pub created_at : ℕ

pub record WebJson : Type 0 where
  pub marshal : List WebEntry → Option Bytes
  pub unmarshal : Bytes → Option (List WebEntry)

pub data WebFault : Type 0 where
  building_request : FeedFault → WebFault
  reading parsing encoding creating_directory writing : WebFault

unfoldable pub to_web_request_body : RequestBody → WebRequestBody
to_web_request_body rb = record {
  url = rb.url;
  http_method = rb.http_method;
  headers = rb.headers;
  query_params = rb.query_params;
  body = rb.body;
  post_process_jq = rb.post_process_jq;
  abi_signature = rb.abi_signature;
}

unfoldable pub entry_of : PolicyRecord → PolicyTemplate → RequestBody → WebEntry
unfolding to_web_request_body
entry_of r template body = record {
  name = r.name;
  policy_id = r.policy_id;
  description = template.description;
  latitude_deg = template.feed.latitude_deg;
  longitude_deg = template.feed.longitude_deg;
  start_date = template.feed.start_date;
  end_date = template.feed.end_date;
  request_body = to_web_request_body body;
  created_at = r.created_at;
}

-- The first entry of this id is replaced, or the entry is put behind the others.
unfoldable pub upsert : WebEntry → List WebEntry → List WebEntry
upsert entry [] = entry ∷ []
upsert entry (e ∷ rest) =
    let later = upsert entry rest in
    if str_eq e.policy_id entry.policy_id then entry ∷ rest else e ∷ later

parsed : Option (List WebEntry) → Outcome WebFault (List WebEntry)
parsed none = err parsing
parsed (some entries) = ok entries

-- `readWebPolicies`; a missing file is an empty list.
unfoldable pub read_web_policies : WebJson → Stored → Outcome WebFault (List WebEntry)
unfolding parsed
read_web_policies json absent = ok []
read_web_policies json unreadable = err reading
read_web_policies json (contents raw) = parsed (json.unmarshal raw)

written : Disk → Option Bytes → Outcome WebFault Stored
written disk none = err encoding
written disk (some raw) =
    if not disk.makes_directory
    then err creating_directory
    else if disk.writes
    then ok (contents (raw ++ (10 ∷ [])))
    else err writing

-- The file that is left, or the error. The request is what the template's feed gives.
unfoldable pub upsert_web_policy :
    WebJson
    → Disk
    → Outcome FeedFault RequestBody
    → Stored
    → PolicyRecord
    → PolicyTemplate
    → Outcome WebFault Stored
unfolding written
upsert_web_policy json disk request file r template = do
  body ← map_err building_request request
  entries ← read_web_policies json file
  written disk (json.marshal (upsert (entry_of r template body) entries))
