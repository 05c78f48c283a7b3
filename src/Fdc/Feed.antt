-- ===== src/Fdc/Feed.antt =====
-- go/tools/pkg/fdc/openmeteo.go: the weather feed of a policy and the request that pins it.
use aegis_labs.Common.{
  String, ◌≡◌, sym, ap, ◌∙◌, Option, none, some, List, [], ◌∷◌, arith, if◌then◌else◌, check,
  Outcome, ok,
}
use Prim.Native.String.{◌++◌ as concat}
use aegis_labs.Validate.Text.{is_empty}

pub record DroughtFeed : Type 0 where
  pub latitude_deg : String
  pub longitude_deg : String
  pub start_date : String
  pub end_date : String

pub data FeedFault : Type 0 where
  latitude_empty longitude_empty start_date_empty end_date_empty : FeedFault

unfoldable pub validate_feed : DroughtFeed → Option FeedFault
validate_feed f =
    if is_empty f.latitude_deg
    then some latitude_empty
    else if is_empty f.longitude_deg
    then some longitude_empty
    else if is_empty f.start_date
    then some start_date_empty
    else if is_empty f.end_date
    then some end_date_empty
    else none

-- The six fields that the query carries, in the order of the struct.
abbrev pub query_fields : DroughtFeed → List (String × String)
query_fields f =
    ("latitude", f.latitude_deg)
    ∷ ("longitude", f.longitude_deg)
    ∷ ("start_date", f.start_date)
    ∷ ("end_date", f.end_date)
    ∷ ("daily", "precipitation_sum")
    ∷ ("timezone", "UTC")
    ∷ []

-- `sign.IWeb2JsonRequestBody`
pub record RequestBody : Type 0 where
  pub url : String
  pub http_method : String
  pub headers : String
  pub query_params : String
  pub body : String
  pub post_process_jq : String
  pub abi_signature : String

abbrev pub open_meteo_archive_url : String
open_meteo_archive_url = "https://archive-api.open-meteo.com/v1/archive"

abbrev pub weather_reading_abi_signature : String
weather_reading_abi_signature = concat "{\"components\":[" (
    concat "{\"internalType\":\"int256\",\"name\":\"latitudeMicroDeg\",\"type\":\"int256\"}," (
      concat "{\"internalType\":\"int256\",\"name\":\"longitudeMicroDeg\",\"type\":\"int256\"}," (
        concat "{\"internalType\":\"uint256\",\"name\":\"rainfallTenthsMm\",\"type\":\"uint256\"}],"
          "\"name\":\"reading\",\"type\":\"tuple\"}")))

abbrev pub rainfall_jq : String
rainfall_jq =
    concat "{latitudeMicroDeg: (.latitude*1000000|tostring|split(\".\")|.[0]|tonumber), " (
      concat "longitudeMicroDeg: (.longitude*1000000|tostring|split(\".\")|.[0]|tonumber), "
        "rainfallTenthsMm: ([0]+(.daily.precipitation_sum|map(select(.!=null)))|add*10|tostring|split(\".\")|.[0]|tonumber)}")

-- `json.Marshal` of the six fields is the parameter; a struct of strings always encodes.
module _ (marshal : List (String × String) → String) where
  unfoldable pub query_params : DroughtFeed → String
  query_params f = marshal (query_fields f)

  pub request_of : DroughtFeed → RequestBody
  unfolding query_params
  request_of f = record {
    url = open_meteo_archive_url;
    http_method = "GET";
    headers = "{}";
    query_params = query_params f;
    body = "{}";
    post_process_jq = rainfall_jq;
    abi_signature = weather_reading_abi_signature;
  }

  unfoldable pub request_body : DroughtFeed → Outcome FeedFault RequestBody
  unfolding request_of
  request_body f = check (validate_feed f) (ok (request_of f))

same_fields : (f g : DroughtFeed) → query_fields f ≡ query_fields g → f ≡ g
same_fields f g h = cc

check_ok : (v : Option FeedFault) (a b : RequestBody) → check v (ok a) ≡ ok b → a ≡ b
check_ok none a b h = ground arith
check_ok (some e) a b h = cc

-- Two feeds with the same request body are the same feed, if the encoding of the query tells
-- different fields apart.
pub request_body-injective :
    (marshal : List (String × String) → String)
    → ((xs ys : List (String × String)) → marshal xs ≡ marshal ys → xs ≡ ys)
    → (f g : DroughtFeed) (b : RequestBody) → request_body marshal f ≡ ok b
    → request_body marshal g ≡ ok b
    → f ≡ g
unfolding request_body
request_body-injective marshal distinct f g b hf hg = same_fields f g (
    distinct (query_fields f) (query_fields g) (
      ap (λ (r : RequestBody). r.query_params)
        (check_ok (validate_feed f) (request_of marshal f) b hf
          ∙ sym (check_ok (validate_feed g) (request_of marshal g) b hg))))
