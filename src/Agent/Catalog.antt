-- ===== src/Agent/Catalog.antt =====
-- The catalog of go/tools/cmd/aegis/policy.go: the covers that an operator can demo. The descriptions are
-- texts for the page and are kept.
use aegis_labs.Common.{
  ℕ, String, Bool, true, false, Option, none, some, List, [], ◌∷◌, str_eq, if◌then◌else◌,
}
use aegis_labs.Fdc.Feed.{DroughtFeed}

pub record PolicyTemplate : Type 0 where
  pub prefix : ℕ
  pub description : String
  pub feed : DroughtFeed

abbrev surabaya : String → String → DroughtFeed
surabaya first last = record {
  latitude_deg = "-7.25";
  longitude_deg = "112.75";
  start_date = first;
  end_date = last;
}

abbrev pub policy_catalog : List (String × PolicyTemplate)
policy_catalog =
    (
      "drought-surabaya",
      record {
        prefix = 0xa3d1;
        description = "dry season over Surabaya, expected to pay";
        feed = surabaya "2025-06-01" "2025-08-31";
      },
    )
    ∷ (
      "monsoon-surabaya",
      record {
        prefix = 0xa3d2;
        description = "wet season over the same point, expected to pay nothing";
        feed = surabaya "2024-12-01" "2025-02-28";
      },
    )
    ∷ []

-- `policyCatalog[name]`, and whether the name is there.
unfoldable pub template_in : String → List (String × PolicyTemplate) → Option PolicyTemplate
template_in name [] = none
template_in name ((n, t) ∷ rest) = if str_eq n name then some t else template_in name rest

abbrev is_some : Option PolicyTemplate → Bool
is_some none = false
is_some (some t) = true

unfoldable pub is_known : String → Bool
unfolding template_in
is_known name = is_some (template_in name policy_catalog)

abbrev pub policy_names : List String
policy_names = "drought-surabaya" ∷ "monsoon-surabaya" ∷ []
