-- ===== src/Agent/WebConfig/Upsert.antt =====
-- `upsertWebPolicy` and `readWebPolicies` of go/tools/cmd/aegis/webconfig.go: what the page reads
-- after a policy was recorded.
use aegis_labs.Common.{
  ◌≡◌, refl, ap, sym, ◌∙◌, String, true, false, not, Option, none, some, List, [], ◌∷◌, ◌++◌,
  Bool-cases, inl, inr, arith, if◌then◌else◌, str_eq, str_eq_refl, str_eq_iff, Outcome, ok, bind_ok,
  map_err, map_err_ok, then_ok, else_ok,
}
use aegis_labs.Common.Bytes.{Bytes}
use aegis_labs.Fdc.Feed.{RequestBody, FeedFault}
use aegis_labs.Agent.Catalog.{PolicyTemplate}
use aegis_labs.Agent.Records.{PolicyRecord, Stored, contents, Disk}
use aegis_labs.Agent.WebConfig.{
  WebEntry, WebJson, building_request, creating_directory, writing, entry_of, upsert, parsed,
  read_web_policies, written, upsert_web_policy,
}

-- The entry of an id.
unfoldable pub find : String → List WebEntry → Option WebEntry
find id [] = none
find id (e ∷ rest) = let later = find id rest in if str_eq e.policy_id id then some e else later

-- No two entries have one id.
abbrev pub HasDistinctEntries : List WebEntry → Type 0
HasDistinctEntries [] = Unit {0}
HasDistinctEntries (e ∷ rest) = (find e.policy_id rest ≡ none) × HasDistinctEntries rest

find-upsert : (e : WebEntry) (es : List WebEntry) → find e.policy_id (upsert e es) ≡ some e
unfolding find upsert
find-upsert e [] = rw (str_eq_refl e.policy_id) refl
find-upsert e (x ∷ rest) = elim (Bool-cases (str_eq x.policy_id e.policy_id)) [
  | inl same ↦ rw (same, str_eq_refl e.policy_id) refl
  | inr other ↦ rw (other, other) (find-upsert e rest)
]

find-upsert_other :
    (id : String) (e : WebEntry) (es : List WebEntry)
    → str_eq e.policy_id id ≡ false
    → find id (upsert e es) ≡ find id es
unfolding find upsert
find-upsert_other id e [] h = rw h refl
find-upsert_other id e (x ∷ rest) h = elim (Bool-cases (str_eq x.policy_id e.policy_id)) [
  | inl same ↦
      let is : x.policy_id ≡ e.policy_id = (str_eq_iff x.policy_id e.policy_id).0 same in
      let off : str_eq x.policy_id id ≡ false = ap (λ t. str_eq t id) is ∙ h in
      rw (same, h, off) refl
  | inr other ↦ elim (Bool-cases (str_eq x.policy_id id)) [
    | inl here ↦ rw (other, here) refl
    | inr there ↦ rw (other, there) (find-upsert_other id e rest h)
  ]
]

str_eq_comm : (x y : String) → str_eq x y ≡ false → str_eq y x ≡ false
str_eq_comm x y h = elim (Bool-cases (str_eq y x)) [
  | inl same ↦
      let is : y ≡ x = (str_eq_iff y x).0 same in
      let refl' : str_eq x y ≡ true = (str_eq_iff x y).1 (sym is) in
      let clash : true ≡ false = sym refl' ∙ h in absurd (cc)
  | inr other ↦ other
]

upsert-HasDistinctEntries :
    (e : WebEntry) (es : List WebEntry) → HasDistinctEntries es → HasDistinctEntries (upsert e es)
unfolding upsert
upsert-HasDistinctEntries e [] h = (unfold find in refl, tt)
upsert-HasDistinctEntries e (x ∷ rest) (new, distinct) =
    elim (Bool-cases (str_eq x.policy_id e.policy_id)) [
      | inl same ↦
          let is : x.policy_id ≡ e.policy_id = (str_eq_iff x.policy_id e.policy_id).0 same in
          rw same (ap (λ t. find t rest) (sym is) ∙ new, distinct)
      | inr other ↦ rw other (
        find-upsert_other x.policy_id e rest (str_eq_comm x.policy_id e.policy_id other) ∙ new,
        upsert-HasDistinctEntries e rest distinct,
      )
    ]

-- Parsing undoes marshalling, also behind the line break.
pub record WebLaws (json : WebJson) : Type 0 where
  pub unmarshal-marshal :
      (es : List WebEntry) (raw : Bytes)
      → json.marshal es ≡ some raw
      → json.unmarshal (raw ++ (10 ∷ [])) ≡ some es

read-written :
    (json : WebJson) (disk : Disk) (es : List WebEntry) (o : Option Bytes) (f : Stored)
    → WebLaws json
    → json.marshal es ≡ o
    → written disk o ≡ ok f
    → read_web_policies json f ≡ ok es
unfolding written read_web_policies parsed
read-written json disk es none f laws is h = absurd cc
read-written json disk es (some raw) f laws is h =
    let (made, h1) = else_ok (not disk.makes_directory) creating_directory _ h in
    let (did, h2) = then_ok disk.writes writing _ h1 in
    let file : contents (raw ++ (10 ∷ [])) ≡ f = ground (arith, h2) in
    rw⁻¹ file (rw (laws.unmarshal-marshal es raw is) refl)

-- With a codec that reads back what it writes, and a list in which each id stands once: after a policy was
-- recorded without an error, the page finds under its id the entry of the record, with the request of its
-- feed; under every other id it finds what it found before; and each id still stands once.
pub read-upsert_web_policy :
    (json : WebJson) (disk : Disk) (request : Outcome FeedFault RequestBody) (file f : Stored)
    (r : PolicyRecord) (template : PolicyTemplate) (es : List WebEntry)
    → WebLaws json
    → read_web_policies json file ≡ ok es
    → HasDistinctEntries es
    → upsert_web_policy json disk request file r template ≡ ok f
    → (body : RequestBody) × (es' : List WebEntry) × (request ≡ ok body)
      × (read_web_policies json f ≡ ok es')
      × (find r.policy_id es' ≡ some (entry_of r template body))
      × ((id : String) → str_eq r.policy_id id ≡ false → find id es' ≡ find id es)
      × HasDistinctEntries es'
unfolding upsert_web_policy entry_of
read-upsert_web_policy json disk request file f r template es laws before distinct h =
    let (body, built, h1) = bind_ok (map_err building_request request) _ h in
    let (read, was, h2) = bind_ok (read_web_policies json file) _ h1 in
    let same : read ≡ es = cc in
    let e = entry_of r template body in
    let left = read-written json disk (upsert e read) _ f laws refl h2 in
    (
      body,
      upsert e es,
      map_err_ok building_request _ built,
      left ∙ ap (λ x. ok (upsert e x)) same,
      find-upsert e es,
      λ id other. find-upsert_other id e es other,
      upsert-HasDistinctEntries e es distinct,
    )
