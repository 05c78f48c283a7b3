-- ===== src/Examples/Codec.antt =====
-- A codec for a few given records: a file holds the place of its record in a list.
use aegis_labs.Common.{
  ℕ, zero, suc, ◌≡◌, refl, ap, sym, String, Option, none, some, List, [], ◌∷◌, ◌++◌, Bool, true,
  false, ◌&&◌, ◌==◌, ==_iff, str_eq, str_eq_iff, if◌then◌else◌, Bool-cases, inl, inr, arith,
}
use aegis_labs.Common.Bytes.{Bytes}
use aegis_labs.Agent.Records.{PolicyRecord, Policies, Json, JsonLaws}

abbrev bool_eq : Bool → Bool → Bool
bool_eq true b = b
bool_eq false true = false
bool_eq false false = true

bool_eq_ok : (a b : Bool) → bool_eq a b ≡ true → a ≡ b
bool_eq_ok true b h = ground arith
bool_eq_ok false true h = ground arith
bool_eq_ok false false h = refl

abbrev same_record : PolicyRecord → PolicyRecord → Bool
same_record a b =
    str_eq a.name b.name
    && (str_eq a.policy_id b.policy_id
        && (a.created_at == b.created_at
            && (str_eq a.request_hash b.request_hash
                && (str_eq a.abi_encoded_request b.abi_encoded_request
                    && (bool_eq a.model_registered b.model_registered
                        && (str_eq a.register_instruction_id b.register_instruction_id
                            && (a.voting_round == b.voting_round
                                && (str_eq a.evaluate_instruction_id b.evaluate_instruction_id
                                    && (str_eq a.payout_units b.payout_units
                                        && (str_eq a.settle_tx b.settle_tx
                                            && bool_eq a.settled b.settled))))))))))

both : (p q : Bool) → p && q ≡ true → (p ≡ true) × (q ≡ true)
both true q h = (refl, h)
both false q h = absurd (ground arith)

pub texts : (x y : String) (q : Bool) → str_eq x y && q ≡ true → (x ≡ y) × (q ≡ true)
texts x y q h = let (p, rest) = both (str_eq x y) q h in ((str_eq_iff x y).0 p, rest)

pub numbers : (x y : ℕ) (q : Bool) → (x == y) && q ≡ true → (x ≡ y) × (q ≡ true)
numbers x y q h = let (p, rest) = both (x == y) q h in ((==_iff x y).0 p, rest)

same_record_ok : (a b : PolicyRecord) → same_record a b ≡ true → a ≡ b
same_record_ok a b h =
    let (name, h1) = texts a.name b.name _ h in
    let (id, h2) = texts a.policy_id b.policy_id _ h1 in
    let (made, h3) = numbers a.created_at b.created_at _ h2 in
    let (hash, h4) = texts a.request_hash b.request_hash _ h3 in
    let (request, h5) = texts a.abi_encoded_request b.abi_encoded_request _ h4 in
    let (model, h6) = both (bool_eq a.model_registered b.model_registered) _ h5 in
    let (register, h7) = texts a.register_instruction_id b.register_instruction_id _ h6 in
    let (round, h8) = numbers a.voting_round b.voting_round _ h7 in
    let (evaluate, h9) = texts a.evaluate_instruction_id b.evaluate_instruction_id _ h8 in
    let (units, h10) = texts a.payout_units b.payout_units _ h9 in
    let (tx, h11) = texts a.settle_tx b.settle_tx _ h10 in
    let closed = bool_eq_ok a.settled b.settled h11 in
    let loaded = bool_eq_ok a.model_registered b.model_registered model in
    λ i. record {
      name = name i;
      policy_id = id i;
      created_at = made i;
      request_hash = hash i;
      abi_encoded_request = request i;
      model_registered = loaded i;
      register_instruction_id = register i;
      voting_round = round i;
      evaluate_instruction_id = evaluate i;
      payout_units = units i;
      settle_tx = tx i;
      settled = closed i;
    }

-- A file for a record: as many zeros as records stand before it.
abbrev further : Option Bytes → Option Bytes
further none = none
further (some raw) = some (0 ∷ raw)

unfoldable pub place : List PolicyRecord → PolicyRecord → Option Bytes
place [] r = none
place (x ∷ rest) r =
    let later = further (place rest r) in if same_record x r then some [] else later

unfoldable pub at : List PolicyRecord → Bytes → Option PolicyRecord
at [] raw = none
at (x ∷ rest) [] = none
at (x ∷ rest) (zero ∷ raw) = at rest raw
at (x ∷ rest) (suc n ∷ raw) = some x

further_ok :
    (o : Option Bytes) (raw : Bytes)
    → further o ≡ some raw
    → (more : Bytes) × (o ≡ some more) × (raw ≡ 0 ∷ more)
further_ok none raw h = absurd cc
further_ok (some more) raw h = (more, refl, cc)

place_ok :
    (xs : List PolicyRecord) (r : PolicyRecord) (raw : Bytes)
    → place xs r ≡ some raw
    → at xs (raw ++ (10 ∷ [])) ≡ some r
unfolding place at
place_ok [] r raw h = absurd cc
place_ok (x ∷ rest) r raw h = elim (Bool-cases (same_record x r)) [
  | inl e ↦
      let found : some [] ≡ some raw = rw e at h in
      let start : [] ≡ raw = cc in rw⁻¹ start (ap some (same_record_ok x r e))
  | inr e ↦
      let (more, later, is) = further_ok (place rest r) raw (rw e at h) in
      rw is (place_ok rest r more later)
]

marshal : List PolicyRecord → Policies → Option Bytes
marshal xs ((n, r) ∷ []) = if str_eq n r.name then place xs r else none
marshal xs ps = none

parsed : Option PolicyRecord → Option (Option Policies)
parsed none = none
parsed (some r) = some (some ((r.name, r) ∷ []))

unfoldable pub codec : List PolicyRecord → Json
unfolding marshal parsed place at
codec xs = record { marshal = marshal xs; unmarshal = λ raw. parsed (at xs raw) }

marshal_ok :
    (xs : List PolicyRecord) (ps : Policies) (raw : Bytes)
    → marshal xs ps ≡ some raw
    → parsed (at xs (raw ++ (10 ∷ []))) ≡ some (some ps)
unfolding marshal parsed
marshal_ok xs [] raw h = absurd cc
marshal_ok xs ((n, r) ∷ q ∷ ps) raw h = absurd cc
marshal_ok xs ((n, r) ∷ []) raw h = elim (Bool-cases (str_eq n r.name)) [
  | inl e ↦
      let named : n ≡ r.name = (str_eq_iff n r.name).0 e in
      rw (place_ok xs r raw (rw e at h)) (ap (λ m. some (some ((m, r) ∷ []))) (sym named))
  | inr e ↦ absurd (ground (arith, h, e))
]

pub codec_laws : (xs : List PolicyRecord) → JsonLaws (codec xs)
unfolding codec
codec_laws xs = record { unmarshal-marshal = marshal_ok xs }
