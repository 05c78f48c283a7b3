-- ===== src/Examples/Oracle.antt =====
-- The oracle client's theorems at concrete rounds, names, proofs and feeds.
use aegis_labs.Common.{
  ℕ, String, ◌<◌, ◌≤◌, ◌≡◌, refl, sym, ap, ◌≢◌, ◌↔◌, Option, some, none, List, [], ◌∷◌, ◌++◌, true,
  false, arith, length, ok, err,
}
use aegis_labs.Common.Bytes.{Bytes}
use Prim.Native.Char.{Char, code}
use aegis_labs.Validate.Text.{trim_space}
use aegis_labs.Fdc.Rounds.{Geometry, voting_round_id, Covers, voting_round_id_iff}
use aegis_labs.Fdc.HexText.{
  encode_attestation_name, hexutil_decode, padded, name_exceeds_32_bytes,
  encode_attestation_name_lem, decode_string,
}
use aegis_labs.Fdc.Proofs.{decode_proof, decode_nodes, Decoded, Web2JsonProof, decode_proof_sound}
use aegis_labs.Fdc.Polling.{Poll, polling, wait_for_proof, wait_for_proof_ends}
use aegis_labs.Fdc.Feed.{DroughtFeed}

abbrev pub geometry : Geometry
geometry = record {
  first_voting_round_start_ts = some 1000;
  voting_epoch_duration_seconds = some 90;
}

voting_round_id_iff_example :
    (voting_round_id geometry 1200 ≡ ok 2) ↔ ((0 < 90) × Covers 1000 90 2 1200)
voting_round_id_iff_example = voting_round_id_iff geometry 1000 90 1200 2 refl refl

-- "Web"
abbrev name : Bytes
name = 87 ∷ 101 ∷ 98 ∷ []

encode_attestation_name_lem_example :
    (length name ≤ 32
      → (text : String) × (encode_attestation_name name ≡ ok text)
        × (hexutil_decode text ≡ some (padded name))
        × (length (padded name) ≡ 32))
    × (32 < length name → encode_attestation_name name ≡ err name_exceeds_32_bytes)
encode_attestation_name_lem_example =
    encode_attestation_name_lem name (omega arith, (omega arith, (omega arith, tt)))

abbrev waiting : Poll ℕ
waiting = record { fetched = ok none; done = false }

abbrev ready : Poll ℕ
ready = record { fetched = ok (some 7); done = true }

wait_for_proof_ends_example : wait_for_proof ((waiting ∷ []) ++ (ready ∷ [])) ≢ polling
wait_for_proof_ends_example = wait_for_proof_ends (waiting ∷ []) [] ready refl

-- One node of 32 bytes, and a response of one byte.
abbrev node_text : String
node_text = "0x0102030405060708090a0b0c0d0e0f101112131415161718191a1b1c1d1e1f20"

abbrev unpack_five : Bytes → Option (List ℕ)
unpack_five raw = some (5 ∷ [])

abbrev attested_five : Web2JsonProof ℕ
attested_five = record {
  merkle_proof =
      (1 ∷ 2 ∷ 3 ∷ 4 ∷ 5 ∷ 6 ∷ 7 ∷ 8 ∷ 9 ∷ 10 ∷ 11 ∷ 12 ∷ 13 ∷ 14 ∷ 15 ∷ 16 ∷ 17 ∷ 18 ∷ 19 ∷ 20 ∷ 21
        ∷ 22 ∷ 23 ∷ 24 ∷ 25 ∷ 26 ∷ 27 ∷ 28 ∷ 29 ∷ 30 ∷ 31 ∷ 32 ∷ [])
      ∷ [];
  response = 5;
}

decodes : decode_proof true unpack_five (node_text ∷ []) "0x05" ≡ ok attested_five
unfolding decode_proof decode_nodes hexutil_decode decode_string trim_space
decodes = refl

decode_proof_sound_example :
    Decoded (node_text ∷ []) attested_five.merkle_proof
    × (raw : Bytes) × (hexutil_decode "0x05" ≡ some raw)
    × (unpack_five raw ≡ some (5 ∷ []))
decode_proof_sound_example =
    decode_proof_sound true unpack_five (node_text ∷ []) "0x05" attested_five decodes

abbrev drought_feed : DroughtFeed
drought_feed = record {
  latitude_deg = "-7.25";
  longitude_deg = "112.75";
  start_date = "2025-06-01";
  end_date = "2025-06-30";
}

-- A writer of the query that tells its fields apart: each character is marked, and so is each end.
emit : String → String → String
emit String.[] k = String.◌∷◌ "0" k
emit (String.◌∷◌ c s) k = String.◌∷◌ "1" (String.◌∷◌ c (emit s k))

unfoldable marked : List (String × String) → String
unfolding emit
marked [] = String.◌∷◌ "0" String.[]
marked ((key, value) ∷ rest) = String.◌∷◌ "1" (emit key (emit value (marked rest)))

cons_inj : (c d : Char) (s t : String) → String.◌∷◌ c s ≡ String.◌∷◌ d t → (c ≡ d) × (s ≡ t)
cons_inj c d s t h = (cc, cc)

apart : (s t : String) → String.◌∷◌ "0" s ≢ String.◌∷◌ "1" t
apart s t h = omega (arith, ap code (cons_inj _ _ s t h).0)

emit_inj : (s t k l : String) → emit s k ≡ emit t l → (s ≡ t) × (k ≡ l)
unfolding emit
emit_inj String.[] String.[] k l h = (refl, (cons_inj _ _ k l h).1)
emit_inj String.[] (String.◌∷◌ d t) k l h = absurd (apart _ _ h)
emit_inj (String.◌∷◌ c s) String.[] k l h = absurd (apart _ _ (sym h))
emit_inj (String.◌∷◌ c s) (String.◌∷◌ d t) k l h =
    let (first, rest) = cons_inj c d _ _ (cons_inj _ _ _ _ h).1 in
    let (s_t, k_l) = emit_inj s t k l rest in (cc, k_l)

marked_inj : (xs ys : List (String × String)) → marked xs ≡ marked ys → xs ≡ ys
unfolding marked
marked_inj [] [] h = refl
marked_inj [] ((k, v) ∷ ys) h = absurd (apart _ _ h)
marked_inj ((k, v) ∷ xs) [] h = absurd (apart _ _ (sym h))
marked_inj ((k, v) ∷ xs) ((k', v') ∷ ys) h =
    let (keys, more) = emit_inj k k' _ _ (cons_inj _ _ _ _ h).1 in
    let (values, others) = emit_inj v v' _ _ more in let rest = marked_inj xs ys others in cc
