-- ===== src/Fdc/Proofs.antt =====
-- `DecodeProof` of go/tools/pkg/fdc/web2json.go: the Merkle proof and the attested response. The ABI
-- reader of the response is the parameter `unpack_response`: the values that it finds.
use aegis_labs.Common.Bytes.{Bytes, Hash}
use aegis_labs.Common.{
  ℕ, ◌+◌, String, ◌≡◌, refl, ap, Bool, true, false, Option, none, some, List, [], ◌∷◌, arith, ◌==◌,
  if◌then◌else◌, length, ◌>>=◌, Outcome, ok, err, panic,
}
use aegis_labs.Fdc.HexText.{hexutil_decode}

pub data ProofFault : Type 0 where
  decoding_response_hex loading_abi unpacking_response : ProofFault
  wrong_value_count : ℕ → ProofFault
  decoding_node : ℕ → ProofFault
  node_length : ℕ → ℕ → ProofFault

-- `sign.IWeb2JsonProof`; `R` is the attested response.
pub record Web2JsonProof (R : Type 0) : Type 0 where
  pub merkle_proof : List Hash
  pub response : R

check_node : ℕ → Option Bytes → Outcome ProofFault Hash
check_node i none = err (decoding_node i)
check_node i (some raw) = if length raw == 32 then ok raw else err (node_length i (length raw))

-- The loop over the nodes, from the index `i` on.
unfoldable pub decode_nodes : ℕ → List String → Outcome ProofFault (List Hash)
unfolding check_node
decode_nodes i [] = ok []
decode_nodes i (node ∷ rest) =
    let others = decode_nodes (i + 1) rest in
    do raw ← check_node i (hexutil_decode node); nodes ← others; ok (raw ∷ nodes)

module _ {R : Type 0} where
  one_value : List R → Outcome ProofFault R
  one_value (r ∷ []) = ok r
  one_value values = err (wrong_value_count (length values))

  unpacked : Option (List R) → Outcome ProofFault R
  unfolding one_value
  unpacked none = err unpacking_response
  unpacked (some values) = one_value values

  response_of : Bool → (Bytes → Option (List R)) → Option Bytes → Outcome ProofFault R
  unfolding unpacked
  response_of has_type unpack none = err decoding_response_hex
  response_of has_type unpack (some raw) =
      if has_type then unpacked (unpack raw) else err loading_abi

  -- `has_type` tells whether the contract's ABI holds the response type.
  unfoldable pub decode_proof :
      Bool → (Bytes → Option (List R)) → List String → String → Outcome ProofFault (Web2JsonProof R)
  unfolding response_of
  decode_proof has_type unpack merkle_proof response_hex = do
    response ← response_of has_type unpack (hexutil_decode response_hex)
    nodes ← decode_nodes 0 merkle_proof
    ok (record { merkle_proof = nodes; response = response })

-- Each node is the 32 bytes that its text stands for, in order.
abbrev pub Decoded : List String → List Hash → Type 0
Decoded [] [] = Unit {0}
Decoded [] (n ∷ ns) = ⊥
Decoded (t ∷ ts) [] = ⊥
Decoded (t ∷ ts) (n ∷ ns) = (hexutil_decode t ≡ some n) × (length n ≡ 32) × Decoded ts ns

check_node_ok :
    (i : ℕ) (o : Option Bytes) (n : Hash) → check_node i o ≡ ok n → (o ≡ some n) × (length n ≡ 32)
unfolding check_node
check_node_ok i none n h = cc
check_node_ok i (some raw) n h = (ground arith, ground arith)

both_ok :
    (c : Outcome ProofFault Hash) (o : Outcome ProofFault (List Hash)) (nodes : List Hash)
    → (do raw ← c; rest ← o; ok (raw ∷ rest)) ≡ ok nodes
    → (n : Hash) × (ns : List Hash) × (c ≡ ok n) × (o ≡ ok ns) × (nodes ≡ n ∷ ns)
both_ok (ok n) (ok ns) nodes h = (n, ns, refl, refl, ground arith)
both_ok (ok n) (err f) nodes h = cc
both_ok (ok n) panic nodes h = cc
both_ok (err f) o nodes h = cc
both_ok panic o nodes h = cc

nodes-Decoded :
    (i : ℕ) (texts : List String) (nodes : List Hash)
    → decode_nodes i texts ≡ ok nodes
    → Decoded texts nodes
unfolding decode_nodes
nodes-Decoded i [] [] h = tt
nodes-Decoded i [] (n ∷ ns) h = absurd (ground arith)
nodes-Decoded i (t ∷ ts) nodes h =
    let (n, ns, c, o, e) =
      both_ok (check_node i (hexutil_decode t)) (decode_nodes (i + 1) ts) nodes h in
    let (raw, size) = check_node_ok i (hexutil_decode t) n c in
    rw e (raw, size, nodes-Decoded (i + 1) ts ns o)

module _ {R : Type 0} where
  proof_parts :
      (o : Outcome ProofFault R) (nodes : Outcome ProofFault (List Hash)) (p : Web2JsonProof R)
      → (do response ← o; ns ← nodes; ok (record { merkle_proof = ns; response = response })) ≡ ok p
      → (o ≡ ok p.response) × (nodes ≡ ok p.merkle_proof)
  proof_parts (ok r) (ok ns) p h = (ground arith, ground arith)
  proof_parts (ok r) (err f) p h = cc
  proof_parts (ok r) panic p h = cc
  proof_parts (err f) o p h = cc
  proof_parts panic o p h = cc

  one_value_ok : (values : List R) (r : R) → one_value values ≡ ok r → values ≡ r ∷ []
  unfolding one_value
  one_value_ok [] r h = cc
  one_value_ok (x ∷ []) r h = ground arith
  one_value_ok (x ∷ y ∷ rest) r h = cc

  unpacked_ok : (o : Option (List R)) (r : R) → unpacked o ≡ ok r → o ≡ some (r ∷ [])
  unfolding unpacked
  unpacked_ok none r h = cc
  unpacked_ok (some values) r h = ap some (one_value_ok values r h)

  response_ok :
      (has_type : Bool) (unpack : Bytes → Option (List R)) (o : Option Bytes) (r : R)
      → response_of has_type unpack o ≡ ok r
      → (raw : Bytes) × (o ≡ some raw) × (unpack raw ≡ some (r ∷ []))
  unfolding response_of
  response_ok has_type unpack none r h = cc
  response_ok true unpack (some raw) r h = (raw, refl, unpacked_ok (unpack raw) r h)
  response_ok false unpack (some raw) r h = cc

  -- A decoded proof carries the one value that the ABI reader finds in the response's bytes, and for
  -- each node of the Merkle proof the 32 bytes of its text, in order and with none left out.
  pub decode_proof_sound :
      (has_type : Bool) (unpack : Bytes → Option (List R)) (texts : List String)
      (response_hex : String) (p : Web2JsonProof R)
      → decode_proof has_type unpack texts response_hex ≡ ok p
      → Decoded texts p.merkle_proof
        × (raw : Bytes) × (hexutil_decode response_hex ≡ some raw)
        × (unpack raw ≡ some (p.response ∷ []))
  unfolding decode_proof
  decode_proof_sound has_type unpack texts response_hex p h =
      let (o, ns) =
        proof_parts (response_of has_type unpack (hexutil_decode response_hex))
          (decode_nodes 0 texts) p h in
      let (raw, e, u) = response_ok has_type unpack (hexutil_decode response_hex) p.response o in
      (nodes-Decoded 0 texts p.merkle_proof ns, raw, e, u)
