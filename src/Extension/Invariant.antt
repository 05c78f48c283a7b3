-- ===== src/Extension/Invariant.antt =====
-- The invariant of the map of models in go/internal/extension/extension.go.
use aegis_labs.Common.Bytes.{Bytes, Hash, zero_hash, bytes_eq, bytes_eq_iff, bytes_eq_comm}
use aegis_labs.Common.{
  ℕ, ◌≡◌, refl, ◌∙◌, inl, inr, true, false, Option, none, some, List, [], ◌∷◌, arith, ◌==◌,
  Bool-cases, length, ◌>>=◌, map_err, Outcome, ok, err, panic,
}
use aegis_labs.Model.{ModelParameters, RegisterModelRequest, validate}
use aegis_labs.Model.Register.{decode_register_iff, decode_register_model_request}
use aegis_labs.Extension.Actions.{
  DataFixed, Action, Node, Fault, Extension, new, lookup, insert, registration, decryption_failed,
  register_fault, decrypt_via_node,
}
use aegis_labs.Extension.Handlers.{
  store, route, process_register_model, process_policy, process_action, run,
}

abbrev pub IsStored : Hash × ModelParameters → Type 0
IsStored (k, m) = (validate m ≡ none) × (bytes_eq k zero_hash ≡ false)

abbrev pub Fresh : Hash → List (Hash × ModelParameters) → Type 0
Fresh k [] = Unit {0}
Fresh k ((j, m) ∷ rest) = (bytes_eq j k ≡ false) × Fresh k rest

-- No key twice, and each entry sound.
abbrev pub IsStore : List (Hash × ModelParameters) → Type 0
IsStore [] = Unit {0}
IsStore ((k, m) ∷ rest) =
    (validate m ≡ none) × (bytes_eq k zero_hash ≡ false) × Fresh k rest × IsStore rest

pub record IsSound (e : Extension) : Type 0 where
  pub store : IsStore e.models

pub Fresh-insert :
    (j k : Hash) (m : ModelParameters) (ms : List (Hash × ModelParameters))
    → bytes_eq k j ≡ false
    → Fresh j ms
    → Fresh j (insert k m ms)
unfolding insert
Fresh-insert j k m [] h f = (h, tt)
Fresh-insert j k m ((i, n) ∷ rest) h f = elim (Bool-cases (bytes_eq i k)) [
  | inl e ↦ rw e (h, f.1)
  | inr e ↦ rw e (f.0, Fresh-insert j k m rest h f.1)
]

rename_Fresh :
    (i k : Hash) (ms : List (Hash × ModelParameters))
    → bytes_eq i k ≡ true
    → Fresh i ms
    → Fresh k ms
rename_Fresh i k ms e f = rw (← (bytes_eq_iff i k).0 e) f

pub insert-IsStore :
    (k : Hash) (m : ModelParameters) (ms : List (Hash × ModelParameters))
    → validate m ≡ none
    → bytes_eq k zero_hash ≡ false
    → IsStore ms
    → IsStore (insert k m ms)
unfolding insert
insert-IsStore k m [] v z s = (v, z, tt, tt)
insert-IsStore k m ((i, n) ∷ rest) v z s = elim (Bool-cases (bytes_eq i k)) [
  | inl e ↦ rw e (v, z, rename_Fresh i k rest e s.2, s.3)
  | inr e ↦ rw e (
    s.0,
    s.1,
    Fresh-insert i k m rest (bytes_eq_comm k i ∙ e) s.2,
    insert-IsStore k m rest v z s.3,
  )
]

decoded_accepts :
    (read : Bytes → Option (RegisterModelRequest × Bytes)) (plaintext : Bytes)
    (req : RegisterModelRequest)
    → decode_register_model_request read plaintext ≡ ok req
    → (validate req.model ≡ none) × (bytes_eq req.policy_id zero_hash ≡ false)
decoded_accepts read plaintext req h =
    let (rest, p, m, z, v) = (decode_register_iff read plaintext req).0 h in (v, z)

relabelled : {E F A : Type 0} (f : E → F) (o : Outcome E A) (a : A) → map_err f o ≡ ok a → o ≡ ok a
relabelled f (ok b) a h = ground arith
relabelled f (err e) a h = cc
relabelled f panic a h = cc

after_decryption :
    (read : Bytes → Option (RegisterModelRequest × Bytes)) (o : Outcome Fault Bytes)
    (req : RegisterModelRequest)
    → (o >>= λ p. map_err register_fault (decode_register_model_request read p)) ≡ ok req
    → (validate req.model ≡ none) × (bytes_eq req.policy_id zero_hash ≡ false)
after_decryption read (ok p) req h =
    decoded_accepts read p req
      (relabelled register_fault (decode_register_model_request read p) req h)
after_decryption read (err e) req h = cc
after_decryption read panic req h = cc

-- What registration hands to the map was accepted by `DecodeRegisterModelRequest`.
pub registration_accepts :
    (node : Node) (port : ℕ) (df : DataFixed) (req : RegisterModelRequest)
    → registration node port df ≡ ok req
    → (validate req.model ≡ none) × (bytes_eq req.policy_id zero_hash ≡ false)
unfolding registration
registration_accepts node port df req h = elim (Bool-cases (length df.original_message == 0)) [
  | inl e ↦ ground (arith, h, e)
  | inr e ↦
      after_decryption node.read_request
        (map_err decryption_failed (decrypt_via_node node port df.original_message)) req (rw e at h)
]

store_IsSound :
    (e : Extension) (o : Outcome Fault RegisterModelRequest)
    → ((req : RegisterModelRequest)
        → o ≡ ok req
        → (validate req.model ≡ none) × (bytes_eq req.policy_id zero_hash ≡ false))
    → IsSound e
    → IsSound (store e o)
store_IsSound e (ok req) accepts s =
    let (v, z) = accepts req refl in
    record { store = insert-IsStore req.policy_id req.model e.models v z s.store }
store_IsSound e (err f) accepts s = s
store_IsSound e panic accepts s = s

process_register_model-IsSound :
    (node : Node) (e : Extension) (a : Action) (df : DataFixed)
    → IsSound e
    → IsSound (process_register_model node e a df).0
unfolding process_register_model
process_register_model-IsSound node e a df s =
    store_IsSound e (registration node e.sign_port df) (registration_accepts node e.sign_port df) s

process_policy-IsSound :
    (node : Node) (e : Extension) (a : Action) (df : DataFixed)
    → IsSound e
    → IsSound (process_policy node e a df).0
unfolding process_policy
process_policy-IsSound node e a df s =
    elim (Bool-cases (bytes_eq df.op_command (node.to_hash "REGISTER_MODEL"))) [
      | inl r ↦ rw r (process_register_model-IsSound node e a df s)
      | inr r ↦ rw r (elim (Bool-cases (bytes_eq df.op_command (node.to_hash "EVALUATE"))) [
        | inl v ↦ rw v s
        | inr v ↦ rw v s
      ])
    ]

route-IsSound :
    (node : Node) (e : Extension) (a : Action) (parsed : Option DataFixed)
    → IsSound e
    → IsSound (route node e a parsed).0
unfolding route
route-IsSound node e a none s = s
route-IsSound node e a (some df) s =
    elim (Bool-cases (bytes_eq df.op_type (node.to_hash "POLICY"))) [
      | inl t ↦ rw t (process_policy-IsSound node e a df s)
      | inr t ↦ rw t s
    ]

-- Every action, whatever its message and whatever the node answers, keeps the invariant: at
-- most one entry for each policy, no entry for the zero id, and only models that pass `Validate`.
pub process_action-IsSound :
    (node : Node) (e : Extension) (a : Action) → IsSound e → IsSound (process_action node e a).0
unfolding process_action
process_action-IsSound node e a s = route-IsSound node e a (node.parse_data_fixed a.message) s

run_from-IsSound :
    (node : Node) (e : Extension) (actions : List Action) → IsSound e → IsSound (run node e actions)
unfolding run
run_from-IsSound node e [] s = s
run_from-IsSound node e (a ∷ rest) s =
    run_from-IsSound node (process_action node e a).0 rest (process_action-IsSound node e a s)

-- After any sequence of actions on a new enclave its map holds at most one entry for each policy, no
-- entry for the zero id, and only models that pass `Validate`.
pub run-IsSound :
    (node : Node) (port : ℕ) (actions : List Action) → IsSound (run node (new port) actions)
run-IsSound node port actions = run_from-IsSound node (new port) actions (record { store = tt })

-- A model that the map holds is valid.
pub lookup-validate :
    (k : Hash) (ms : List (Hash × ModelParameters)) (m : ModelParameters)
    → IsStore ms
    → lookup k ms ≡ some m
    → validate m ≡ none
unfolding lookup
lookup-validate k [] m s h = cc
lookup-validate k ((j, n) ∷ rest) m s h = elim (Bool-cases (bytes_eq j k)) [
  | inl e ↦ ground (arith, s.0, h, e)
  | inr e ↦ lookup-validate k rest m s.3 (rw e at h)
]
