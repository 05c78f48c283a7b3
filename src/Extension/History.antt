-- ===== src/Extension/History.antt =====
-- The map of models in go/internal/extension/extension.go against the history of registrations.
use aegis_labs.Common.Bytes.{Hash, bytes_eq, bytes_eq_iff}
use aegis_labs.Common.{
  ℕ, ◌+◌, ◌≡◌, refl, ◌∙◌, ◌≢◌, inl, inr, Option, none, some, List, [], ◌∷◌, arith, if◌then◌else◌,
  Bool-cases, length, Outcome, ok, err, panic,
}
use aegis_labs.Model.{ModelParameters, RegisterModelRequest}
use aegis_labs.Extension.Actions.{
  DataFixed, Action, Node, Fault, Extension, new, lookup, insert, registration,
}
use aegis_labs.Extension.Handlers.{store, route, process_action, run}

pub lookup-insert :
    (k j : Hash) (m : ModelParameters) (ms : List (Hash × ModelParameters))
    → lookup j (insert k m ms) ≡ (if bytes_eq k j then some m else lookup j ms)
unfolding lookup insert
lookup-insert k j m [] = refl
lookup-insert k j m ((i, n) ∷ rest) =
    ground (arith, bytes_eq_iff k j, bytes_eq_iff i k, bytes_eq_iff i j, lookup-insert k j m rest)

-- A registration of a new policy adds one model; a further one of the same policy adds none.
pub length-insert :
    (k : Hash) (m : ModelParameters) (ms : List (Hash × ModelParameters))
    → (lookup k ms ≡ none → length (insert k m ms) ≡ length ms + 1)
      × (lookup k ms ≢ none → length (insert k m ms) ≡ length ms)
unfolding lookup insert
length-insert k m [] = (λ _. refl, λ h. absurd (h refl))
length-insert k m ((i, n) ∷ rest) = elim (Bool-cases (bytes_eq i k)) [
  | inl e ↦ rw e (λ h. cc, λ h. refl)
  | inr e ↦ rw e (
    λ h. omega (arith, (length-insert k m rest).0 h),
    λ h. omega (arith, (length-insert k m rest).1 h),
  )
]

abbrev accepted_outcome : Outcome Fault RegisterModelRequest → Option RegisterModelRequest
accepted_outcome (ok req) = some req
accepted_outcome (err f) = none
accepted_outcome panic = none

abbrev accepted_of : Node → ℕ → Option DataFixed → Option RegisterModelRequest
accepted_of node port none = none
accepted_of node port (some df) =
    if bytes_eq df.op_type (node.to_hash "POLICY")
    then if bytes_eq df.op_command (node.to_hash "REGISTER_MODEL")
      then accepted_outcome (registration node port df)
      else none
    else none

-- The request that an action registers, if it registers one.
abbrev pub accepted : Node → ℕ → Action → Option RegisterModelRequest
accepted node port a = accepted_of node port (node.parse_data_fixed a.message)

-- The model that a policy has after one more registration.
abbrev pub after :
    Hash → Option RegisterModelRequest → Option ModelParameters → Option ModelParameters
after k none before = before
after k (some req) before = if bytes_eq req.policy_id k then some req.model else before

-- The model that a policy has after a history of actions.
abbrev pub last_registered :
    Node → ℕ → Hash → List Action → Option ModelParameters → Option ModelParameters
last_registered node port k [] before = before
last_registered node port k (a ∷ rest) before =
    last_registered node port k rest (after k (accepted node port a) before)

store_lookup :
    (e : Extension) (k : Hash) (o : Outcome Fault RegisterModelRequest)
    → (lookup k (store e o).models ≡ after k (accepted_outcome o) (lookup k e.models))
      × ((store e o).sign_port ≡ e.sign_port)
store_lookup e k (ok req) = (lookup-insert req.policy_id k req.model e.models, refl)
store_lookup e k (err f) = (refl, refl)
store_lookup e k panic = (refl, refl)

lookup-route :
    (node : Node) (e : Extension) (a : Action) (k : Hash) (parsed : Option DataFixed)
    → (lookup k (route node e a parsed).0.models
        ≡ after k (accepted_of node e.sign_port parsed) (lookup k e.models))
      × ((route node e a parsed).0.sign_port ≡ e.sign_port)
unfolding route
lookup-route node e a k none = (refl, refl)
lookup-route node e a k (some df) =
    elim (Bool-cases (bytes_eq df.op_type (node.to_hash "POLICY"))) [
      | inl t ↦ rw t (elim (Bool-cases (bytes_eq df.op_command (node.to_hash "REGISTER_MODEL"))) [
        | inl r ↦ rw r (store_lookup e k (registration node e.sign_port df))
        | inr r ↦ rw r (elim (Bool-cases (bytes_eq df.op_command (node.to_hash "EVALUATE"))) [
          | inl v ↦ rw v (refl, refl)
          | inr v ↦ rw v (refl, refl)
        ])
      ])
      | inr t ↦ rw t (refl, refl)
    ]

lookup-run_from :
    (node : Node) (e : Extension) (k : Hash) (actions : List Action)
    → lookup k (run node e actions).models
      ≡ last_registered node e.sign_port k actions (lookup k e.models)
unfolding run process_action
lookup-run_from node e k [] = refl
lookup-run_from node e k (a ∷ rest) =
    let (model, port) = lookup-route node e a k (node.parse_data_fixed a.message) in
    lookup-run_from node (process_action node e a).0 k rest ∙ rw (port, model)

-- After any actions on a new enclave, the model that a policy is scored by is that of the last
-- accepted registration of the policy; with none there is no model.
pub lookup-run :
    (node : Node) (port : ℕ) (k : Hash) (actions : List Action)
    → lookup k (run node (new port) actions).models ≡ last_registered node port k actions none
unfolding lookup
lookup-run node port k actions = lookup-run_from node (new port) k actions
