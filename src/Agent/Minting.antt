-- ===== src/Agent/Minting.antt =====
-- `currentPolicy` of go/tools/cmd/aegis/cmd_register.go: which policy a run works on.
use aegis_labs.Common.{
  ◌>>=◌, ℕ, String, ◌≡◌, Bool, true, false, not, ◌&&◌, Option, none, some, if◌then◌else◌, Outcome,
  ok, Bool-cases, inl, inr, ◌⊎◌, bind_ok, arith,
}
use aegis_labs.Common.Bytes.{Bytes, Hash}
use aegis_labs.Agent.Policies.{NonceFault, new_policy_id}
use aegis_labs.Agent.Records.{PolicyRecord, Policies, get}

abbrev pub fresh : String → Hash → ℕ → (Hash → String) → PolicyRecord
fresh name id now hash_hex = record {
  name = name;
  policy_id = hash_hex id;
  created_at = now;
  request_hash = "";
  abi_encoded_request = "";
  model_registered = false;
  register_instruction_id = "";
  voting_round = 0;
  evaluate_instruction_id = "";
  payout_units = "";
  settle_tx = "";
  settled = false;
}

-- The record of a run, and whether it is new. The nonce, the time and `Hash.Hex` are arguments.
minted : String → ℕ → Option Bytes → ℕ → (Hash → String) → Outcome NonceFault (PolicyRecord × Bool)
minted name prefix nonce now hash_hex = do
  id ← new_policy_id prefix nonce
  ok (fresh name id now hash_hex, true)

reused_or :
    Bool
    → Option PolicyRecord
    → Outcome NonceFault (PolicyRecord × Bool)
    → Outcome NonceFault (PolicyRecord × Bool)
reused_or force_new none rest = rest
reused_or force_new (some r) rest = if not r.settled && not force_new then ok (r, false) else rest

unfoldable pub current_policy :
    Policies
    → String
    → ℕ
    → Bool
    → Option Bytes
    → ℕ
    → (Hash → String)
    → Outcome NonceFault (PolicyRecord × Bool)
unfolding minted reused_or
current_policy ps name prefix force_new nonce now hash_hex =
    reused_or force_new (get name ps) (minted name prefix nonce now hash_hex)

reused_or_ok :
    (force_new : Bool) (o : Option PolicyRecord) (rest : Outcome NonceFault (PolicyRecord × Bool))
    (r : PolicyRecord) (new : Bool)
    → reused_or force_new o rest ≡ ok (r, new)
    → ((o ≡ some r) × (new ≡ false) × (r.settled ≡ false) × (force_new ≡ false))
      ⊎ (rest ≡ ok (r, new))
unfolding reused_or
reused_or_ok force_new none rest r new h = inr h
reused_or_ok force_new (some old) rest r new h =
    elim (Bool-cases (not old.settled && not force_new)) [
      | inl e ↦
          let taken = rw e at h in
          inl (ground (arith, taken), ground (arith, taken), ground (arith, taken), ground arith)
      | inr e ↦ inr (rw e at h)
    ]

-- The record that a run works on is not settled. It is the operator's record of that name, unless
-- that one is missing or settled or a new one is asked for; then it is a fresh record, with the id
-- that was drawn.
pub current_policy_ok :
    (ps : Policies) (name : String) (prefix : ℕ) (force_new : Bool) (nonce : Option Bytes) (now : ℕ)
    (hash_hex : Hash → String) (r : PolicyRecord) (new : Bool)
    → current_policy ps name prefix force_new nonce now hash_hex ≡ ok (r, new)
    → (r.settled ≡ false)
      × (((get name ps ≡ some r) × (new ≡ false) × (force_new ≡ false))
          ⊎ ((id : Hash) × (new_policy_id prefix nonce ≡ ok id)
              × (r ≡ fresh name id now hash_hex)
              × (new ≡ true)))
unfolding current_policy minted
current_policy_ok ps name prefix force_new nonce now hash_hex r new h =
    elim (reused_or_ok force_new (get name ps) (minted name prefix nonce now hash_hex) r new h) [
      | inl (held, old, unsettled, unforced) ↦ (unsettled, inl (held, old, unforced))
      | inr made ↦
          let (id, drawn, is) = bind_ok (new_policy_id prefix nonce) _ made in
          (ground (arith, is), inr (id, drawn, ground (arith, is), ground (arith, is)))
    ]
