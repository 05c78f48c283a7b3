-- ===== src/Agent/Restore/Skipped.antt =====
-- `skipReason` and `checkEnclaveRegistered` of go/tools/cmd/aegis/cmd_reregister.go: what a policy that
-- is restored is, and when the enclave gets work.
use aegis_labs.Common.{
  String, ◌≡◌, ◌≢◌, ◌↔◌, refl, Bool, true, false, not, ◌&&◌, ◌⊎◌, Option, none, some, List, [], ◌∷◌,
  Outcome, ok, err, panic, Bool-cases, inl, inr, arith, if◌then◌else◌,
}
use aegis_labs.Common.Bytes.{Hash, Address, zero_hash, bytes_eq, bytes_eq_iff}
use aegis_labs.Validate.Text.{is_empty}
use aegis_labs.Agent.Records.{PolicyRecord}
use aegis_labs.Payout.Settle.{Chain, SettleFault, Record, settlement_of}
use aegis_labs.Agent.Restore.{
  RestoreFault, Reason, not_bound, bound_elsewhere, among_active, unless_settled, unless_bound,
  skip_reason, is_among, check_enclave_registered,
}

-- A machine stands in a list.
abbrev pub Listed : Address → List Address → Type 0
Listed tee [] = ⊥
Listed tee (id ∷ rest) = (id ≡ tee) ⊎ Listed tee rest

abbrev Answer : Type 0
Answer = Outcome RestoreFault (Option Reason)

first_guard :
    (p : Bool) (x : Reason) (m : Answer)
    → (if p then ok (some x) else m) ≡ ok none
    → (p ≡ false) × (m ≡ ok none)
first_guard true x m h = absurd cc
first_guard false x m h = (refl, h)

second_guard :
    (p q : Bool) (x : Reason) (m : Answer)
    → (if not p && not q then ok (some x) else m) ≡ ok none
    → ((p ≡ true) ⊎ (q ≡ true)) × (m ≡ ok none)
second_guard true q x m h = (inl refl, h)
second_guard false true x m h = (inr refl, h)
second_guard false false x m h = absurd cc

unless_settled_ok :
    (o : Outcome SettleFault Record)
    → unless_settled o ≡ ok none
    → (r : Record) × (o ≡ ok r) × (r.settled ≡ false)
unfolding unless_settled
unless_settled_ok (err f) h = absurd cc
unless_settled_ok panic h = absurd cc
unless_settled_ok (ok r) h = (r, refl, ground (arith, h))

module _ (hex_to_hash : String → Hash) where
  unless_bound_ok :
      (chain : Chain) (r : PolicyRecord) (o : Option Hash)
      → unless_bound hex_to_hash chain r o ≡ ok none
      → (bound : Hash) × (o ≡ some bound)
        × (bound ≢ zero_hash)
        × ((is_empty r.request_hash ≡ true) ⊎ (bound ≡ hex_to_hash r.request_hash))
        × (unless_settled (settlement_of chain (hex_to_hash r.policy_id)) ≡ ok none)
  unfolding unless_bound
  unless_bound_ok chain r none h = absurd cc
  unless_bound_ok chain r (some bound) h =
      let (unbound, h1) = first_guard (bytes_eq bound zero_hash) not_bound _ h in
      let (match, h2) =
        second_guard (is_empty r.request_hash) (bytes_eq bound (hex_to_hash r.request_hash))
          (bound_elsewhere bound) _ h1 in
      (
        bound,
        refl,
        λ zero. ground (arith, unbound, (bytes_eq_iff bound zero_hash).1 zero),
        elim match [
          | inl e ↦ inl e
          | inr e ↦ inr ((bytes_eq_iff bound (hex_to_hash r.request_hash)).0 e)
        ],
        h2,
      )

  -- A policy without a reason to be skipped is bound on-chain, to the request of its record where the record
  -- has one, and is not settled there.
  pub skip_reason-none :
      (trigger : Hash → Option Hash) (chain : Chain) (r : PolicyRecord)
      → skip_reason hex_to_hash trigger chain r ≡ ok none
      → (bound : Hash) × (on_chain : Record) × (trigger (hex_to_hash r.policy_id) ≡ some bound)
        × (bound ≢ zero_hash)
        × ((is_empty r.request_hash ≡ true) ⊎ (bound ≡ hex_to_hash r.request_hash))
        × (settlement_of chain (hex_to_hash r.policy_id) ≡ ok on_chain)
        × (on_chain.settled ≡ false)
  unfolding skip_reason
  skip_reason-none trigger chain r h =
      let (bound, read, nonzero, matches, open_on_chain) =
        unless_bound_ok chain r (trigger (hex_to_hash r.policy_id)) h in
      let (on_chain, answered, unsettled) = unless_settled_ok _ open_on_chain in
      (bound, on_chain, read, nonzero, matches, answered, unsettled)

is_among_iff :
    (tee : Address) (active : List Address) → (is_among tee active ≡ true) ↔ Listed tee active
unfolding is_among
is_among_iff tee [] = (λ h. absurd cc, λ h. absurd h)
is_among_iff tee (id ∷ rest) =
    let here = bytes_eq_iff id tee in
    let there = is_among_iff tee rest in
    elim (Bool-cases (bytes_eq id tee)) [
      | inl e ↦ rw e (λ h. inl (here.0 e), λ h. refl)
      | inr e ↦ rw e (
        λ h. inr (there.0 h),
        λ h. elim h [ inl is ↦ ground (arith, e, here.1 is) | inr later ↦ there.1 later ],
      )
    ]

-- Behind a proxy whose enclave has an id, work goes on exactly when that id is among the active machines.
pub check_enclave_registered_iff :
    (tee : Address) (active : List Address)
    → (check_enclave_registered true (some active) (some (some tee)) ≡ ok tt) ↔ Listed tee active
unfolding check_enclave_registered among_active
check_enclave_registered_iff tee active =
    let listed = is_among_iff tee active in
    (λ h. listed.0 (ground (arith, h)), λ h. rw (listed.1 h) refl)
