-- ===== src/Agent/Register/Bound.antt =====
-- `bindTrigger` of go/tools/cmd/aegis/cmd_register.go: the binding is write-once.
use aegis_labs.Common.{
  ◌≡◌, refl, ap, ◌⊎◌, inl, inr, Option, none, some, true, false, not, Outcome, ok, err, panic,
  arith, Bool-cases, map_err_ok, else_ok,
}
use aegis_labs.Common.Bytes.{Hash, zero_hash, bytes_eq, bytes_eq_iff}
use aegis_labs.Instructions.{send_register_policy_trigger}
use aegis_labs.Agent.Records.{PolicyRecord}
use aegis_labs.Agent.Register.{
  RegisterFault, binding_sender, bound_to, registering_trigger, BindCalls, Binding, already_bound,
  bound_by, registered_by, against, hashed_as, bind_trigger,
}

registered_by_ok :
    (o : Outcome RegisterFault Hash) (b : Binding)
    → registered_by o ≡ ok b
    → (tx : Hash) × (o ≡ ok tx) × (b ≡ bound_by tx)
unfolding registered_by
registered_by_ok (ok tx) b h = (tx, refl, cc)
registered_by_ok (err f) b h = absurd cc
registered_by_ok panic b h = absurd cc

against_ok :
    (calls : BindCalls) (id h : Hash) (existing : Option Hash) (b : Binding)
    → against calls id h existing ≡ ok b
    → ((existing ≡ some h) × (b ≡ already_bound))
      ⊎ ((existing ≡ some zero_hash)
          × ((tx : Hash) × (send_register_policy_trigger calls.trigger id h ≡ ok tx)
              × (b ≡ bound_by tx)))
unfolding against
against_ok calls id h none b is = absurd cc
against_ok calls id h (some e) b is = elim (Bool-cases (bytes_eq e h)) [
  | inl same ↦ inl (ap some ((bytes_eq_iff e h).0 same), ground (arith, is, same))
  | inr other ↦
      let (unbound, sent) = else_ok (not (bytes_eq e zero_hash)) (bound_to e) _ (rw other at is) in
      let (tx, did, by) = registered_by_ok _ b sent in
      inr (
        ap some ((bytes_eq_iff e zero_hash).0 (ground (arith, unbound))),
        (tx, map_err_ok registering_trigger _ did, by),
      )
]

-- A binding without an error is to the hash that the contract gave for the request: the contract
-- already held it, and nothing was sent; or it held none, and a transaction registered it.
pub bind_trigger_ok :
    (calls : BindCalls) (r : PolicyRecord) (h : Hash) (b : Binding)
    → calls.trigger_request_hash ≡ some h
    → (bind_trigger calls r).0 ≡ ok b
    → ((calls.policy_trigger_request_hash (calls.hex_to_hash r.policy_id) ≡ some h)
        × (b ≡ already_bound))
      ⊎ ((calls.policy_trigger_request_hash (calls.hex_to_hash r.policy_id) ≡ some zero_hash)
          × ((tx : Hash) × (send_register_policy_trigger calls.trigger
                  (calls.hex_to_hash r.policy_id)
                  h
                ≡ ok tx)
              × (b ≡ bound_by tx)))
unfolding bind_trigger hashed_as
bind_trigger_ok calls r h b asked is =
    let (bound, against_it) = else_ok (not calls.binds_sender) binding_sender _ (rw asked at is) in
    against_ok calls (calls.hex_to_hash r.policy_id) h _ b against_it

-- A policy that the contract holds bound to another request is refused, whatever a transaction would
-- have given.
pub bind_trigger_refused :
    (calls : BindCalls) (r : PolicyRecord) (h existing : Hash)
    → calls.trigger_request_hash ≡ some h
    → calls.binds_sender ≡ true
    → calls.policy_trigger_request_hash (calls.hex_to_hash r.policy_id) ≡ some existing
    → bytes_eq existing h ≡ false
    → bytes_eq existing zero_hash ≡ false
    → (bind_trigger calls r).0 ≡ err (bound_to existing)
unfolding bind_trigger hashed_as against
bind_trigger_refused calls r h existing asked bound held other taken =
    rw (asked, bound, held, other, taken) refl
