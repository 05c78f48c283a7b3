-- ===== src/EndToEnd/Paid.antt =====
-- What a settlement that passes its checks in go/tools/cmd/run-test/main.go shows.
use aegis_labs.Common.{
  ℕ, ◌+◌, true, false, ◌==◌, ◌≡◌, ap, ◌∙◌, sym, none, some, ok, map_err, bind_ok, map_err_ok,
  ==_iff, arith, Option-cases, inl, inr, if◌then◌else◌,
}
use aegis_labs.Common.Int.{pos, eq_ℤ, ◌-ℤ◌}
use aegis_labs.Common.Bytes.{Address, bytes_eq, bytes_eq_iff}
use aegis_labs.Payout.Decision.{ActionResponse, Decision, decode_decision}
use aegis_labs.Payout.Settle.{Record, Settled, settle, settlement_of, settle_ok}
use aegis_labs.Agent.Pool.{Pool}
use aegis_labs.EndToEnd.Network.{
  TestPolicy, Network, require, given, no_decision, settlement_record, recipient_moved, pool_moved,
  not_settled, recorded_amount, recorded_instruction, recorded_recipient, wet_season_paid,
}
use aegis_labs.EndToEnd.Settling.{balance_of, settled_decision, assert_recorded, settle_policy}
use aegis_labs.EndToEnd.Decided.{present_ok, require_ok, given_ok, moved_by}

some_inj : {A : Type 0} {x y : A} → some x ≡ some y → x ≡ y
some_inj h = cc

-- The decision behind a settlement without an error.
settled_decision_ok :
    (s : Settled) (d : Decision)
    → settled_decision s ≡ ok d
    → (s.fault ≡ none) × (s.decision ≡ some d)
unfolding settled_decision
settled_decision_ok s d h = elim (Option-cases s.fault) [
  | inl e ↦ (e, present_ok s.decision (rw e at h))
  | inr (f, e) ↦ absurd (ground (arith, e, h))
]

module _ {P : Type 0} (net : Network P) (payee : Address) where
  -- What the chain recorded agrees with the decision.
  abbrev pub IsRecorded : TestPolicy P → ActionResponse → Decision → Type 0
  IsRecorded p response d =
      (r : Record) × (settlement_of (net.chain p.id) p.id ≡ ok r)
      × (r.settled ≡ true)
      × (r.amount ≡ d.payout_amount)
      × (r.instruction_id ≡ response.result.id)
      × (p.should_trigger ≡ true → r.payout_to ≡ payee)
      × (p.should_trigger ≡ false → d.payout_amount ≡ 0)

  -- The policy's signed answer was relayed, exactly its amount went from the executor to the recipient, and the chain
  -- recorded that.
  abbrev pub IsPaid : Pool → TestPolicy P → Type 0
  IsPaid pool p =
      (response : ActionResponse) × (d : Decision) × (got held : ℕ) × (p.decision ≡ some response)
      × (decode_decision net.crypto (net.chain p.id).chain_id response ≡ ok d)
      × (balance_of net payee (net.before_settle p.id) pool payee ≡ ok got)
      × (balance_of net payee (net.after_settle p.id) pool payee ≡ ok (d.payout_amount + got))
      × (balance_of net payee (net.after_settle p.id) pool pool.executor ≡ ok held)
      × (balance_of net payee (net.before_settle p.id) pool pool.executor
          ≡ ok (d.payout_amount + held))
      × IsRecorded p response d

  recipient_or_nothing :
      (p : TestPolicy P) (d : Decision) (r : Record) {u : Unit {0}}
      → (if p.should_trigger
          then require recorded_recipient (bytes_eq r.payout_to payee)
          else require wet_season_paid (d.payout_amount == 0))
        ≡ ok u
      → (p.should_trigger ≡ true → r.payout_to ≡ payee)
        × (p.should_trigger ≡ false → d.payout_amount ≡ 0)
  recipient_or_nothing p d r h = (
    λ e. (bytes_eq_iff r.payout_to payee).0 (require_ok recorded_recipient _ (rw e at h)),
    λ e. (==_iff d.payout_amount 0).0 (require_ok wet_season_paid _ (rw e at h)),
  )

  assert_recorded_ok :
      (p : TestPolicy P) (response : ActionResponse) (d : Decision) (r : Record) {u : Unit {0}}
      → settlement_of (net.chain p.id) p.id ≡ ok r
      → assert_recorded net payee p response d r ≡ ok u
      → IsRecorded p response d
  unfolding assert_recorded
  assert_recorded_ok p response d r there h =
      let (a, settled, h1) = bind_ok (require not_settled r.settled) _ h in
      let (b, amount, h2) = bind_ok (require recorded_amount (r.amount == d.payout_amount)) _ h1 in
      let (c, instruction, h3) =
        bind_ok (require recorded_instruction (bytes_eq r.instruction_id response.result.id)) _
          h2 in
      let (paid, nothing) = recipient_or_nothing p d r h3 in
      (
        r,
        there,
        require_ok not_settled _ settled,
        (==_iff r.amount d.payout_amount).0 (require_ok recorded_amount _ amount),
        (bytes_eq_iff r.instruction_id response.result.id).0
            (require_ok recorded_instruction _ instruction),
        paid,
        nothing,
      )

  pub settle_policy_ok :
      (pool : Pool) (p : TestPolicy P) {u : Unit {0}}
      → settle_policy net payee pool p ≡ ok u
      → IsPaid pool p
  unfolding settle_policy
  settle_policy_ok pool p h =
      let before = net.before_settle p.id in
      let after = net.after_settle p.id in
      let (response, kept, h1) = bind_ok (given no_decision p.decision) _ h in
      let (rb, was, h2) = bind_ok (balance_of net payee before pool payee) _ h1 in
      let (pb, held, h3) = bind_ok (balance_of net payee before pool pool.executor) _ h2 in
      let sent = settle net.crypto (net.chain p.id) (some response) in
      let (d, settled, h4) = bind_ok (settled_decision sent) _ h3 in
      let (ra, is, h5) = bind_ok (balance_of net payee after pool payee) _ h4 in
      let (pa, left, h6) = bind_ok (balance_of net payee after pool pool.executor) _ h5 in
      let (a, got, h7) =
        bind_ok (require recipient_moved (eq_ℤ (pos ra -ℤ pos rb) (pos d.payout_amount))) _ h6 in
      let (b, gone, h8) =
        bind_ok (require pool_moved (eq_ℤ (pos pb -ℤ pos pa) (pos d.payout_amount))) _ h7 in
      let (r, recorded, h9) =
        bind_ok (map_err settlement_record (settlement_of (net.chain p.id) p.id)) _ h8 in
      let (no_fault, with_decision) = settled_decision_ok sent d settled in
      let (d', tx, decoded, went, confirmed, returned) =
        settle_ok net.crypto (net.chain p.id) response no_fault in
      let same : d' ≡ d = some_inj (sym returned ∙ with_decision) in
      (
        response,
        d,
        rb,
        pa,
        given_ok no_decision p.decision kept,
        decoded ∙ ap ok same,
        was,
        is ∙ ap ok (moved_by ra rb d.payout_amount (require_ok recipient_moved _ got)),
        left,
        held ∙ ap ok (moved_by pb pa d.payout_amount (require_ok pool_moved _ gone)),
        assert_recorded_ok p response d r (map_err_ok settlement_record _ recorded) h9,
      )
