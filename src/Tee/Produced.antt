-- ===== src/Tee/Produced.antt =====
-- go/tools/pkg/fccutils/registration.go: the calls of a run of `RegisterNode` with the steps `a` and `p`.
use aegis_labs.Common.{
  ◌≡◌, refl, ap, sym, ◌∙◌, inl, inr, ℕ, true, false, Option, none, some, List, [], ◌∷◌, ◌++◌,
  Outcome, ok, err, panic, Bool-cases, arith, ok_inj,
}
use aegis_labs.Common.Bytes.{Hash}
use aegis_labs.Tee.Policy.{OutOfSync}
use aegis_labs.Tee.Registration.{
  Call, availability_check, fetch_result, Calls, RegisterNodeFault, RegistrationState, StateFile,
  Progress, Stepped, going, stopped, then_do, finish, contains, checked, gated, produced,
  production_step, pre_registration_step, attestation_step, availability_step, start, steps, begun,
  load_state, register_node,
}
use aegis_labs.Tee.Registration.{to_production as production_call}
use aegis_labs.Tee.Resume.{contains-append}

-- The step `a`, where it is not done yet, and the letters behind the first two steps.
module _ {Proof : Type 0} (calls : Calls Proof) (command : List ℕ) where
  pre_registration_unchecked :
      (p q : Progress)
      → pre_registration_step calls command p ≡ going q
      → contains b'a' p.state.completed_steps ≡ false
      → contains b'a' q.state.completed_steps ≡ false
  unfolding pre_registration_step contains
  pre_registration_unchecked p q e h =
      ground (arith, contains-append b'a' p.state.completed_steps (b'r' ∷ []))

  attestation_unchecked :
      (p q : Progress)
      → attestation_step calls command p ≡ going q
      → contains b'a' p.state.completed_steps ≡ false
      → contains b'a' q.state.completed_steps ≡ false
  unfolding attestation_step contains
  attestation_unchecked p q e h =
      ground (arith, contains-append b'a' p.state.completed_steps (b'R' ∷ []))

  -- The check was sent, and its instruction is the one that the run goes on with.
  abbrev IsChecked : Progress → Progress → Type 0
  IsChecked p q =
      (calls.availability p.attest_id ≡ some q.instruction)
      × (q.journal ≡ p.journal ++ (availability_check p.attest_id ∷ []))

  checked_ok :
      (p q : Progress) (o : Option Hash)
      → calls.availability p.attest_id ≡ o
      → checked calls p o ≡ going q
      → IsChecked p q
  unfolding checked
  checked_ok p q none is h = absurd cc
  checked_ok p q (some id) is h = elim (Bool-cases calls.saves) [
    | inl e ↦ let h1 = rw e at h in (is ∙ ground (arith, h1), ground (arith, h1))
    | inr e ↦ let h1 = rw e at h in (is ∙ ground (arith, h1), ground (arith, h1))
  ]

  gated_ok : (p q : Progress) (o : Option OutOfSync) → gated calls p o ≡ going q → IsChecked p q
  unfolding gated
  gated_ok p q (some e) h = absurd cc
  gated_ok p q none h = checked_ok p q (calls.availability p.attest_id) refl h

  availability_ok :
      (given : Hash) (p q : Progress)
      → contains b'a' command ≡ true
      → contains b'a' p.state.completed_steps ≡ false
      → availability_step calls command given p ≡ going q
      → IsChecked p q
  unfolding availability_step
  availability_ok given p q asked left h = gated_ok p q calls.consistency (rw (asked, left) at h)

  -- The proof could be read, and went through.
  IsProduced : Progress → List Call → Hash → Type 0
  IsProduced p journal instruction =
      (proof : Proof) × (calls.result_of p.instruction ≡ some proof)
      × (calls.production proof ≡ true)
      × (journal ≡ p.journal ++ (fetch_result p.instruction ∷ production_call ∷ []))
      × (instruction ≡ p.instruction)

  produced_ok :
      (p q : Progress) (o : Option Proof)
      → calls.result_of p.instruction ≡ o
      → produced calls p o ≡ going q
      → IsProduced p q.journal q.instruction
  unfolding produced IsProduced
  produced_ok p q none is h = absurd cc
  produced_ok p q (some proof) is h = elim (Bool-cases (calls.production proof)) [
    | inl e ↦ let h1 = rw e at h in (proof, is, e, ground (arith, h1), ground (arith, h1))
    | inr e ↦ absurd (ground (arith, h, e))
  ]

  production_ok :
      (p q : Progress)
      → contains b'p' command ≡ true
      → production_step calls command p ≡ going q
      → IsProduced p q.journal q.instruction
  unfolding production_step
  production_ok p q asked h = produced_ok p q (calls.result_of p.instruction) refl (rw asked at h)

  finish_ok :
      (p q : Progress)
      → finish calls p ≡ going q
      → (q.instruction ≡ p.instruction) × (q.journal ≡ p.journal)
  finish_ok p q h = elim (Bool-cases calls.removes) [
    | inl e ↦ (ground (arith, h, e), ground (arith, h, e))
    | inr e ↦ (ground (arith, h, e), ground (arith, h, e))
  ]

-- A chain of steps that goes on, taken apart at its first step.
then_do_ok :
    (x : Stepped) (k : Progress → Stepped) (q : Progress)
    → then_do x k ≡ going q
    → (p : Progress) × (x ≡ going p) × (k p ≡ going q)
then_do_ok (going p) k q h = (p, refl, h)
then_do_ok (stopped f file journal) k q h = absurd cc

append_two : (xs : List Call) (x : Call) (ys : List Call) → (xs ++ (x ∷ [])) ++ ys ≡ xs ++ (x ∷ ys)
append_two [] x ys = refl
append_two (c ∷ xs) x ys = ap (λ l. c ∷ l) (append_two xs x ys)

module _ {Proof : Type 0} (calls : List Call → Calls Proof) (command : List ℕ)
    (checks : contains b'a' command ≡ true) (asked : contains b'p' command ≡ true) where
  -- The run sent the check, read the proof of that instruction, and the proof went through, in this order
  -- and at the end of its journal.
  abbrev pub Produced : Progress → Type 0
  Produced q =
      (journal : List Call) × (attest_id : Hash) × (proof : Proof) × (q.journal
        ≡ journal
          ++ (availability_check attest_id ∷ fetch_result q.instruction ∷ production_call ∷ []))
      × ((calls journal).availability attest_id ≡ some q.instruction)
      × ((calls (journal ++ (availability_check attest_id ∷ []))).result_of q.instruction
          ≡ some proof)
      × ((calls (journal ++ (availability_check attest_id ∷ []))).production proof ≡ true)

  steps_ok :
      (given : Hash) (p q : Progress)
      → contains b'a' p.state.completed_steps ≡ false
      → steps calls command given p ≡ going q
      → Produced q
  unfolding steps IsProduced
  steps_ok given p q left h =
      let (p1, e1, h1) = then_do_ok (pre_registration_step (calls p.journal) command p) _ q h in
      let (p2, e2, h2) = then_do_ok (attestation_step (calls p1.journal) command p1) _ q h1 in
      let (p3, e3, h3) =
        then_do_ok (availability_step (calls p2.journal) command given p2) _ q h2 in
      let (p4, e4, h4) = then_do_ok (production_step (calls p3.journal) command p3) _ q h3 in
      let left1 = pre_registration_unchecked (calls p.journal) command p p1 e1 left in
      let left2 = attestation_unchecked (calls p1.journal) command p1 p2 e2 left1 in
      let (given_id, went) =
        availability_ok (calls p2.journal) command given p2 p3 checks left2 e3 in
      let (proof, read, through, journal, same) =
        production_ok (calls p3.journal) command p3 p4 asked e4 in
      let (instruction, kept) = finish_ok (calls p4.journal) command p4 q h4 in
      let is : q.instruction ≡ p3.instruction = instruction ∙ same in
      (
        p2.journal,
        p2.attest_id,
        proof,
        kept
            ∙ journal
            ∙ ap (λ l. l ++ (fetch_result p3.instruction ∷ production_call ∷ [])) went
            ∙ append_two p2.journal (availability_check p2.attest_id) _
            ∙ ap
                (λ id.
                  p2.journal
                  ++ (availability_check p2.attest_id ∷ fetch_result id ∷ production_call ∷ []))
                (sym is),
        given_id ∙ ap some (sym is),
        ap (λ id. (calls (p2.journal ++ (availability_check p2.attest_id ∷ []))).result_of id) is
            ∙ ap (λ l. (calls l).result_of p3.instruction) (sym went)
            ∙ read,
        ap (λ l. (calls l).production proof) (sym went) ∙ through,
      )

  begun_ok :
      (given : Hash) (file : StateFile) (s : RegistrationState)
      (o : Outcome RegisterNodeFault RegistrationState) (q : Progress)
      → o ≡ ok s
      → contains b'a' s.completed_steps ≡ false
      → begun calls command given file o ≡ going q
      → Produced q
  unfolding begun
  begun_ok given file s (ok r) q is left h =
      let same : r ≡ s = ok_inj is in
      steps_ok given (start file r) q (ap (λ x. contains b'a' x.completed_steps) same ∙ left) h
  begun_ok given file s (err f) q is left h = absurd cc
  begun_ok given file s panic q is left h = absurd cc

  pub register_node-Produced :
      (given : Hash) (file : StateFile) (s : RegistrationState) (q : Progress)
      → load_state file ≡ ok s
      → contains b'a' s.completed_steps ≡ false
      → register_node calls command given file ≡ going q
      → Produced q
  unfolding register_node
  register_node-Produced given file s q loads left h = elim (Bool-cases (calls []).identified) [
    | inl e ↦ begun_ok given file s (load_state file) q loads left (rw e at h)
    | inr e ↦ absurd (ground (arith, h, e))
  ]
