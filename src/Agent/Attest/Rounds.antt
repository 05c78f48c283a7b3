-- ===== src/Agent/Attest/Rounds.antt =====
-- `attest` of go/tools/cmd/aegis/cmd_evaluate.go: which round its proof is of, and when it gets one.
use aegis_labs.Common.{
  ℕ, zero, suc, ◌≤◌, ◌<◌, ◌≡◌, refl, ◌∙◌, ap, sym, arith, ◌⊎◌, inl, inr, Outcome, ok, err,
  map_err_ok, some,
}
use aegis_labs.Common.Exec.{run_ok, ◌>>=◌, ◌>>◌}
use aegis_labs.Common.Bytes.{Bytes, Hash}
use aegis_labs.Fdc.Submit.{submit_request}
use aegis_labs.Fdc.Polling.{FetchFault, Waited, proof, failed, timed_out, crashed, polling}
use aegis_labs.Agent.World.{
  Outside, Session, Run, EvaluateFault, submitting, no_proof, save_with, save_ok, save_keeps,
}
use aegis_labs.Agent.Records.{JsonLaws, get, put, get-put, load_state, loads-save}
use aegis_labs.Agent.Attest.{
  proof_attempts, attempt, submit, note_round, wait_on_round, proof_of_round, proof_or, gives_up,
  attest_from, attest,
}

module _ {S P : Type 0} (o : Outside S P) (request : Bytes) where
  -- What a session with a proof is: the round of the proof is the one of the record, the round of a
  -- request that was submitted, the record is among the records, and these are what the file loads as.
  abbrev pub IsProofOf : P → Session S → Type 0
  IsProofOf p s =
      (at_submit at_wait : S) × (tx : Hash) × (submit_request (o.hub at_submit) request
        ≡ ok (s.current.voting_round, tx))
      × (proof_of_round o s.current.voting_round request at_wait ≡ proof p)
      × (get s.current.name s.policies ≡ some s.current)
      × (load_state o.json s.world.file ≡ ok s.policies)

module _ {S P : Type 0} (o : Outside S P) (laws : JsonLaws o.json) (request : Bytes) where
  saved_and_waited :
      (at_submit : S) (round : ℕ) (tx : Hash) (s : Session S) (p : P)
      → submit_request (o.hub at_submit) request ≡ ok (round, tx)
      → s.current.voting_round ≡ round
      → ((save_with o >> wait_on_round o round request) s).0 ≡ ok (proof p)
      → IsProofOf o request p ((save_with o >> wait_on_round o round request) s).1
  unfolding wait_on_round
  saved_and_waited at_submit round tx s p submitted noted h =
      let (u, saved, waited, is) = run_ok (save_with o) (λ u. wait_on_round o round request) s h in
      let same : (save_with o s).1.current ≡ s.current = (save_keeps o s).2 in
      let (wrote, held) = save_ok o s u saved in
      let loads =
        loads-save o.json (o.disk s.world.outside) (put s.current s.policies)
          (save_with o s).1.world.file laws wrote in
      rw (is, same, held)
        (
          at_submit,
          (save_with o s).1.world.outside,
          tx,
          submitted ∙ ap (λ n. ok (n, tx)) (sym noted),
          ap (λ n. proof_of_round o n request (save_with o s).1.world.outside) noted
              ∙ ground (arith, waited),
          get-put s.current s.policies,
          loads,
        )

  submit_ok :
      (s : Session S) (answer : ℕ × Hash)
      → (submit o request s).0 ≡ ok answer
      → submit_request (o.hub s.world.outside) request ≡ ok answer
  unfolding submit
  submit_ok s answer h = map_err_ok submitting _ h

  attempt_ok :
      (s : Session S) (p : P)
      → (attempt o request s).0 ≡ ok (proof p)
      → IsProofOf o request p (attempt o request s).1
  unfolding attempt note_round
  attempt_ok s p h =
      let (answer, submitted, h1, is) = run_ok (submit o request) _ s h in
      let noted = (submit o request s).1 in
      rw is (
        saved_and_waited s.world.outside answer.0 answer.1
          (record noted { current = record noted.current { voting_round = answer.0 } }) p
          (submit_ok s answer submitted) refl h1)

  judged :
      (again : Run S P) (w : Waited P) (s : Session S) (p : P)
      → (proof_or o again w s).0 ≡ ok p
      → (((w ≡ proof p) × (proof_or o again w s ≡ (ok p, s)))
          ⊎ (((again s).0 ≡ ok p) × (proof_or o again w s ≡ again s)))
  unfolding proof_or
  judged again (proof q) s p h = inl (ground (arith, h), ground (arith, h))
  judged again crashed s p h = cc
  judged again (failed f) s p h = inr (h, refl)
  judged again timed_out s p h = inr (h, refl)
  judged again polling s p h = inr (h, refl)

  -- The step that the induction repeats: a proof of this attempt, or of the attempts behind it.
  one_more :
      (again : Run S P) (s : Session S) (p : P)
      → ((s' : Session S) → (again s').0 ≡ ok p → IsProofOf o request p (again s').1)
      → ((attempt o request >>= proof_or o again) s).0 ≡ ok p
      → IsProofOf o request p ((attempt o request >>= proof_or o again) s).1
  one_more again s p ih h =
      let (w, waited, h1, is) = run_ok (attempt o request) (proof_or o again) s h in
      rw is (elim (judged again w (attempt o request s).1 p h1) [
        | inl (got, ends) ↦ rw ends (attempt_ok s p (waited ∙ ap ok got))
        | inr (later, goes_on) ↦ rw goes_on (ih (attempt o request s).1 later)
      ])

  attest_from_ok :
      (more : ℕ) (s : Session S) (p : P)
      → (attest_from o more request s).0 ≡ ok p
      → IsProofOf o request p (attest_from o more request s).1
  unfolding attest_from gives_up
  attest_from_ok zero s p h = one_more (gives_up o) s p (λ s' none_left. absurd cc) h
  attest_from_ok (suc more) s p h =
      one_more (attest_from o more request) s p (λ s' later. attest_from_ok more s' p later) h

  -- With a codec that reads back what it writes: a proof that `attest` returns is the one that the layer gave
  -- for the voting round that the record now names, that round is the one in which a request with these bytes
  -- was submitted, and the state file loads as records in which that record stands under its name.
  pub attest_ok :
      (s : Session S) (p : P)
      → (attest o request s).0 ≡ ok p
      → IsProofOf o request p (attest o request s).1
  unfolding attest
  attest_ok s p h = attest_from_ok 2 s p h

module _ {S P : Type 0} (o : Outside S P) (request : Bytes) where
  -- The session in front of the attempt `n`, counted from zero, where the attempts before it gave no
  -- proof.
  abbrev pub after_attempts : ℕ → Session S → Session S
  after_attempts zero s = s
  after_attempts (suc n) s = after_attempts n (attempt o request s).1

  -- An attempt that `attest` repeats: its round came back without a proof.
  abbrev pub WithoutProof : Outcome EvaluateFault (Waited P) → Type 0
  WithoutProof answer = ((f : FetchFault) × (answer ≡ ok (failed f))) ⊎ (answer ≡ ok timed_out)

  ends_with :
      (again : Run S P) (s : Session S) (p : P)
      → (attempt o request s).0 ≡ ok (proof p)
      → (attempt o request >>= proof_or o again) s ≡ (ok p, (attempt o request s).1)
  unfolding proof_or
  ends_with again s p h = rw h refl

  repeats :
      (again : Run S P) (s : Session S)
      → WithoutProof (attempt o request s).0
      → (attempt o request >>= proof_or o again) s ≡ again (attempt o request s).1
  unfolding proof_or
  repeats again s (inl (f, h)) = rw h refl
  repeats again s (inr h) = rw h refl

  attest_from_live :
      (more n : ℕ) (s : Session S) (p : P)
      → n ≤ more
      → ((k : ℕ) → k < n → WithoutProof (attempt o request (after_attempts k s)).0)
      → (attempt o request (after_attempts n s)).0 ≡ ok (proof p)
      → attest_from o more request s ≡ (ok p, after_attempts (suc n) s)
  unfolding attest_from
  attest_from_live zero zero s p few quiet h = ends_with (gives_up o) s p h
  attest_from_live (suc more) zero s p few quiet h = ends_with (attest_from o more request) s p h
  attest_from_live zero (suc n) s p few quiet h = absurd (omega arith)
  attest_from_live (suc more) (suc n) s p few quiet h =
      repeats (attest_from o more request) s (quiet 0 (omega arith))
      ∙ attest_from_live more n (attempt o request s).1 p (omega arith)
          (λ k below. quiet (suc k) (omega arith)) h

  -- `attest` returns the proof of the first of its three attempts that gets one, where the rounds of
  -- the attempts before it came back without a proof.
  pub attest_live :
      (s : Session S) (n : ℕ) (p : P)
      → n < proof_attempts
      → ((k : ℕ) → k < n → WithoutProof (attempt o request (after_attempts k s)).0)
      → (attempt o request (after_attempts n s)).0 ≡ ok (proof p)
      → attest o request s ≡ (ok p, after_attempts (suc n) s)
  unfolding attest
  attest_live s n p few quiet h = attest_from_live 2 n s p (omega arith) quiet h

  -- A policy without a proof after three attempts: the error names the round of the last one.
  pub attest_gives_up :
      (s : Session S)
      → ((k : ℕ) → k < proof_attempts → WithoutProof (attempt o request (after_attempts k s)).0)
      → attest o request s
        ≡ (err (no_proof (after_attempts 3 s).current.voting_round), after_attempts 3 s)
  unfolding attest attest_from gives_up
  attest_gives_up s quiet =
      repeats (attest_from o 1 request) s (quiet 0 (omega arith))
      ∙ repeats (attest_from o 0 request) (after_attempts 1 s) (quiet 1 (omega arith))
      ∙ repeats (gives_up o) (after_attempts 2 s) (quiet 2 (omega arith))
