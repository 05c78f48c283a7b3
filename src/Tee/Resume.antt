-- ===== src/Tee/Resume.antt =====
-- go/tools/pkg/fccutils/registration.go: the journal of a resumed registration.
use aegis_labs.Common.Bytes.{Hash}
use aegis_labs.Common.{
  ℕ, ◌≡◌, refl, ◌∙◌, ◌⊎◌, inl, inr, Bool, true, false, ◌||◌, List, [], ◌∷◌, ◌++◌, arith, Bool-cases,
}
use aegis_labs.Tee.Registration.{
  RegistrationState, saved, Call, request_attestation, pre_register, availability_check,
  fetch_result, to_production, Calls, contains, Progress, Stepped, going, stopped, then_do, finish,
  start, steps, pre_registration_step, attestation_step, availability_step, production_step,
  register_node,
}

abbrev pub is_pre_register : Call → Bool
is_pre_register pre_register = true
is_pre_register _ = false

abbrev pub is_attestation : Call → Bool
is_attestation request_attestation = true
is_attestation _ = false

abbrev pub is_availability : Call → Bool
is_availability (availability_check id) = true
is_availability _ = false

abbrev pub any_call : (Call → Bool) → List Call → Bool
any_call test [] = false
any_call test (c ∷ rest) = test c || any_call test rest

abbrev pub journal_of : Stepped → List Call
journal_of (going p) = p.journal
journal_of (stopped f file journal) = journal

any_call-append :
    (test : Call → Bool) (xs ys : List Call)
    → any_call test (xs ++ ys) ≡ (any_call test xs || any_call test ys)
any_call-append test [] ys = refl
any_call-append test (x ∷ xs) ys = ground (arith, any_call-append test xs ys)

pub contains-append :
    (c : ℕ) (xs ys : List ℕ) → contains c (xs ++ ys) ≡ (contains c xs || contains c ys)
unfolding contains
contains-append c [] ys = refl
contains-append c (x ∷ xs) ys = ground (arith, contains-append c xs ys)

-- The calls that each step adds.
module _ {Proof : Type 0} (calls : Calls Proof) (command : List ℕ) (given : Hash)
    (p : Progress) where
  pre_registration_quiet :
      (test : Call → Bool)
      → (contains b'r' p.state.completed_steps ≡ true)
        ⊎ ((test request_attestation ≡ false) × (test pre_register ≡ false))
      → any_call test (journal_of (pre_registration_step calls command p)) ≡ any_call test p.journal
  unfolding pre_registration_step
  pre_registration_quiet test h = ground (
    arith,
    any_call-append test p.journal (request_attestation ∷ []),
    any_call-append test p.journal (pre_register ∷ []),
  )

  attestation_quiet :
      (test : Call → Bool)
      → (contains b'R' p.state.completed_steps ≡ true) ⊎ (test request_attestation ≡ false)
      → any_call test (journal_of (attestation_step calls command p)) ≡ any_call test p.journal
  unfolding attestation_step
  attestation_quiet test h =
      ground (arith, any_call-append test p.journal (request_attestation ∷ []))

  availability_quiet :
      (test : Call → Bool)
      → (contains b'a' p.state.completed_steps ≡ true)
        ⊎ (test (availability_check p.attest_id) ≡ false)
      → any_call test (journal_of (availability_step calls command given p))
        ≡ any_call test p.journal
  unfolding availability_step
  availability_quiet test h =
      ground (arith, any_call-append test p.journal (availability_check p.attest_id ∷ []))

  production_quiet :
      (test : Call → Bool)
      → test (fetch_result p.instruction) ≡ false
      → test to_production ≡ false
      → any_call test (journal_of (production_step calls command p)) ≡ any_call test p.journal
  unfolding production_step
  production_quiet test h k = ground (
    arith,
    any_call-append test p.journal (fetch_result p.instruction ∷ []),
    any_call-append test p.journal (fetch_result p.instruction ∷ to_production ∷ []),
  )

-- The letters behind the first two steps.
module _ {Proof : Type 0} (calls : Calls Proof) (command : List ℕ) (c : ℕ) (p q : Progress) where
  pre_registration_keeps :
      pre_registration_step calls command p ≡ going q
      → contains c p.state.completed_steps ≡ true
      → contains c q.state.completed_steps ≡ true
  unfolding pre_registration_step
  pre_registration_keeps e h = ground (arith, contains-append c p.state.completed_steps (b'r' ∷ []))

  attestation_keeps :
      attestation_step calls command p ≡ going q
      → contains c p.state.completed_steps ≡ true
      → contains c q.state.completed_steps ≡ true
  unfolding attestation_step
  attestation_keeps e h = ground (arith, contains-append c p.state.completed_steps (b'R' ∷ []))

-- A chain of steps makes no call of a kind if none of them does.
then_do_quiet :
    (test : Call → Bool) (s : Stepped) (k : Progress → Stepped)
    → any_call test (journal_of s) ≡ false
    → ((p : Progress)
        → s ≡ going p
        → any_call test p.journal ≡ false
        → any_call test (journal_of (k p)) ≡ false)
    → any_call test (journal_of (then_do s k)) ≡ false
then_do_quiet test (going p) k h next = next p refl h
then_do_quiet test (stopped f file journal) k h next = h

-- The last two steps, for a kind of call that is not the last step's.
module _ {Proof : Type 0} (calls : List Call → Calls Proof) (command : List ℕ) (given : Hash)
    (test : Call → Bool) where
  abbrev IsEarly : Type 0
  IsEarly = ((id : Hash) → test (fetch_result id) ≡ false) × (test to_production ≡ false)

  -- The letter of a step is there, or the kind is not that step's.
  record IsDone (p : Progress) : Type 0 where
    first :
        (contains b'r' p.state.completed_steps ≡ true)
        ⊎ ((test request_attestation ≡ false) × (test pre_register ≡ false))
    second : (contains b'R' p.state.completed_steps ≡ true) ⊎ (test request_attestation ≡ false)
    third :
        (contains b'a' p.state.completed_steps ≡ true)
        ⊎ ((id : Hash) → test (availability_check id) ≡ false)

  availability_case :
      (p : Progress)
      → (contains b'a' p.state.completed_steps ≡ true)
        ⊎ ((id : Hash) → test (availability_check id) ≡ false)
      → (contains b'a' p.state.completed_steps ≡ true)
        ⊎ (test (availability_check p.attest_id) ≡ false)
  availability_case p (inl h) = inl h
  availability_case p (inr h) = inr (h p.attest_id)

  kept :
      {A : Type 0} (c : ℕ) (p q : Progress)
      → (contains c p.state.completed_steps ≡ true → contains c q.state.completed_steps ≡ true)
      → (contains c p.state.completed_steps ≡ true) ⊎ A
      → (contains c q.state.completed_steps ≡ true) ⊎ A
  kept c p q f (inl h) = inl (f h)
  kept c p q f (inr h) = inr h

  finish_quiet :
      (p : Progress)
      → any_call test p.journal ≡ false
      → any_call test (journal_of (finish (calls p.journal) p)) ≡ false
  finish_quiet p h = ground (arith, h)

  steps_quiet :
      (p : Progress)
      → IsEarly
      → IsDone p
      → any_call test p.journal ≡ false
      → any_call test (journal_of (steps calls command given p)) ≡ false
  unfolding steps
  steps_quiet p early d h =
      then_do_quiet test (pre_registration_step (calls p.journal) command p) _
        (pre_registration_quiet (calls p.journal) command given p test d.first ∙ h)
        λ q eq hq.
          then_do_quiet test (attestation_step (calls q.journal) command q) _
            (attestation_quiet (calls q.journal) command given q test (
                kept b'R' p q (pre_registration_keeps (calls p.journal) command b'R' p q eq)
                  d.second)
              ∙ hq)
            λ s es hs.
              then_do_quiet test (availability_step (calls s.journal) command given s) _
                (availability_quiet (calls s.journal) command given s test (
                    availability_case s (
                      kept b'a' q s (attestation_keeps (calls q.journal) command b'a' q s es) (
                        kept b'a' p q (pre_registration_keeps (calls p.journal) command b'a' p q eq)
                          d.third)))
                  ∙ hs)
                λ t et ht.
                  then_do_quiet test (production_step (calls t.journal) command t) _
                    (production_quiet (calls t.journal) command given t test (early.0 t.instruction)
                        early.1
                      ∙ ht)
                    λ u eu hu. finish_quiet u hu

register_node_quiet :
    {Proof : Type 0} (calls : List Call → Calls Proof) (command : List ℕ) (given : Hash)
    (s : RegistrationState) (test : Call → Bool)
    → IsEarly calls command given test
    → IsDone calls command given test (start (saved s) s)
    → any_call test (journal_of (register_node calls command given (saved s))) ≡ false
unfolding register_node
register_node_quiet calls command given s test early d = elim (Bool-cases (calls []).identified) [
  | inl e ↦ rw e (steps_quiet calls command given test (start (saved s) s) early d refl)
  | inr e ↦ rw e
]

-- From a saved state, whatever the command is and whatever the calls answer: with r among the
-- completed steps no machine is pre-registered, with r and R no attestation is requested, and with
-- a no availability check is sent.
pub register_node_resumes :
    {Proof : Type 0} (calls : List Call → Calls Proof) (command : List ℕ) (given : Hash)
    (s : RegistrationState)
    → (contains b'r' s.completed_steps ≡ true
        → any_call is_pre_register (journal_of (register_node calls command given (saved s)))
          ≡ false)
      × (contains b'r' s.completed_steps ≡ true
          → contains b'R' s.completed_steps ≡ true
          → any_call is_attestation (journal_of (register_node calls command given (saved s)))
            ≡ false)
      × (contains b'a' s.completed_steps ≡ true
          → any_call is_availability (journal_of (register_node calls command given (saved s)))
            ≡ false)
register_node_resumes calls command given s = (
  λ r.
      register_node_quiet calls command given s is_pre_register ((λ id. refl), refl)
        (record { first = inl r; second = inr refl; third = inr (λ id. refl) }),
  λ r a.
      register_node_quiet calls command given s is_attestation ((λ id. refl), refl)
        (record { first = inl r; second = inl a; third = inr (λ id. refl) }),
  λ a.
      register_node_quiet calls command given s is_availability ((λ id. refl), refl)
        (record { first = inr (refl, refl); second = inr refl; third = inl a }),
)
