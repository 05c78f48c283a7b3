-- ===== src/Tee/OnChain/Produced.antt =====
-- go/tools/pkg/fccutils/registration.go: what a machine is when `RegisterNode` ends with the steps `a` and `p`.
use aegis_labs.Common.{
  ◌≡◌, refl, ap, sym, ◌∙◌, ◌⊎◌, inl, inr, ℕ, true, false, Option, none, some, List, [], ◌∷◌, ◌++◌,
  Outcome, ok, err, panic, ==_iff, Bool-cases, bind_ok, map_err_ok, then_ok,
}
use aegis_labs.Common.Bytes.{Hash, Address, bytes_eq, bytes_eq_iff}
use aegis_labs.Support.{Receipt, Mined, check_tx}
use aegis_labs.Tee.Registration.{
  Call, availability_check, fetch_result, RegistrationState, StateFile, Progress, going, contains,
  load_state, register_node,
}
use aegis_labs.Tee.Registration.{to_production as production_call}
use aegis_labs.Tee.Produced.{register_node-Produced}
use aegis_labs.Tee.OnChain.{
  OnChainFault, sending, transaction, creating_transactor, not_set_up, MachineChain,
  AvailabilityProof, or_fault, unless_fails, succeeded, in_production, set_up, send_to_production,
  to_production, tee_status_production, request_availability_check,
}
use aegis_labs.Tee.OnChain.Node.{
  ProofReader, NodeArguments, made, done, availability_check_result, node_calls,
}

module _ {H R : Type 0} (chain : MachineChain H R) where
  -- The registry had the proof's machine in production; or the transaction of the proof succeeded, and the
  -- registry holds the machine behind it under its own id.
  abbrev pub WasBrought : (Address → Option Address) → AvailabilityProof H R → Type 0
  WasBrought machine_after proof =
      (chain.machine_status (chain.tee_id_of proof.request_body) ≡ some tee_status_production)
      ⊎ ((m : Mined) × (r : Receipt) × (chain.to_production proof ≡ some m)
          × (check_tx m ≡ ok r)
          × (machine_after (chain.tee_id_of proof.request_body)
              ≡ some (chain.tee_id_of proof.request_body)))

  or_fault_ok :
      {A : Type 0} (f : OnChainFault) (o : Option A) (a : A) → or_fault f o ≡ ok a → o ≡ some a
  unfolding or_fault
  or_fault_ok f none a h = absurd cc
  or_fault_ok f (some b) a h = cc

  succeeded_ok :
      (sent : Option Mined) (r : Receipt)
      → succeeded chain sent ≡ ok r
      → (m : Mined) × (sent ≡ some m) × (check_tx m ≡ ok r)
  unfolding succeeded
  succeeded_ok sent r h =
      let (m, was, h1) = bind_ok (or_fault sending sent) _ h in
      (m, or_fault_ok sending sent m was, map_err_ok transaction _ h1)

  set_up_ok :
      (tee : Address) (o : Option Address) {u : Unit {0}} → set_up chain tee o ≡ ok u → o ≡ some tee
  unfolding set_up
  set_up_ok tee none h = absurd cc
  set_up_ok tee (some held) h =
      ap some ((bytes_eq_iff held tee).0 (then_ok (bytes_eq held tee) not_set_up (ok tt) h).0)

  in_production_ok : (o : Option ℕ) → in_production chain o ≡ true → o ≡ some tee_status_production
  unfolding in_production
  in_production_ok none h = absurd cc
  in_production_ok (some status) h = ap some ((==_iff status tee_status_production).0 h)

  pub to_production_ok :
      (machine_after : Address → Option Address) (proof : AvailabilityProof H R) {u : Unit {0}}
      → to_production chain machine_after proof ≡ ok u
      → WasBrought machine_after proof
  unfolding to_production send_to_production
  to_production_ok machine_after proof h =
      let tee = chain.tee_id_of proof.request_body in
      elim (Bool-cases (in_production chain (chain.machine_status tee))) [
        | inl e ↦ inl (in_production_ok (chain.machine_status tee) e)
        | inr e ↦
            let sent = rw e at h in
            let (v, makes, h1) =
              bind_ok (unless_fails creating_transactor chain.makes_transactor) _ sent in
            let (r, went, h2) = bind_ok (succeeded chain (chain.to_production proof)) _ h1 in
            let (m, was, mined) = succeeded_ok (chain.to_production proof) r went in
            inr (m, r, was, mined, set_up_ok tee (machine_after tee) h2)
      ]

made_ok : {A : Type 0} (o : Outcome OnChainFault A) (a : A) → made o ≡ some a → o ≡ ok a
unfolding made
made_ok (ok b) a h = cc
made_ok (err f) a h = absurd cc
made_ok panic a h = absurd cc

done_ok : (o : Outcome OnChainFault (Unit {0})) → done o ≡ true → o ≡ ok tt
unfolding done
done_ok (ok u) h = refl
done_ok (err f) h = absurd cc
done_ok panic h = absurd cc

-- What the contract and the verifier document: the machine of a proof that a transaction of `toProduction`
-- took is in production behind it; and the result of an instruction that asked for a check of
-- the machine is about that machine.
pub record MachineLaws {H R : Type 0} (chain : List Call → MachineChain H R)
    (reader : ProofReader H R) (a : NodeArguments) : Type 0 where
  pub enters :
      (journal : List Call) (proof : AvailabilityProof H R) (m : Mined) (r : Receipt)
      → (chain journal).to_production proof ≡ some m
      → check_tx m ≡ ok r
      → (chain (journal ++ (production_call ∷ []))).machine_status
          ((chain journal).tee_id_of proof.request_body)
        ≡ some tee_status_production
  pub is_about :
      (journal later : List Call) (attest_id id : Hash) (proof : AvailabilityProof H R)
      → request_availability_check (chain journal) a.tee_id a.external_tee attest_id ≡ ok id
      → availability_check_result reader id ≡ ok proof
      → (chain later).tee_id_of proof.request_body ≡ a.tee_id

-- The machine was in production before; or it is behind the transaction, and the registry holds it under its own id.
abbrev pub InProduction : {H R : Type 0} → MachineChain H R → MachineChain H R → Address → Type 0
InProduction before after tee =
    (before.machine_status tee ≡ some tee_status_production)
    ⊎ ((after.machine_status tee ≡ some tee_status_production) × (after.machine_of tee ≡ some tee))

brought-InProduction :
    {H R : Type 0} (chain : List Call → MachineChain H R) (reader : ProofReader H R)
    (a : NodeArguments) (journal : List Call) (proof : AvailabilityProof H R) (tee : Address)
    → MachineLaws chain reader a
    → (chain journal).tee_id_of proof.request_body ≡ tee
    → WasBrought (chain journal) (chain (journal ++ (production_call ∷ []))).machine_of proof
    → InProduction (chain journal) (chain (journal ++ (production_call ∷ []))) tee
brought-InProduction chain reader a journal proof tee laws is (inl already) =
    inl (ap (chain journal).machine_status (sym is) ∙ already)
brought-InProduction chain reader a journal proof tee laws is (inr (m, r, sent, mined, held)) =
    let after = chain (journal ++ (production_call ∷ [])) in
    inr (
      ap after.machine_status (sym is) ∙ laws.enters journal proof m r sent mined,
      ap after.machine_of (sym is) ∙ held ∙ ap some is,
    )

-- Where the contract and the verifier keep `MachineLaws`: a registration with the steps `a` and `p`, from a state
-- without the step `a`, that ends without an error has sent a check of its machine, has read the proof of
-- that very instruction, and its machine was in production already, or the transaction brought it
-- there and the registry holds it under its own id. The chain's answers may change with each call,
-- so that the machine may be registered in this run.
pub register_node-InProduction :
    {H R : Type 0} (chain : List Call → MachineChain H R) (reader : ProofReader H R)
    (a : NodeArguments) (command : List ℕ) (given : Hash) (file : StateFile) (s : RegistrationState)
    (q : Progress)
    → MachineLaws chain reader a
    → contains b'a' command ≡ true
    → contains b'p' command ≡ true
    → load_state file ≡ ok s
    → contains b'a' s.completed_steps ≡ false
    → register_node (node_calls chain reader a) command given file ≡ going q
    → (journal : List Call) × (attest_id : Hash) × (proof : AvailabilityProof H R) × (q.journal
        ≡ journal
          ++ (availability_check attest_id ∷ fetch_result q.instruction ∷ production_call ∷ []))
      × (request_availability_check (chain journal) a.tee_id a.external_tee attest_id
          ≡ ok q.instruction)
      × (availability_check_result reader q.instruction ≡ ok proof)
      × InProduction
          (chain (journal ++ (availability_check attest_id ∷ [])))
          (chain ((journal ++ (availability_check attest_id ∷ [])) ++ (production_call ∷ [])))
          a.tee_id
unfolding node_calls
register_node-InProduction chain reader a command given file s q laws checks asked loads left h =
    let (journal, attest_id, proof, calls, sent, read, went) =
      register_node-Produced (node_calls chain reader a) command checks asked given file s q loads
        left h in
    let before = journal ++ (availability_check attest_id ∷ []) in
    let requested = made_ok _ q.instruction sent in
    let given_proof = made_ok (availability_check_result reader q.instruction) proof read in
    let is = laws.is_about journal before attest_id q.instruction proof requested given_proof in
    (
      journal,
      attest_id,
      proof,
      calls,
      requested,
      given_proof,
      brought-InProduction chain reader a before proof a.tee_id laws is (
          to_production_ok (chain before) (chain (before ++ (production_call ∷ []))).machine_of
            proof (done_ok _ went)),
    )
