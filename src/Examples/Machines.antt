-- ===== src/Examples/Machines.antt =====
-- The registration of a machine, resumed, and the gate of the signing policy.
use aegis_labs.Common.{ℕ, ◌+◌, ◌≡◌, refl, ◌⊎◌, ◌↔◌, some, none, List, [], ◌∷◌, true, false, arith}
use aegis_labs.Common.Bytes.{Hash, zero_hash}
use aegis_labs.Tee.Policy.{epoch, check_ftdc_proxy_policy_consistency, check_consistency_iff}
use aegis_labs.Tee.Registration.{
  RegistrationState, saved, Call, availability_check, Calls, contains, register_node,
}
use aegis_labs.Tee.Attestation.{availability_unattested}
use aegis_labs.Tee.Resume.{
  any_call, journal_of, is_pre_register, is_attestation, is_availability, register_node_resumes,
}

abbrev answering : List Call → Calls Hash
answering journal = record {
  identified = true;
  is_registered = false;
  attestation = some (1 ∷ []);
  pre_registration = some (2 ∷ []);
  consistency = none;
  availability = λ id. some (3 ∷ id);
  result_of = λ id. some (4 ∷ id);
  production = λ proof. true;
  saves = true;
  removes = true;
}

-- Steps r and R are done, and a and p are left.
abbrev half_done : RegistrationState
half_done = record {
  completed_steps = b'r' ∷ b'R' ∷ [];
  tee_attest_instruction_id = 2 ∷ [];
  instruction_id = zero_hash;
}

abbrev all_steps : List ℕ
all_steps = b'r' ∷ b'R' ∷ b'a' ∷ b'p' ∷ []

register_node_resumes_example :
    (contains b'r' half_done.completed_steps ≡ true
      → any_call is_pre_register
          (journal_of (register_node answering all_steps zero_hash (saved half_done)))
        ≡ false)
    × (contains b'r' half_done.completed_steps ≡ true
        → contains b'R' half_done.completed_steps ≡ true
        → any_call is_attestation
            (journal_of (register_node answering all_steps zero_hash (saved half_done)))
          ≡ false)
    × (contains b'a' half_done.completed_steps ≡ true
        → any_call is_availability
            (journal_of (register_node answering all_steps zero_hash (saved half_done)))
          ≡ false)
register_node_resumes_example = register_node_resumes answering all_steps zero_hash half_done

abbrev onchain_epoch : ℕ
onchain_epoch = 41

abbrev proxy_policy_id : ℕ
proxy_policy_id = 42

check_consistency_iff_example :
    (check_ftdc_proxy_policy_consistency (epoch onchain_epoch) (some proxy_policy_id) ≡ none)
    ↔ ((proxy_policy_id ≡ onchain_epoch) ⊎ (proxy_policy_id ≡ onchain_epoch + 1))
check_consistency_iff_example = check_consistency_iff onchain_epoch proxy_policy_id (omega arith)

not_checked : contains b'a' half_done.completed_steps ≡ false
unfolding contains
not_checked = refl

availability_unattested_example :
    journal_of (register_node answering (b'a' ∷ []) zero_hash (saved half_done))
    ≡ availability_check zero_hash ∷ []
availability_unattested_example =
    availability_unattested answering zero_hash half_done refl refl not_checked
