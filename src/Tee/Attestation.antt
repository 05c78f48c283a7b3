-- ===== src/Tee/Attestation.antt =====
-- go/tools/pkg/fccutils/registration.go: the attestation that step `a` is sent for.
use aegis_labs.Common.{◌≡◌, true, false, none, List, [], ◌∷◌, arith, Option-cases, inl, inr}
use aegis_labs.Common.Bytes.{Hash, zero_hash}
use aegis_labs.Tee.Registration.{
  RegistrationState, saved, Call, availability_check, Calls, contains, register_node,
  production_step, checked,
}
use aegis_labs.Tee.Resume.{journal_of}

-- With the command `a` alone on a saved state without that step, the availability check is sent for
-- the zero attestation id, whatever id the state holds.
pub availability_unattested :
    {Proof : Type 0} (calls : List Call → Calls Proof) (given : Hash) (s : RegistrationState)
    → (calls []).identified ≡ true
    → (calls []).consistency ≡ none
    → contains b'a' s.completed_steps ≡ false
    → journal_of (register_node calls (b'a' ∷ []) given (saved s))
      ≡ availability_check zero_hash ∷ []
unfolding register_node contains checked production_step
availability_unattested calls given s i c a =
    elim (Option-cases ((calls []).availability zero_hash)) [
      | inl e ↦ rw (i, c, a, e)
      | inr (id, e) ↦ rw (i, c, a, e) (ground arith)
    ]
