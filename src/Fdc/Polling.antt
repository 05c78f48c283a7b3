-- ===== src/Fdc/Polling.antt =====
-- `FetchProof` and `WaitForProof` of go/tools/pkg/fdc/web2json.go: polling the DA layer. The answers of
-- the layer and the state of the context at each round of the loop are the parameter.
use aegis_labs.Common.Bytes.{Bytes}
use aegis_labs.Common.{
  String, ◌≡◌, refl, ◌∙◌, ◌≢◌, Bool, true, false, Option, none, some, List, [], ◌∷◌, ◌++◌,
  if◌then◌else◌, All, ◌>>=◌, map_err, Outcome, ok, err, panic,
}
use aegis_labs.Fdc.Proofs.{ProofFault, Web2JsonProof, decode_proof}
use aegis_labs.Validate.Text.{is_empty}

-- What the POST gives: a body, or an error, of which `not_found` tells whether its text contains
-- "attestation request not found".
pub data Posted : Type 0 where
  body : Bytes → Posted
  post_error : Bool → Posted

pub data FetchFault : Type 0 where
  post_failed decoding_proof_response : FetchFault
  proof_fault : ProofFault → FetchFault

-- The parsed body: the texts of the Merkle proof and of the response.
pub record DaProofResponse : Type 0 where
  pub proof : List String
  pub response_hex : String

module _ {R : Type 0} (read_json : Bytes → Option DaProofResponse) (has_type : Bool)
    (unpack : Bytes → Option (List R)) where
  parsed_proof : Option DaProofResponse → Outcome FetchFault (Option (Web2JsonProof R))
  parsed_proof none = err decoding_proof_response
  parsed_proof (some parsed) = if is_empty parsed.response_hex then ok none else do
    p ← map_err proof_fault (decode_proof has_type unpack parsed.proof parsed.response_hex)
    ok (some p)

  -- `ok none` is the nil proof with a nil error: not finalized yet.
  unfoldable pub fetch_proof : Posted → Outcome FetchFault (Option (Web2JsonProof R))
  unfolding parsed_proof
  fetch_proof (post_error not_found) = if not_found then ok none else err post_failed
  fetch_proof (body buf) = parsed_proof (read_json buf)

-- A round of the loop: what the fetch gave, and whether the context was done when the loop waited.
pub record Poll (P : Type 0) : Type 0 where
  pub fetched : Outcome FetchFault (Option P)
  pub done : Bool

pub data Waited (P : Type 0) : Type 0 where
  proof : P → Waited P
  failed : FetchFault → Waited P
  timed_out crashed polling : Waited P

module _ {P : Type 0} where
  abbrev next : Outcome FetchFault (Option P) → Bool → Waited P → Waited P
  next (ok (some p)) done rest = proof p
  next (err f) done rest = failed f
  next panic done rest = crashed
  next (ok none) done rest = if done then timed_out else rest

  -- `polling` is the loop that goes on behind the rounds of the list.
  unfoldable pub wait_for_proof : List (Poll P) → Waited P
  wait_for_proof [] = polling
  wait_for_proof (poll ∷ rest) = next poll.fetched poll.done (wait_for_proof rest)

  -- Not ready, and not over.
  abbrev pub IsPending : Poll P → Type 0
  IsPending poll = (poll.fetched ≡ ok none) × (poll.done ≡ false)

  pending_skipped :
      (before rest : List (Poll P))
      → All IsPending before
      → wait_for_proof (before ++ rest) ≡ wait_for_proof rest
  unfolding wait_for_proof
  pending_skipped [] rest h = refl
  pending_skipped (poll ∷ before) rest h = rw (h.0.0, h.0.1) (pending_skipped before rest h.1)

  -- Behind rounds that are all pending, a round with a proof makes the loop return that proof,
  -- also when the context is done by then; a round with an error makes it return the error; and a
  -- round with neither, at which the context is done, makes it time out.
  pub wait_for_proof_first :
      (before rest : List (Poll P)) (poll : Poll P)
      → All IsPending before
      → ((p : P) → poll.fetched ≡ ok (some p) → wait_for_proof (before ++ (poll ∷ rest)) ≡ proof p)
        × ((f : FetchFault)
            → poll.fetched ≡ err f
            → wait_for_proof (before ++ (poll ∷ rest)) ≡ failed f)
        × (poll.fetched ≡ ok none
            → poll.done ≡ true
            → wait_for_proof (before ++ (poll ∷ rest)) ≡ timed_out)
  unfolding wait_for_proof
  wait_for_proof_first before rest poll h = (
    λ p e. pending_skipped before (poll ∷ rest) h ∙ rw e,
    λ f e. pending_skipped before (poll ∷ rest) h ∙ rw e,
    λ e d. pending_skipped before (poll ∷ rest) h ∙ rw (e, d),
  )

  next_done : (o : Outcome FetchFault (Option P)) (rest : Waited P) → next o true rest ≢ polling
  next_done (ok (some p)) rest = λ e. cc
  next_done (ok none) rest = λ e. cc
  next_done (err f) rest = λ e. cc
  next_done panic rest = λ e. cc

  next_ends :
      (o : Outcome FetchFault (Option P)) (done : Bool) (rest : Waited P)
      → rest ≢ polling
      → next o done rest ≢ polling
  next_ends (ok (some p)) done rest h = λ e. cc
  next_ends (ok none) true rest h = λ e. cc
  next_ends (ok none) false rest h = h
  next_ends (err f) done rest h = λ e. cc
  next_ends panic done rest h = λ e. cc

  -- The loop does not go on behind rounds one of which has a context that is done.
  pub wait_for_proof_ends :
      (before rest : List (Poll P)) (poll : Poll P)
      → poll.done ≡ true
      → wait_for_proof (before ++ (poll ∷ rest)) ≢ polling
  unfolding wait_for_proof
  wait_for_proof_ends [] rest poll d = rw d (next_done poll.fetched (wait_for_proof rest))
  wait_for_proof_ends (q ∷ before) rest poll d =
      next_ends q.fetched q.done (wait_for_proof (before ++ (poll ∷ rest)))
        (wait_for_proof_ends before rest poll d)
