-- ===== src/Payout/Decision.antt =====
-- go/tools/pkg/payout/actionresult.go, and `DecodeDecision` of settle.go. The hashes, the signature
-- recovery and go-ethereum's byte conversions are the parameter `Crypto`.
use aegis_labs.Common.Bytes.{Bytes, Hash, Address, set_bytes}
use aegis_labs.Common.{
  ℕ, ◌≡◌, Option, none, some, ◌++◌, arith, ◌==◌, if◌then◌else◌, length, take, drop, replicate,
  ◌>>=◌, Outcome, ok, err, panic,
}
use aegis_labs.Model.Abi.{
  FitsTuple, tuple_bytes, length-tuple_bytes, id_word, value_word, to_word, set_bytes_value,
}
use aegis_labs.Extension.Actions.{Action, DataFixed, ActionResult, build_result}

-- `teetypes.ActionResponse`, as far as this package reads it.
pub record ActionResponse : Type 0 where
  pub result : ActionResult
  pub signature : Bytes

pub record Decision : Type 0 where
  pub policy_id : Hash
  pub payout_amount : ℕ
  pub payout_to : Address
  pub instruction_id : Hash
  pub tee_id : Address

pub record Crypto : Type 0 where
  pub result_hash : ActionResult → Bytes
  -- the hash of the payload TEE_ACTION_RESULT for a chain id and a result hash
  pub payload_hash : ℕ → Hash → Option Hash
  pub text_hash : Hash → Bytes
  -- `SigToPub`, then `PubkeyToAddress`
  pub signer_of : Bytes → Bytes → Option Address
  pub bytes_to_hash : Bytes → Hash
  pub bytes_to_address : Bytes → Address

-- A word of the right size is taken as it is, and of a longer one the last 20 bytes.
pub record CryptoLaws (crypto : Crypto) : Type 0 where
  pub hash_32 : (b : Bytes) → length b ≡ 32 → crypto.bytes_to_hash b ≡ b
  pub address_20 : (pad b : Bytes) → length b ≡ 20 → crypto.bytes_to_address (pad ++ b) ≡ b

pub data DecisionFault : Type 0 where
  result_nil : DecisionFault
  hashing_payload : DecisionFault
  wrong_signature_length : ℕ → DecisionFault
  recovering_signer : DecisionFault
  result_failed : ℕ → DecisionFault
  wrong_payload_length : ℕ → DecisionFault

abbrev pub signature_length : ℕ
signature_length = 65

hashed : Option Hash → Outcome DecisionFault Hash
hashed none = err hashing_payload
hashed (some h) = ok h

recovered : Option Address → Outcome DecisionFault Address
recovered none = err recovering_signer
recovered (some tee) = ok tee

module _ (crypto : Crypto) where
  unfoldable pub action_result_sign_hash : ℕ → Option ActionResult → Outcome DecisionFault Hash
  unfolding hashed
  action_result_sign_hash chain_id none = err result_nil
  action_result_sign_hash chain_id (some r) =
      hashed (crypto.payload_hash chain_id (crypto.bytes_to_hash (crypto.result_hash r)))

  unfoldable pub recover_tee_id : ℕ → Option ActionResult → Bytes → Outcome DecisionFault Address
  unfolding recovered
  recover_tee_id chain_id r signature =
      if length signature == signature_length
      then (do
        sign_hash ← action_result_sign_hash chain_id r
        recovered (crypto.signer_of (crypto.text_hash sign_hash) signature))
      else err (wrong_signature_length (length signature))

  unfoldable pub decode_decision : ℕ → ActionResponse → Outcome DecisionFault Decision
  decode_decision chain_id response =
      if response.result.status == 1
      then if length response.result.result_data == 96
        then (do
          tee ← recover_tee_id chain_id (some response.result) response.signature
          ok (record {
            policy_id = crypto.bytes_to_hash (take 32 response.result.result_data);
            payout_amount = set_bytes (take 32 (drop 32 response.result.result_data));
            payout_to = crypto.bytes_to_address (drop 32 (drop 32 response.result.result_data));
            instruction_id = response.result.id;
            tee_id = tee;
          }))
        else err (wrong_payload_length (length response.result.result_data))
      else err (result_failed response.result.status)

-- A result that the enclave built for an encoded decision, under a signature that recovers to an
-- enclave on this chain, decodes to that policy, amount and recipient, for the instruction of the
-- action, and names the enclave.
pub decode_decision-build_result :
    (crypto : Crypto)
    → CryptoLaws crypto
    → (chain_id : ℕ) (a : Action) (df : DataFixed) (id : Hash) (amount : ℕ) (to tee : Address)
      (signature : Bytes)
    → FitsTuple id amount to
    → recover_tee_id crypto chain_id
        (some (build_result a df (tuple_bytes id amount to) 1 none))
        signature
      ≡ ok tee
    → decode_decision crypto chain_id (record {
      result = build_result a df (tuple_bytes id amount to) 1 none;
      signature = signature;
    })
      ≡ ok (record {
        policy_id = id;
        payout_amount = amount;
        payout_to = to;
        instruction_id = a.id;
        tee_id = tee;
      })
unfolding decode_decision build_result
decode_decision-build_result crypto laws chain_id a df id amount to tee signature fits signed =
    rw (length-tuple_bytes id amount to fits) (
      rw signed (
        simp (
          id_word id amount to fits,
          value_word id amount to fits,
          to_word id amount to fits,
          set_bytes_value amount fits.value_256,
          laws.hash_32 id fits.id_32,
          laws.address_20 (replicate 12 0) to fits.to_20,
        )))

abbrev pub IsRefused : Outcome DecisionFault Decision → Type 0
IsRefused (ok d) = ⊥
IsRefused (err f) = Unit {0}
IsRefused panic = ⊥

-- A decision is only read from a result with status 1 and 96 bytes, under a signature of 65 bytes
-- that recovers to the enclave that the decision names.
pub decode_decision_checked :
    (crypto : Crypto) (chain_id : ℕ) (response : ActionResponse) (d : Decision)
    → decode_decision crypto chain_id response ≡ ok d
    → (response.result.status ≡ 1)
      × (length response.result.result_data ≡ 96)
      × (length response.signature ≡ 65)
      × (recover_tee_id crypto chain_id (some response.result) response.signature ≡ ok d.tee_id)
      × (d.instruction_id ≡ response.result.id)
unfolding decode_decision recover_tee_id
decode_decision_checked crypto chain_id response d h =
    (ground arith, ground arith, ground arith, ground arith, ground arith)
