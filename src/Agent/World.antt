-- ===== src/Agent/World.antt =====
-- What a run of go/tools/cmd/aegis works on, and what it reaches outside. The node, the hub, the
-- Data Availability Layer, the proxy and the disk are the parameter `Outside`: at each state of
-- theirs what they answer, and the state that a call leaves.
use aegis_labs.Common.{
  ℕ, String, ◌≡◌, refl, Bool, Option, List, ◌∷◌, if◌then◌else◌, Outcome, ok, err, panic,
}
use aegis_labs.Common.Exec.{Exec}
use aegis_labs.Common.Bytes.{Bytes, Hash, Address}
use aegis_labs.Common.Int.{ℤ}
use aegis_labs.Model.Abi.{Abi}
use aegis_labs.Model.Codec.{DecodeFault}
use aegis_labs.Extension.Actions.{Log}
use aegis_labs.Fdc.Submit.{Hub, SubmitFault, WeatherReading, ReadingFault}
use aegis_labs.Fdc.Polling.{FetchFault, Poll}
use aegis_labs.Instructions.{SenderCalls, SendFault}
use aegis_labs.Payout.Decision.{ActionResponse, Crypto}
use aegis_labs.Payout.Settle.{Chain, SettleFault}
use aegis_labs.Tee.Results.{Waits, ResultFault}
use aegis_labs.Agent.Records.{PolicyRecord, Policies, Json, Disk, Stored, StateFault, put, save}
use aegis_labs.Agent.Pool.{PoolCalls, PoolFault}

-- A transaction that the node took.
pub data Transaction : Type 0 where
  requested : Bytes → Transaction
  evaluated : Hash → Address → Transaction
  settlement : Hash → Transaction

-- What outlives a run: what is outside, the state file, and the transactions sent so far, the last
-- one first.
pub record World (S : Type 0) : Type 0 where
  pub outside : S
  pub file : Stored
  pub journal : List Transaction

-- The state of a run: the world, the records in memory, and the one that the run works on.
pub record Session (S : Type 0) : Type 0 where
  pub world : World S
  pub policies : Policies
  pub current : PolicyRecord

pub record Settings : Type 0 where
  pub policy_name : String
  pub payout_to : Address

-- `P` is a proof.
pub record Outside (S P : Type 0) : Type 0 where
  pub json : Json
  pub disk : S → Disk
  pub pool_calls : S → PoolCalls
  pub hub : S → Hub
  pub after_submit : Bytes → S → S
  -- the fetches before the deadline of the context, and the one at which it is done
  pub fetches : ℕ → Bytes → S → List (Poll P)
  pub last_fetch : ℕ → Bytes → S → Outcome FetchFault (Option P)
  pub after_fetches : ℕ → Bytes → S → S
  pub abi_inputs : Option ℕ
  pub unpack_readings : Bytes → Option (List WeatherReading)
  pub attested : P → Bytes
  -- `evaluate` for a policy, a recipient and a proof
  pub evaluate_calls : Hash → Address → P → S → SenderCalls
  pub evaluate_fee : ℕ
  pub after_evaluate : Hash → Address → P → S → S
  pub read_response : Bytes → Option ActionResponse
  pub waits : Hash → S → Waits
  pub after_result : Hash → S → S
  pub abi : Abi
  pub crypto : Crypto
  pub chain : S → Chain
  pub after_settle : ActionResponse → S → S
  pub hash_hex : Hash → String
  pub hex_to_hash : String → Hash

pub data EvaluateFault : Type 0 where
  state_fault : StateFault → EvaluateFault
  no_policy no_model already_settled unusable_request : EvaluateFault
  pool_fault : PoolFault → EvaluateFault
  submitting : SubmitFault → EvaluateFault
  no_proof : ℕ → EvaluateFault
  decoding_reading : ReadingFault → EvaluateFault
  evaluating : SendFault → EvaluateFault
  no_action_result : ResultFault → EvaluateFault
  could_not_evaluate : Log → EvaluateFault
  decoding_decision : DecodeFault → EvaluateFault
  other_policy : Hash → EvaluateFault
  other_recipient : Address → EvaluateFault
  no_signature : EvaluateFault
  settling settlement_record : SettleFault → EvaluateFault
  money_moved : ℤ → ℤ → EvaluateFault

abbrev pub Run : Type 0 → Type 0 → Type 0
Run S A = Exec (Session S) EvaluateFault A

module _ {S : Type 0} where
  abbrev pub modify : (PolicyRecord → PolicyRecord) → Run S (Unit {0})
  modify f s = (ok tt, record s { current = f s.current })

  -- The session behind a wait.
  abbrev pub moved : (S → S) → Session S → Session S
  moved f s = record s { world = record s.world { outside = f s.world.outside } }

  -- The session behind a call outside, which was sent or not.
  abbrev pub called : (S → S) → Bool → Transaction → Session S → Session S
  called f was_sent t s = record s {
    world = record s.world {
      outside = f s.world.outside;
      journal = if was_sent then t ∷ s.world.journal else s.world.journal;
    };
  }

  saved_session :
      Session S → Outcome StateFault Stored → Outcome EvaluateFault (Unit {0}) × Session S
  saved_session s (ok f) =
      (ok tt, record s { world = record s.world { file = f }; policies = put s.current s.policies })
  saved_session s (err e) = (err (state_fault e), record s { policies = put s.current s.policies })
  saved_session s panic = (panic, s)

  -- `state.saveWith(record)`
  unfoldable pub save_with : {P : Type 0} → Outside S P → Run S (Unit {0})
  unfolding saved_session
  save_with o s = saved_session s (save o.json (o.disk s.world.outside) (put s.current s.policies))

  saved_session_keeps :
      (s : Session S) (m : Outcome StateFault Stored)
      → ((saved_session s m).1.world.journal ≡ s.world.journal)
        × ((saved_session s m).1.world.outside ≡ s.world.outside)
        × ((saved_session s m).1.current ≡ s.current)
  unfolding saved_session
  saved_session_keeps s (ok f) = (refl, refl, refl)
  saved_session_keeps s (err e) = (refl, refl, refl)
  saved_session_keeps s panic = (refl, refl, refl)

  -- A save sends nothing and changes neither what is outside nor the record.
  pub save_keeps :
      {P : Type 0} (o : Outside S P) (s : Session S)
      → ((save_with o s).1.world.journal ≡ s.world.journal)
        × ((save_with o s).1.world.outside ≡ s.world.outside)
        × ((save_with o s).1.current ≡ s.current)
  unfolding save_with
  save_keeps o s =
      saved_session_keeps s (save o.json (o.disk s.world.outside) (put s.current s.policies))

  saved_session_ok :
      (s : Session S) (m : Outcome StateFault Stored) (u : Unit {0})
      → (saved_session s m).0 ≡ ok u
      → (m ≡ ok (saved_session s m).1.world.file)
        × ((saved_session s m).1.policies ≡ put s.current s.policies)
  unfolding saved_session
  saved_session_ok s (ok f) u h = (refl, refl)
  saved_session_ok s (err e) u h = cc
  saved_session_ok s panic u h = cc

  -- A save without an error leaves the file that holds the records with the current one put.
  pub save_ok :
      {P : Type 0} (o : Outside S P) (s : Session S) (u : Unit {0})
      → (save_with o s).0 ≡ ok u
      → (save o.json (o.disk s.world.outside) (put s.current s.policies)
          ≡ ok (save_with o s).1.world.file)
        × ((save_with o s).1.policies ≡ put s.current s.policies)
  unfolding save_with
  save_ok o s = saved_session_ok s (save o.json (o.disk s.world.outside) (put s.current s.policies))
