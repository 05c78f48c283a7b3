-- ===== src/Fdc/Submit.antt =====
-- `RequestFee`, `SubmitRequest` and `DecodeWeatherReading` of go/tools/pkg/fdc/web2json.go. The hub's
-- contracts and the ABI are parameters.
use aegis_labs.Common.{
  ◌>>=◌, ℕ, ◌≡◌, Bool, not, Option, none, some, List, [], ◌∷◌, ◌==◌, if◌then◌else◌, map_err,
  bind_ok, map_err_ok, then_ok, else_ok, Outcome, ok, err, arith, length,
}
use aegis_labs.Common.Bytes.{Bytes, Hash, Address}
use aegis_labs.Common.Int.{ℤ}
use aegis_labs.Support.{Receipt, Mined, TxFault, check_tx}
use aegis_labs.Fdc.Rounds.{Geometry, RoundFault, voting_round_id}

-- A value that `getRequestFee` returns.
pub data FeeValue : Type 0 where
  fee_of : ℕ → FeeValue
  other_value : FeeValue

pub record Hub : Type 0 where
  -- the addresses file names an FdcHub
  pub configured : Bool
  pub fee_configurations : Option Address
  pub fee_abi_parses : Bool
  pub get_request_fee : Address → Bytes → Option (List FeeValue)
  pub makes_transactor : Bool
  -- the call `requestAttestation` with a value in wei: the transaction, with what waiting gives
  pub request_attestation : ℕ → Bytes → Option Mined
  pub header_time : Hash → Option ℕ
  pub geometry : Geometry

pub data SubmitFault : Type 0 where
  hub_not_configured reading_configurations parsing_fee_abi calling_fee : SubmitFault
  fee_count : ℕ → SubmitFault
  fee_type creating_transactor request_refused : SubmitFault
  request_failed : TxFault → SubmitFault
  reading_block : SubmitFault
  round_fault : RoundFault → SubmitFault

or_fault : {A : Type 0} → SubmitFault → Option A → Outcome SubmitFault A
or_fault f none = err f
or_fault f (some a) = ok a

fee_value : FeeValue → Outcome SubmitFault ℕ
fee_value (fee_of fee) = ok fee
fee_value other_value = err fee_type

one_fee : List FeeValue → Outcome SubmitFault ℕ
unfolding fee_value
one_fee (v ∷ []) = fee_value v
one_fee values = err (fee_count (length values))

unfoldable pub request_fee : Hub → Bytes → Outcome SubmitFault ℕ
unfolding or_fault one_fee
request_fee hub request = if not hub.configured then err hub_not_configured else do
  config ← or_fault reading_configurations hub.fee_configurations
  values ←
      if hub.fee_abi_parses
      then or_fault calling_fee (hub.get_request_fee config request)
      else err parsing_fee_abi
  one_fee values

unfoldable pub submit_request : Hub → Bytes → Outcome SubmitFault (ℕ × Hash)
unfolding request_fee or_fault
submit_request hub request = if not hub.configured then err hub_not_configured else do
  fee ← request_fee hub request
  m ←
      if hub.makes_transactor
      then or_fault request_refused (hub.request_attestation fee request)
      else err creating_transactor
  r ← map_err request_failed (check_tx m)
  time ← or_fault reading_block (hub.header_time r.block_hash)
  round ← map_err round_fault (voting_round_id hub.geometry time)
  ok (round, r.tx_hash)

-- The signed micro-degrees and the rainfall.
pub record WeatherReading : Type 0 where
  pub latitude_micro_deg : Option ℤ
  pub longitude_micro_deg : Option ℤ
  pub rainfall_tenths_mm : Option ℤ

pub data ReadingFault : Type 0 where
  proof_nil loading_abi no_weather_reading decoding_reading : ReadingFault
  reading_count : ℕ → ReadingFault

one_reading : List WeatherReading → Outcome ReadingFault WeatherReading
one_reading (r ∷ []) = ok r
one_reading values = err (reading_count (length values))

unpacked_readings : Option (List WeatherReading) → Outcome ReadingFault WeatherReading
unfolding one_reading
unpacked_readings none = err decoding_reading
unpacked_readings (some values) = one_reading values

-- The ABI of the contract: an error, or the number of inputs of `weatherReadingAbi`, zero where
-- there is no such method. `unpack` reads the attested data.
unfoldable pub decode_weather_reading :
    Option ℕ
    → (Bytes → Option (List WeatherReading))
    → Option Bytes
    → Outcome ReadingFault WeatherReading
unfolding unpacked_readings
decode_weather_reading abi_inputs unpack none = err proof_nil
decode_weather_reading none unpack (some attested) = err loading_abi
decode_weather_reading (some inputs) unpack (some attested) =
    if inputs == 1 then unpacked_readings (unpack attested) else err no_weather_reading

or_fault_ok :
    {A : Type 0} (f : SubmitFault) (o : Option A) {a : A} → or_fault f o ≡ ok a → o ≡ some a
unfolding or_fault
or_fault_ok f none h = cc
or_fault_ok f (some b) h = ground arith

-- A submitted request was paid the fee that the hub asks for it, its transaction succeeded, and the
-- round that is returned is the one that covers the time of the block of the transaction.
pub submit_request_ok :
    (hub : Hub) (request : Bytes) (round : ℕ) (tx : Hash)
    → submit_request hub request ≡ ok (round, tx)
    → (fee : ℕ) × (m : Mined) × (r : Receipt) × (time : ℕ) × (request_fee hub request ≡ ok fee)
      × (hub.request_attestation fee request ≡ some m)
      × (check_tx m ≡ ok r)
      × (hub.header_time r.block_hash ≡ some time)
      × (voting_round_id hub.geometry time ≡ ok round)
      × (tx ≡ r.tx_hash)
unfolding submit_request
submit_request_ok hub request round tx h =
    let (set, h1) = else_ok (not hub.configured) hub_not_configured _ h in
    let (fee, paid, h2) = bind_ok (request_fee hub request) _ h1 in
    let (m, taken, h3) =
      bind_ok
        (if hub.makes_transactor
          then or_fault request_refused (hub.request_attestation fee request)
          else err creating_transactor)
        _ h2 in
    let (r, mined, h4) = bind_ok (map_err request_failed (check_tx m)) _ h3 in
    let (time, block, h5) = bind_ok (or_fault reading_block (hub.header_time r.block_hash)) _ h4 in
    let (covering, reached, h6) =
      bind_ok (map_err round_fault (voting_round_id hub.geometry time)) _ h5 in
    (
      fee,
      m,
      r,
      time,
      paid,
      or_fault_ok request_refused (hub.request_attestation fee request)
          (then_ok hub.makes_transactor creating_transactor _ taken).1,
      map_err_ok request_failed (check_tx m) mined,
      or_fault_ok reading_block (hub.header_time r.block_hash) block,
      ground (arith, map_err_ok round_fault (voting_round_id hub.geometry time) reached, h6),
      ground (arith, h6),
    )
