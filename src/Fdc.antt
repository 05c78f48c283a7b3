-- ===== src/Fdc.antt =====
-- go/tools/pkg/fdc: the Flare Data Connector's client, which brings attested weather data.
pub mod Rounds
pub mod HexText
pub mod Proofs
pub mod Polling
pub mod Feed
pub mod Submit
pub mod Prepare
