-- ===== src/Agent.antt =====
-- go/tools/cmd/aegis: the operator's policies and the commands that work on them.
pub mod Policies
pub mod Sealing
pub mod Records
pub mod Pool
pub mod World
pub mod Attest
pub mod Score
pub mod Evaluate
pub mod Journal
pub mod Identity
pub mod Register
pub mod Restore
pub mod Minting
pub mod Registration
pub mod Catalog
pub mod Restoring
pub mod Config
pub mod WebConfig
