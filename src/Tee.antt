-- ===== src/Tee.antt =====
-- go/tools/pkg/fccutils: the registration of a TEE machine, and the signing policy's gate.
pub mod Policy
pub mod Registration
pub mod Resume
pub mod Produced
pub mod Attestation
pub mod Results
pub mod OnChain
