-- ===== src/Examples.antt =====
-- Concrete inputs: a policy, an enclave, a chain, a deployment, and runs of the code on them.
mod Data
mod Tests
mod Scoring
mod Codecs
mod Enclave
mod Relay
mod Deployment
mod Oracle
mod Machines
mod Operator
mod Codec
mod Agent
mod Registering
mod Restoring
mod Production
mod Settings
mod Journey
