-- ===== src/Validate.antt =====
-- go/tools/pkg/validate: the deployment checks and their report.
pub mod Text
pub mod Report
pub mod EnvFile
pub mod Machine
pub mod Deploy
pub mod Registration
pub mod Services
pub mod Testing
pub mod Verdicts
pub mod Grouping
