-- ===== src/Extension.antt =====
-- The enclave's extension (go/internal/extension): scoring, and the action handlers.
pub mod Scoring
pub mod Actions
pub mod Handlers
pub mod Invariant
pub mod Replies
pub mod Robust
pub mod History
