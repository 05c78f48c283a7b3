-- ===== src/Payout.antt =====
-- go/tools/pkg/payout: from a signed action result to a transaction on PolicySettlement.
pub mod Decision
pub mod Settle
