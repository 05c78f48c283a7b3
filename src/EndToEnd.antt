-- ===== src/EndToEnd.antt =====
-- go/tools/cmd/run-test/main.go: the end-to-end test's own arithmetic, its policies and its checks. A
-- failed check stops the program, so each is an error here.
pub mod Payout
pub mod Network
pub mod Steps
pub mod Settling
pub mod Program
pub mod Decided
pub mod Paid
pub mod Identity
pub mod Passed
