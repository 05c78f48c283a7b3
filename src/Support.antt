-- ===== src/Support.antt =====
-- go/tools/pkg/support: a transaction's receipt, and `CheckTx`. The node's answers are arguments.
pub mod Revert
use aegis_labs.Common.{ℕ, String, Option, none, some, List, ◌==◌, if◌then◌else◌, Outcome, ok, err}
use aegis_labs.Common.Bytes.{Bytes, Hash}

pub record Receipt : Type 0 where
  pub status : ℕ
  pub tx_hash : Hash
  pub block_hash : Hash
  pub logs : List Bytes

pub data TxFault : Type 0 where
  not_mined message_unavailable : TxFault
  transaction_failed : String → TxFault

-- What `bind.WaitMined` gives, and the message of a failed transaction (`getFailingMessage`).
pub record Mined : Type 0 where
  pub receipt : Option Receipt
  pub failing_message : Option String

failure_of : Option String → Outcome TxFault Receipt
failure_of none = err message_unavailable
failure_of (some reason) = err (transaction_failed reason)

checked_receipt : Option String → Option Receipt → Outcome TxFault Receipt
unfolding failure_of
checked_receipt message none = err not_mined
checked_receipt message (some r) = if r.status == 0 then failure_of message else ok r

unfoldable pub check_tx : Mined → Outcome TxFault Receipt
unfolding checked_receipt
check_tx m = checked_receipt m.failing_message m.receipt
