-- ===== src/Support/Revert.antt =====
-- go/tools/pkg/fccutils/revert.go, and `getFailingMessage` with `decodeRevertFromError` of
-- go/tools/pkg/support/support.go: the reason of a revert. `abi.UnpackRevert` is the parameter.
use Prim.Native.String.{◌++◌ as concat}
use aegis_labs.Common.{String, Option, none, some, ltb, ◌==◌, length, if◌then◌else◌}
use aegis_labs.Common.Bytes.{Bytes}
use aegis_labs.Fdc.HexText.{decode_string, encode_to_string, trim_prefix}
use aegis_labs.Validate.Text.{is_empty}

-- An RPC error: the text in its data field, if there is one, and its message.
pub record CallError : Type 0 where
  pub error_data : Option String
  pub message : String

pub data CallAnswer : Type 0 where
  call_failed : CallError → CallAnswer
  call_result : Bytes → CallAnswer

module _ (unpack_revert : Bytes → Option String) where
  reason_or_hex : String → Bytes → Option String → String
  reason_or_hex hex_str decoded none = concat "0x" hex_str
  reason_or_hex hex_str decoded (some reason) = reason

  decoded_reason : String → Option Bytes → String
  unfolding reason_or_hex
  decoded_reason hex_str none = ""
  decoded_reason hex_str (some decoded) =
      if ltb (length decoded) 4 then "" else reason_or_hex hex_str decoded (unpack_revert decoded)

  unfoldable pub decode_revert_hex : String → String
  unfolding decoded_reason
  decode_revert_hex text =
      let hex_str = trim_prefix text in decoded_reason hex_str (decode_string hex_str)

  reason_of_data : Option String → String
  unfolding decode_revert_hex
  reason_of_data none = ""
  reason_of_data (some hex_str) = decode_revert_hex hex_str

  -- `DecodeRevertReason` of an error that is not nil
  unfoldable pub decode_revert_reason : CallError → String
  unfolding reason_of_data
  decode_revert_reason e = reason_of_data e.error_data

  unfoldable pub simulate_and_decode_revert : CallAnswer → String
  unfolding decode_revert_reason
  simulate_and_decode_revert (call_failed e) =
      let reason = decode_revert_reason e in if is_empty reason then e.message else reason
  simulate_and_decode_revert (call_result result) =
      if ltb (length result) 4 then "" else decode_revert_hex (encode_to_string result)

  unpacked_or : String → Option String → String
  unpacked_or otherwise none = otherwise
  unpacked_or otherwise (some reason) = reason

  unpacked_data : Option Bytes → String
  unfolding unpacked_or
  unpacked_data none = ""
  unpacked_data (some decoded) = unpacked_or "" (unpack_revert decoded)

  reverted_data : Option String → String
  unfolding unpacked_data
  reverted_data none = ""
  reverted_data (some hex_str) = unpacked_data (decode_string (trim_prefix hex_str))

  unfoldable pub decode_revert_from_error : CallError → String
  unfolding reverted_data
  decode_revert_from_error e = reverted_data e.error_data

  -- The answer of the replayed call, once the transaction and its sender are known.
  unfoldable pub failing_message : CallAnswer → String
  unfolding decode_revert_from_error unpacked_or
  failing_message (call_failed e) =
      let reason = decode_revert_from_error e in if is_empty reason then e.message else reason
  failing_message (call_result result) =
      unpacked_or
        (if length result == 0
          then "unknown revert reason"
          else concat "0x" (encode_to_string result))
        (unpack_revert result)
