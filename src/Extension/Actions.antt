-- ===== src/Extension/Actions.antt =====
-- go/internal/extension/extension.go and utils.go: the enclave's state and its action handlers.
-- What the enclave calls and the repository does not hold is the record `Node`: the tee-node's
-- /decrypt endpoint and instruction parser, the hash of the command names, the JSON reader and
-- the ABI coder. A handler's JSON body is kept as the value that it encodes.
use aegis_labs.Common.Bytes.{Bytes, Hash, bytes_eq}
use aegis_labs.Common.{
  ℕ, String, Option, none, some, List, [], ◌∷◌, ◌==◌, if◌then◌else◌, length, ◌>>=◌, map_err,
  Outcome, ok, err,
}
use aegis_labs.Model.{ModelParameters, RegisterModelRequest}
use aegis_labs.Model.Abi.{Abi}
use aegis_labs.Model.Codec.{CodecFault, DecodeFault}
use aegis_labs.Model.Register.{RegisterFault, decode_register_model_request}
use aegis_labs.Extension.Scoring.{EvalFault}

-- `instruction.DataFixed` and `teetypes.Action`, as far as the handlers read them.
pub record DataFixed : Type 0 where
  pub op_type : Hash
  pub op_command : Hash
  pub original_message : Bytes

pub record Action : Type 0 where
  pub id : Hash
  pub submission_tag : String
  pub message : Bytes

-- An HTTP response. A body that cannot be read whole is read as far as it comes.
pub record HttpResponse : Type 0 where
  pub status : ℕ
  pub body : Bytes

pub record Node : Type 0 where
  pub to_hash : String → Hash
  pub parse_data_fixed : Bytes → Option DataFixed
  -- POST of a ciphertext to /decrypt on a port; `none` is a transport error
  pub post_decrypt : ℕ → Bytes → Option HttpResponse
  -- the `decryptedMessage` of a response body; `none` is malformed JSON
  pub decrypted_message : Bytes → Option Bytes
  -- the JSON reader with unknown fields disallowed; it returns what it has not read
  pub read_request : Bytes → Option (RegisterModelRequest × Bytes)
  pub abi : Abi

pub data NodeFault : Type 0 where
  request_error : NodeFault
  node_returned : ℕ → Bytes → NodeFault
  decode_response : NodeFault

-- The errors that a handler reports in the log of its result.
pub data Fault : Type 0 where
  message_empty : Fault
  decryption_failed : NodeFault → Fault
  register_fault : RegisterFault → Fault
  evaluate_fault : DecodeFault → Fault
  no_model : Hash → Fault
  scoring_fault : EvalFault → Fault
  encoding_failed : CodecFault → Fault

pub data Log : Type 0 where
  log_empty log_ok : Log
  log_error : Option Fault → Log

-- `teetypes.ActionResult`
pub record ActionResult : Type 0 where
  pub id : Hash
  pub submission_tag : String
  pub version : String
  pub op_type : Hash
  pub op_command : Hash
  pub result_data : Bytes
  pub status : ℕ
  pub log : Log

pub record Extension : Type 0 where
  pub sign_port : ℕ
  pub models : List (Hash × ModelParameters)

abbrev pub new : ℕ → Extension
new sign_port = record { sign_port = sign_port; models = [] }

-- Go's map of models, as an association list with each key once.
unfoldable pub lookup : Hash → List (Hash × ModelParameters) → Option ModelParameters
lookup k [] = none
lookup k ((j, m) ∷ rest) = if bytes_eq j k then some m else lookup k rest

unfoldable pub insert :
    Hash → ModelParameters → List (Hash × ModelParameters) → List (Hash × ModelParameters)
insert k m [] = (k, m) ∷ []
insert k m ((j, n) ∷ rest) = if bytes_eq j k then (k, m) ∷ rest else (j, n) ∷ insert k m rest

-- `GET /state` reports the number of models.
unfoldable pub registered_models : Extension → ℕ
registered_models e = length e.models

abbrev pub version : String
version = "0.1.0"

abbrev status_log : ℕ → Option Fault → Log
status_log status fault =
    if status == 0 then log_error fault else if status == 1 then log_ok else log_empty

unfoldable pub build_result : Action → DataFixed → Bytes → ℕ → Option Fault → ActionResult
build_result a df buf status fault = record {
  id = a.id;
  submission_tag = a.submission_tag;
  version = version;
  op_type = df.op_type;
  op_command = df.op_command;
  result_data = buf;
  status = status;
  log = status_log status fault;
}

decoded_message : Option Bytes → Outcome NodeFault Bytes
decoded_message none = err decode_response
decoded_message (some plaintext) = ok plaintext

answered : (Bytes → Option Bytes) → Option HttpResponse → Outcome NodeFault Bytes
unfolding decoded_message
answered read none = err request_error
answered read (some resp) =
    if resp.status == 200
    then decoded_message (read resp.body)
    else err (node_returned resp.status resp.body)

module _ (node : Node) where
  unfoldable pub decrypt_via_node : ℕ → Bytes → Outcome NodeFault Bytes
  unfolding answered
  decrypt_via_node port ciphertext =
      answered node.decrypted_message (node.post_decrypt port ciphertext)

  -- What registration reads out of the message, before the map is written.
  unfoldable pub registration : ℕ → DataFixed → Outcome Fault RegisterModelRequest
  unfolding decrypt_via_node
  registration port df = if length df.original_message == 0 then err message_empty else do
    plaintext ← map_err decryption_failed (decrypt_via_node port df.original_message)
    map_err register_fault (decode_register_model_request node.read_request plaintext)
