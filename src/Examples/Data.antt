-- ===== src/Examples/Data.antt =====
-- The data of the examples: a drought policy, a node that decrypts nothing, and a signer.
use aegis_labs.Common.{
  ℕ, ◌-◌, ◌≡◌, refl, Option, none, some, [], ◌∷◌, ◌++◌, String, if◌then◌else◌, str_eq, length, drop,
  replicate, drop-append, length-append, arith,
}
use aegis_labs.Common.Bytes.{Bytes, Hash, Address, bytes_eq}
use aegis_labs.Model.{RegisterModelRequest}
use aegis_labs.Model.Abi.{static_abi, FitsTuple, tuple_bytes}
use aegis_labs.Extension.Scoring.Owed.{Terms, model_of}
use aegis_labs.Extension.Actions.{DataFixed, Action, Node, Extension}
use aegis_labs.Extension.Replies.{IsEvaluate}
use aegis_labs.Payout.Decision.{Crypto, CryptoLaws}

abbrev pub drought : Terms
drought = record {
  trigger = 1200;
  exit = 400;
  sum = 5000000;
  factor = 9000;
  floor = 100000;
  exit_below = omega arith;
  sum_pos = omega arith;
  sum_256 = omega arith;
  factor_pos = omega arith;
}

-- A policy that pays more than the whole at the exit.
abbrev pub generous : Terms
generous = record drought { factor = 12000; factor_pos = omega arith }

abbrev pub policy : Hash
policy = 7 ∷ replicate 31 0

abbrev pub payee : Address
payee = 9 ∷ replicate 19 0

abbrev pub tee : Address
tee = 5 ∷ replicate 19 0

abbrev pub fits_800 : FitsTuple policy 800 payee
fits_800 = record { id_32 = refl; value_256 = omega arith; to_20 = refl }

abbrev pub drought_request : RegisterModelRequest
drought_request = record { policy_id = policy; model = model_of drought }

abbrev pub name_hash : String → Hash
name_hash name =
    if str_eq name "POLICY"
    then replicate 32 1
    else if str_eq name "REGISTER_MODEL"
    then replicate 32 2
    else replicate 32 3

abbrev pub fixed : ℕ → Bytes → DataFixed
fixed command message = record {
  op_type = replicate 32 1;
  op_command = replicate 32 command;
  original_message = message;
}

-- The first byte of a message is its command.
abbrev pub fixed_of : Bytes → Option DataFixed
fixed_of [] = none
fixed_of (command ∷ message) = some (fixed command message)

abbrev pub test_node : Node
test_node = record {
  to_hash = name_hash;
  parse_data_fixed = fixed_of;
  post_decrypt = λ port ciphertext. some (record { status = 200; body = ciphertext });
  decrypted_message = some;
  read_request = λ plaintext. some (drought_request, []);
  abi = static_abi;
}

abbrev pub action : ℕ → Bytes → Action
action command message = record {
  id = replicate 32 8;
  submission_tag = "submit";
  message = command ∷ message;
}

abbrev pub registering : Action
registering = action 2 (1 ∷ [])

abbrev pub evaluating : Action
evaluating = action 3 (tuple_bytes policy 800 payee)

abbrev pub is_evaluate :
    IsEvaluate test_node (fixed 3 (tuple_bytes policy 800 payee)) policy 800 payee
unfolding bytes_eq
is_evaluate = record {
  op_type = refl;
  op_command = refl;
  commands_differ = refl;
  fits = fits_800;
  message = refl;
}

abbrev pub holding : Extension
holding = record { sign_port = 9090; models = (policy, model_of drought) ∷ [] }

abbrev pub test_crypto : Crypto
test_crypto = record {
  result_hash = λ r. replicate 32 4;
  payload_hash = λ chain_id h. some h;
  text_hash = λ h. h;
  signer_of = λ h signature. some tee;
  bytes_to_hash = λ b. b;
  bytes_to_address = λ b. drop (length b - 20) b;
}

pub last_20 : (pad b : Bytes) → length b ≡ 20 → drop (length (pad ++ b) - 20) (pad ++ b) ≡ b
last_20 pad b h = drop-append _ pad b (omega (arith, h, length-append pad b))

abbrev pub test_crypto_laws : CryptoLaws test_crypto
test_crypto_laws = record { hash_32 = λ b h. refl; address_20 = last_20 }

abbrev pub signature : Bytes
signature = replicate 65 1
