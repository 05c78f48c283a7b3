-- ===== src/Fdc/HexText.antt =====
-- `EncodeAttestationName` and `hexutilDecode` of go/tools/pkg/fdc/web2json.go, and encoding/hex.
use aegis_labs.Common.Bytes.{Bytes}
use aegis_labs.Common.{
  ℕ, zero, suc, ◌+◌, ◌-◌, ◌*◌, ◌/◌, ◌%◌, ◌≤◌, ◌<◌, String, ◌≡◌, refl, ap, ◌∙◌, Bool, true, false,
  not, ◌&&◌, Option, none, some, List, [], ◌∷◌, ◌++◌, arith, ltb, leb, ◌==◌, if◌then◌else◌, lt→ltb,
  length, replicate, length-append, length-replicate, All, All-append, Outcome, ok, err,
}
use Prim.Native.Char.{Char, code}
use Prim.Native.String.{String}
use aegis_labs.Validate.Text.{trim_space, trim_right, is_white, keep_unless}

abbrev hex_chars : List Char
hex_chars =
    "0" ∷ "1" ∷ "2" ∷ "3" ∷ "4" ∷ "5" ∷ "6" ∷ "7" ∷ "8" ∷ "9" ∷ "a" ∷ "b" ∷ "c" ∷ "d" ∷ "e" ∷ "f"
    ∷ []

abbrev char_at_or : List Char → ℕ → Char
char_at_or [] n = "0"
char_at_or (c ∷ cs) zero = c
char_at_or (c ∷ cs) (suc n) = char_at_or cs n

hex_char : ℕ → Char
hex_char n = char_at_or hex_chars n

-- `hex.EncodeToString`
unfoldable pub encode_to_string : Bytes → String
unfolding hex_char
encode_to_string [] = String.[]
encode_to_string (b ∷ bs) =
    String.◌∷◌ (hex_char (b / 16)) (String.◌∷◌ (hex_char (b % 16)) (encode_to_string bs))

-- The value of a hexadecimal digit.
unfoldable pub digit_value : ℕ → Option ℕ
digit_value c =
    if leb b'0' c && leb c b'9'
    then some (c - b'0')
    else if leb b'a' c && leb c b'f'
    then some (c - b'a' + 10)
    else if leb b'A' c && leb c b'F'
    then some (c - b'A' + 10)
    else none

abbrev pub byte_of : Option ℕ → Option ℕ → Option Bytes → Option Bytes
byte_of (some high) (some low) (some rest) = some ((high * 16 + low) ∷ rest)
byte_of _ _ _ = none

-- `hex.DecodeString`: pairs of digits; an odd end or another character is an error.
unfoldable pub decode_string : String → Option Bytes
unfolding digit_value
decode_string String.[] = some []
decode_string (String.◌∷◌ h String.[]) = none
decode_string (String.◌∷◌ h (String.◌∷◌ l rest)) =
    byte_of (digit_value (code h)) (digit_value (code l)) (decode_string rest)

trim_x : Char → String → String
trim_x z String.[] = String.◌∷◌ z String.[]
trim_x z (String.◌∷◌ x s) =
    if code z == b'0' && code x == b'x' then s else String.◌∷◌ z (String.◌∷◌ x s)

-- `strings.TrimPrefix(s, "0x")`
unfoldable pub trim_prefix : String → String
unfolding trim_x
trim_prefix String.[] = String.[]
trim_prefix (String.◌∷◌ z s) = trim_x z s

unfoldable pub hexutil_decode : String → Option Bytes
unfolding trim_prefix
hexutil_decode s = decode_string (trim_prefix (trim_space s))

pub data NameFault : Type 0 where
  name_exceeds_32_bytes : NameFault

-- `copy(padded, name)` into 32 zero bytes
abbrev pub padded : Bytes → Bytes
padded name = name ++ replicate (32 - length name) 0

abbrev pub with_prefix : String → String
with_prefix s = String.◌∷◌ "0" (String.◌∷◌ "x" s)

unfoldable pub encode_attestation_name : Bytes → Outcome NameFault String
encode_attestation_name name =
    if ltb 32 (length name)
    then err name_exceeds_32_bytes
    else ok (with_prefix (encode_to_string (padded name)))

abbrev pub IsByte : ℕ → Type 0
IsByte b = b < 256

-- Each of the sixteen digits is read back, and is no white space.
abbrev reads_back : ℕ → Bool
reads_back n = elim (digit_value (code (hex_char n))) [
  | none ↦ false
  | some d ↦ d == n && not (is_white (code (hex_char n)))
]

-- The test holds of `count` numbers from `low` on.
holds_from : ℕ → ℕ → (ℕ → Bool) → Bool
holds_from low zero test = true
holds_from low (suc count) test = test low && holds_from (low + 1) count test

holds_from_at :
    (low count n : ℕ) (test : ℕ → Bool)
    → low ≤ n
    → n < low + count
    → holds_from low count test ≡ true
    → test n ≡ true
unfolding holds_from
holds_from_at low zero n test above below all = absurd (omega arith)
holds_from_at low (suc count) n test above below all =
    ground (arith, holds_from_at (low + 1) count n test)

digits_table : holds_from 0 16 reads_back ≡ true
unfolding holds_from hex_char digit_value is_white
digits_table = refl

reads_back_both :
    (n : ℕ) (o : Option ℕ)
    → digit_value (code (hex_char n)) ≡ o
    → reads_back n ≡ true
    → (digit_value (code (hex_char n)) ≡ some n) × (is_white (code (hex_char n)) ≡ false)
reads_back_both n none e t = absurd (ground arith)
reads_back_both n (some d) e t = (ground arith, ground arith)

digit_reads_back :
    (n : ℕ)
    → n < 16
    → (digit_value (code (hex_char n)) ≡ some n) × (is_white (code (hex_char n)) ≡ false)
digit_reads_back n h =
    reads_back_both n (digit_value (code (hex_char n))) refl
      (holds_from_at 0 16 n reads_back (omega arith) h digits_table)

decode_string-pair :
    (h l : Char) (rest : String)
    → decode_string (String.◌∷◌ h (String.◌∷◌ l rest))
      ≡ byte_of (digit_value (code h)) (digit_value (code l)) (decode_string rest)
unfolding decode_string
decode_string-pair h l rest = refl

trim_right-cons :
    (c : Char) (s : String)
    → trim_right (String.◌∷◌ c s) ≡ keep_unless (is_white (code c)) c (trim_right s)
unfolding trim_right
trim_right-cons c s = refl

keep_unless-false : (c : Char) (s : String) → keep_unless false c s ≡ String.◌∷◌ c s
keep_unless-false c String.[] = refl
keep_unless-false c (String.◌∷◌ d s) = refl

keep_digit :
    (n : ℕ) (s : String)
    → n < 16
    → keep_unless (is_white (code (hex_char n))) (hex_char n) s ≡ String.◌∷◌ (hex_char n) s
keep_digit n s h = rw (digit_reads_back n h).1 (keep_unless-false (hex_char n) s)

pub decode-encode : (bs : Bytes) → All IsByte bs → decode_string (encode_to_string bs) ≡ some bs
unfolding encode_to_string
decode-encode [] h = unfold decode_string in refl
decode-encode (b ∷ bs) h =
    decode_string-pair (hex_char (b / 16)) (hex_char (b % 16)) (encode_to_string bs)
    ∙ rw
        (
          (digit_reads_back (b / 16) (omega arith)).0,
          (digit_reads_back (b % 16) (omega arith)).0,
          decode-encode bs h.1,
        )
        (ap (λ n. some (n ∷ bs)) (omega arith))

trim_right-encode :
    (bs : Bytes) → All IsByte bs → trim_right (encode_to_string bs) ≡ encode_to_string bs
unfolding encode_to_string
trim_right-encode [] h = unfold trim_right in refl
trim_right-encode (b ∷ bs) h = simp (
  trim_right-cons,
  trim_right-encode bs h.1,
  keep_digit (b / 16) _ (omega arith),
  keep_digit (b % 16) _ (omega arith),
)

-- The text that the client writes for bytes, 0x and two digits each, decodes to those bytes.
pub hexutil_decode-with_prefix :
    (bs : Bytes) → All IsByte bs → hexutil_decode (with_prefix (encode_to_string bs)) ≡ some bs
unfolding hexutil_decode trim_space
hexutil_decode-with_prefix bs h =
    rw (trim_right-encode bs h, keep_unless-false "x" (encode_to_string bs)) (decode-encode bs h)

padded_bytes : (name : Bytes) → All IsByte name → All IsByte (padded name)
padded_bytes name h =
    All-append IsByte name (replicate (32 - length name) 0) h (zeros (32 - length name))
  where
    zeros : (n : ℕ) → All IsByte (replicate n 0)
    zeros zero = tt
    zeros (suc n) = (omega arith, zeros n)

-- A name of at most 32 bytes is encoded, and the client's hex reader gets the name back from the
-- text, padded with zeros to 32 bytes; a longer name is an error.
pub encode_attestation_name_lem :
    (name : Bytes)
    → All IsByte name
    → (length name ≤ 32
        → (text : String) × (encode_attestation_name name ≡ ok text)
          × (hexutil_decode text ≡ some (padded name))
          × (length (padded name) ≡ 32))
      × (32 < length name → encode_attestation_name name ≡ err name_exceeds_32_bytes)
unfolding encode_attestation_name
encode_attestation_name_lem name h = (
  λ fits. (
    with_prefix (encode_to_string (padded name)),
    ground arith,
    hexutil_decode-with_prefix (padded name) (padded_bytes name h),
    length-append name (replicate (32 - length name) 0)
        ∙ omega (arith, length-replicate {A = ℕ} (32 - length name) 0),
  ),
  λ long. rw (lt→ltb _ _ long),
)
