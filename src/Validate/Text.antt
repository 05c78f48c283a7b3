-- ===== src/Validate/Text.antt =====
-- What the checks use of Go's strings, strconv and regexp, over texts.
use aegis_labs.Common.{
  ℕ, zero, suc, ◌+◌, ◌-◌, ◌*◌, ◌/◌, ◌%◌, ◌<◌, String, ◌≡◌, inl, inr, Bool, true, false, ◌&&◌, ◌||◌,
  Option, none, some, arith, ltb, leb, ◌==◌, if◌then◌else◌, Bool-cases, str_eq,
}
use Prim.Native.Char.{Char, code}
use Prim.Native.String.{String, ◌++◌ as concat, slice}

-- White space of `strings.TrimSpace`.
unfoldable pub is_white : ℕ → Bool
is_white c =
    leb 9 c && leb c 13
    || c == 32
    || c == 0x85
    || c == 0xa0
    || c == 0x1680
    || leb 0x2000 c && leb c 0x200a
    || c == 0x2028
    || c == 0x2029
    || c == 0x202f
    || c == 0x205f
    || c == 0x3000

unfoldable pub trim_left : String → String
unfolding is_white
trim_left String.[] = String.[]
trim_left (String.◌∷◌ c s) = if is_white (code c) then trim_left s else String.◌∷◌ c s

abbrev pub keep_unless : Bool → Char → String → String
keep_unless white c String.[] = if white then String.[] else String.◌∷◌ c String.[]
keep_unless white c (String.◌∷◌ d s) = String.◌∷◌ c (String.◌∷◌ d s)

unfoldable pub trim_right : String → String
unfolding is_white
trim_right String.[] = String.[]
trim_right (String.◌∷◌ c s) = keep_unless (is_white (code c)) c (trim_right s)

unfoldable pub trim_space : String → String
unfolding trim_left trim_right
trim_space s = trim_right (trim_left s)

abbrev past : Char → Option (String × String) → Option (String × String)
past c none = none
past c (some (before, after)) = some (String.◌∷◌ c before, after)

-- `strings.SplitN(s, "=", 2)`: the two parts, or `none` if there is one part only.
unfoldable pub split_assignment : String → Option (String × String)
split_assignment String.[] = none
split_assignment (String.◌∷◌ c s) =
    let rest = past c (split_assignment s) in if code c == b'=' then some (String.[], s) else rest

-- `strings.HasPrefix(s, "#")`
unfoldable pub is_comment : String → Bool
is_comment String.[] = false
is_comment (String.◌∷◌ c s) = code c == b'#'

abbrev pub is_hex_digit : ℕ → Bool
is_hex_digit c = leb b'0' c && leb c b'9' || leb b'a' c && leb c b'f' || leb b'A' c && leb c b'F'

-- Exactly `n` hexadecimal digits.
unfoldable pub hex_digits : ℕ → String → Bool
hex_digits zero String.[] = true
hex_digits zero (String.◌∷◌ c s) = false
hex_digits (suc n) String.[] = false
hex_digits (suc n) (String.◌∷◌ c s) = is_hex_digit (code c) && hex_digits n s

unfoldable pub after_zero : ℕ → String → Bool
unfolding hex_digits
after_zero n String.[] = false
after_zero n (String.◌∷◌ c s) = code c == b'x' && hex_digits n s

-- The regular expression ^0x[0-9a-fA-F]{n}$.
unfoldable pub matches_hex : ℕ → String → Bool
unfolding after_zero
matches_hex n String.[] = false
matches_hex n (String.◌∷◌ c s) = code c == b'0' && after_zero n s

abbrev pub matches_address : String → Bool
matches_address = matches_hex 40

abbrev pub matches_extension_id : String → Bool
matches_extension_id = matches_hex 64

abbrev hex_digit_value : ℕ → ℕ
hex_digit_value c =
    if leb c b'9' then c - b'0' else if leb c b'F' then c - b'A' + 10 else c - b'a' + 10

-- `SetString(s, 16)` on hexadecimal digits.
unfoldable pub hex_value_from : ℕ → String → ℕ
hex_value_from acc String.[] = acc
hex_value_from acc (String.◌∷◌ c s) = hex_value_from (acc * 16 + hex_digit_value (code c)) s

-- `s[2:]`
abbrev pub without_prefix : String → String
without_prefix (String.◌∷◌ a (String.◌∷◌ b s)) = s
without_prefix (String.◌∷◌ a String.[]) = String.[]
without_prefix String.[] = String.[]

digit : ℕ → String
digit d = slice "0123456789" d (d + 1)

-- The decimal digits of a number, with fuel for one round for each digit.
decimal_from : ℕ → ℕ → String → String
decimal_from zero n acc = acc
decimal_from (suc fuel) n acc =
    let acc' = concat (digit (n % 10)) acc in
    let rest = decimal_from fuel (n / 10) acc' in if ltb n 10 then acc' else rest

unfoldable pub decimal : ℕ → String
unfolding decimal_from digit
decimal n = decimal_from (suc n) n ""

-- Any two fuels above the number give the same digits.
decimal_from_fuel :
    (f g n : ℕ) (acc : String) → n < f → n < g → decimal_from f n acc ≡ decimal_from g n acc
unfolding decimal_from
decimal_from_fuel zero g n acc h k = absurd (omega arith)
decimal_from_fuel (suc f) zero n acc h k = absurd (omega arith)
decimal_from_fuel (suc f) (suc g) n acc h k = elim (Bool-cases (ltb n 10)) [
  | inl e ↦ rw e
  | inr e ↦
      rw e
        (decimal_from_fuel f g (n / 10) (concat (digit (n % 10)) acc) (ground arith) (ground arith))
]

abbrev hex_of : ℕ → String
hex_of d = slice "0123456789abcdef" d (d + 1)

-- A character of a quoted text: the escapes of the control characters, of the quote and of the
-- backslash. What lies above them is taken as printable.
escape : Char → String
escape c =
    let n = code c in
    if n == 34
    then "\\\""
    else if n == 92
    then "\\\\"
    else if n == 7
    then "\\a"
    else if n == 8
    then "\\b"
    else if n == 9
    then "\\t"
    else if n == 10
    then "\\n"
    else if n == 11
    then "\\v"
    else if n == 12
    then "\\f"
    else if n == 13
    then "\\r"
    else if ltb n 32 || n == 127
    then concat "\\x" (concat (hex_of (n / 16)) (hex_of (n % 16)))
    else String.◌∷◌ c String.[]

escaped : String → String
escaped String.[] = String.[]
escaped (String.◌∷◌ c s) = concat (escape c) (escaped s)

-- `%q`
unfoldable pub quote : String → String
unfolding escape escaped
quote s = concat "\"" (concat (escaped s) "\"")

abbrev pub is_empty : String → Bool
is_empty s = str_eq s ""
