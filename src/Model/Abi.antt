-- ===== src/Model/Abi.antt =====
-- go-ethereum's ABI coder for the tuple (bytes32, uint256, address), as far as
-- go/pkg/types/register.go calls it: a parameter of the model, with what the contract ABI
-- documents of this static tuple as laws.
use aegis_labs.Common.{
  ℕ, ◌<◌, ◌≡◌, refl, Option, some, List, [], ◌∷◌, ◌++◌, arith, length, replicate, take, drop,
  take-append, drop-append, length-append,
}
use aegis_labs.Common.Int.{ℤ, pos, uint256_mod, abs}
use aegis_labs.Common.Bytes.{
  Bytes, Hash, Address, word_bytes, set_bytes, length-word_bytes, set_bytes-word_bytes,
}

-- A value that `Unpack` returns, by its Go type.
pub data AbiValue : Type 0 where
  bytes32 : Bytes → AbiValue
  big_int : Option ℤ → AbiValue
  address : Bytes → AbiValue
  other : AbiValue

-- `evaluateTupleArgs.Pack` and `.Unpack`; `none` is an error.
pub record Abi : Type 0 where
  pub pack : Hash → ℤ → Address → Option Bytes
  pub unpack : Bytes → Option (List AbiValue)

-- The encoding of the tuple: three words of 32 bytes, the address padded on the left.
abbrev pub tuple_bytes : Hash → ℕ → Address → Bytes
tuple_bytes id value to = id ++ (word_bytes 32 value ++ (replicate 12 0 ++ to))

-- The values that the tuple can hold.
pub record FitsTuple (id : Hash) (value : ℕ) (to : Address) : Type 0 where
  pub id_32 : length id ≡ 32
  pub value_256 : value < uint256_mod
  pub to_20 : length to ≡ 20

pub record AbiLaws (abi : Abi) : Type 0 where
  pub pack_fits :
      (id : Hash) (value : ℕ) (to : Address)
      → FitsTuple id value to
      → abi.pack id (pos value) to ≡ some (tuple_bytes id value to)
  pub unpack_fits :
      (id : Hash) (value : ℕ) (to : Address)
      → FitsTuple id value to
      → abi.unpack (tuple_bytes id value to)
        ≡ some (bytes32 id ∷ big_int (some (pos value)) ∷ address to ∷ [])

-- A coder that follows the laws.
abbrev pub static_abi : Abi
static_abi = record {
  pack = λ id value to. some (tuple_bytes id (abs value) to);
  unpack = λ buf. some (
      bytes32 (take 32 buf)
      ∷ big_int (some (pos (set_bytes (take 32 (drop 32 buf)))))
      ∷ address (drop 12 (drop 32 (drop 32 buf)))
      ∷ []);
}

pub length-tuple_bytes :
    (id : Hash) (value : ℕ) (to : Address)
    → FitsTuple id value to
    → length (tuple_bytes id value to) ≡ 96
length-tuple_bytes id value to h = omega (
  arith,
  length-append {0} id (word_bytes 32 value ++ (replicate 12 0 ++ to)),
  length-append {0} (word_bytes 32 value) (replicate 12 0 ++ to),
  length-append {0} (replicate 12 0) to,
  length-word_bytes 32 value,
)

-- The three words of the tuple, as slices.
module _ (id : Hash) (value : ℕ) (to : Address) (h : FitsTuple id value to) where
  pub id_word : take 32 (tuple_bytes id value to) ≡ id
  id_word = take-append 32 id _ h.id_32

  rest_words : drop 32 (tuple_bytes id value to) ≡ word_bytes 32 value ++ (replicate 12 0 ++ to)
  rest_words = drop-append 32 id _ h.id_32

  pub value_word : take 32 (drop 32 (tuple_bytes id value to)) ≡ word_bytes 32 value
  value_word = rw rest_words (take-append 32 (word_bytes 32 value) _ (length-word_bytes 32 value))

  pub to_word : drop 32 (drop 32 (tuple_bytes id value to)) ≡ replicate 12 0 ++ to
  to_word = rw rest_words (drop-append 32 (word_bytes 32 value) _ (length-word_bytes 32 value))

pub set_bytes_value : (value : ℕ) → value < uint256_mod → set_bytes (word_bytes 32 value) ≡ value
set_bytes_value value h = set_bytes-word_bytes 32 value h

pub static_abi_laws : AbiLaws static_abi
static_abi_laws = record {
  pack_fits = λ id value to h. refl;
  unpack_fits = λ id value to h. simp (
    id_word id value to h,
    value_word id value to h,
    to_word id value to h,
    set_bytes_value value h.value_256,
  );
}
