-- ===== src/Common/Bytes.antt =====
-- Byte strings, hashes and addresses: lists of numbers below 256.
use mathlib.Core.Bool.{Bool, true, false, ◌&&◌}
use mathlib.Core.List.{List, [], ◌∷◌, ◌++◌}
use mathlib.Core.Logic.{◌↔◌}
use mathlib.Core.Path.{◌≡◌, refl, ◌∙◌}
use Prim.Native.Nat.{ℕ, zero, suc, ◌+◌, ◌*◌, ◌/◌, ◌%◌, ◌^◌, ◌<◌}
use native.Mathlib.Nat.{pow-suc}
use native.Mathlib.Omega.{arith}
use aegis_labs.Common.Tests.{◌==◌}
use aegis_labs.Common.Lists.{length, replicate, length-append}

abbrev pub Bytes : Type 0
Bytes = List ℕ

-- `common.Hash` is [32]byte and `common.Address` is [20]byte.
abbrev pub Hash : Type 0
Hash = Bytes

abbrev pub Address : Type 0
Address = Bytes

abbrev pub zero_hash : Hash
zero_hash = replicate 32 0

abbrev pub zero_address : Address
zero_address = replicate 20 0

-- `==` of arrays of bytes
unfoldable pub bytes_eq : Bytes → Bytes → Bool
bytes_eq [] [] = true
bytes_eq [] (y ∷ ys) = false
bytes_eq (x ∷ xs) [] = false
bytes_eq (x ∷ xs) (y ∷ ys) = x == y && bytes_eq xs ys

pub bytes_eq_iff : (xs ys : Bytes) → (bytes_eq xs ys ≡ true) ↔ (xs ≡ ys)
unfolding bytes_eq
bytes_eq_iff [] [] = (λ _. refl, λ _. refl)
bytes_eq_iff [] (y ∷ ys) = (λ e. cc, λ e. cc)
bytes_eq_iff (x ∷ xs) [] = (λ e. cc, λ e. cc)
bytes_eq_iff (x ∷ xs) (y ∷ ys) =
    (λ e. ground (arith, (bytes_eq_iff xs ys).0), λ e. ground (arith, (bytes_eq_iff xs ys).1))

pub bytes_eq_refl : (xs : Bytes) → bytes_eq xs xs ≡ true
bytes_eq_refl xs = (bytes_eq_iff xs xs).1 refl

-- The number `n` as a big-endian word of `k` bytes.
unfoldable pub word_bytes : ℕ → ℕ → Bytes
word_bytes zero n = []
word_bytes (suc k) n = word_bytes k (n / 256) ++ (n % 256 ∷ [])

-- `new(big.Int).SetBytes(buf)`: the bytes as a big-endian unsigned integer.
set_bytes_from : ℕ → Bytes → ℕ
set_bytes_from acc [] = acc
set_bytes_from acc (b ∷ bs) = set_bytes_from (acc * 256 + b) bs

unfoldable pub set_bytes : Bytes → ℕ
unfolding set_bytes_from
set_bytes = set_bytes_from 0

pub length-word_bytes : (k n : ℕ) → length (word_bytes k n) ≡ k
unfolding word_bytes
length-word_bytes zero n = refl
length-word_bytes (suc k) n =
    length-append (word_bytes k (n / 256)) _ ∙ omega (arith, length-word_bytes k (n / 256))

set_bytes_from-snoc :
    (acc : ℕ) (xs : Bytes) (b : ℕ)
    → set_bytes_from acc (xs ++ (b ∷ [])) ≡ set_bytes_from acc xs * 256 + b
unfolding set_bytes_from
set_bytes_from-snoc acc [] b = refl
set_bytes_from-snoc acc (x ∷ xs) b = set_bytes_from-snoc (acc * 256 + x) xs b

pub set_bytes-word_bytes : (k n : ℕ) → n < 256 ^ k → set_bytes (word_bytes k n) ≡ n
unfolding set_bytes word_bytes
set_bytes-word_bytes zero n h = omega arith
set_bytes-word_bytes (suc k) n h =
    set_bytes_from-snoc 0 (word_bytes k (n / 256)) (n % 256)
    ∙ omega (arith, set_bytes-word_bytes k (n / 256) (omega (arith, rw pow-suc at h)))

pub bytes_eq_comm : (xs ys : Bytes) → bytes_eq xs ys ≡ bytes_eq ys xs
bytes_eq_comm xs ys = ground (arith, bytes_eq_iff xs ys, bytes_eq_iff ys xs)
