-- ===== src/Common/Exec.antt =====
-- Calls that change a state and may fail or panic. What was changed before a failure stays changed,
-- so the state comes back in every case.
use Prim.Native.Nat.{ℕ, ◌+◌}
use mathlib.Core.Path.{◌≡◌, refl}
use aegis_labs.Common.Fallible.{Outcome, ok, err, panic}

abbrev pub Exec {ℓ} : Type ℓ → Type ℓ → Type ℓ → Type ℓ
Exec S E A = S → Outcome E A × S

module _ {ℓ} {S E A : Type ℓ} where
  abbrev pub pure : A → Exec S E A
  pure a s = (ok a, s)

  abbrev pub raise : E → Exec S E A
  raise e s = (err e, s)

  abbrev pub lift : Outcome E A → Exec S E A
  lift o s = (o, s)

  abbrev pub gets : (S → A) → Exec S E A
  gets f s = (ok (f s), s)

module _ {ℓ} {S E A B : Type ℓ} where
  abbrev pub continue : Outcome E A → (A → Exec S E B) → Exec S E B
  continue (ok a) f s = f a s
  continue (err e) f s = (err e, s)
  continue panic f s = (panic, s)

  infixl 5 ◌>>=◌ ◌>>◌
  abbrev pub ◌>>=◌ : Exec S E A → (A → Exec S E B) → Exec S E B
  ◌>>=◌ m f s = let (o, s') = m s in continue o f s'

  abbrev pub ◌>>◌ : Exec S E A → Exec S E B → Exec S E B
  m >> k = m >>= λ _. k

  -- A do block that succeeds, taken apart at its first step.
  pub continue_ok :
      (o : Outcome E A) (f : A → Exec S E B) (s : S) {b : B}
      → (continue o f s).0 ≡ ok b
      → (a : A) × (o ≡ ok a) × ((f a s).0 ≡ ok b) × (continue o f s ≡ f a s)
  continue_ok (ok a) f s h = (a, refl, h, refl)
  continue_ok (err e) f s h = cc
  continue_ok panic f s h = cc

  pub run_ok :
      (m : Exec S E A) (f : A → Exec S E B) (s : S) {b : B}
      → ((m >>= f) s).0 ≡ ok b
      → (a : A) × ((m s).0 ≡ ok a) × ((f a (m s).1).0 ≡ ok b) × ((m >>= f) s ≡ f a (m s).1)
  run_ok m f s h = continue_ok (m s).0 f (m s).1 h

-- A predicate on states that holds where a do block ends, also where it ends early.
module _ {S E A B : Type 0} (P : S → Type 0) where
  pub continue_keeps :
      (o : Outcome E A) (f : A → Exec S E B) (s : S)
      → P s
      → ((a : A) → o ≡ ok a → P (f a s).1)
      → P (continue o f s).1
  continue_keeps (ok a) f s h rest = rest a refl
  continue_keeps (err e) f s h rest = h
  continue_keeps panic f s h rest = h

  pub bind_keeps :
      (m : Exec S E A) (f : A → Exec S E B) (s : S)
      → P (m s).1
      → ((a : A) → (m s).0 ≡ ok a → P (f a (m s).1).1)
      → P ((m >>= f) s).1
  bind_keeps m f s h rest = continue_keeps (m s).0 f (m s).1 h rest

-- A relation on states, indexed by a cost, that a do block has where its steps have it: also the
-- block that ends early.
module _ {S E A B : Type 0} (R : ℕ → S → S → Type 0)
    (wait : (n k : ℕ) (s s' : S) → R n s s' → R (n + k) s s')
    (follow : (n k : ℕ) (s s' s'' : S) → R n s s' → R k s' s'' → R (n + k) s s'') where
  continue_within :
      (n k : ℕ) (o : Outcome E A) (f : A → Exec S E B) (s s' : S)
      → R n s s'
      → ((a : A) → o ≡ ok a → R k s' (f a s').1)
      → R (n + k) s (continue o f s').1
  continue_within n k (ok a) f s s' r rest = follow n k s s' _ r (rest a refl)
  continue_within n k (err e) f s s' r rest = wait n k s s' r
  continue_within n k panic f s s' r rest = wait n k s s' r

  pub bind_within :
      (n k : ℕ) (m : Exec S E A) (f : A → Exec S E B) (s : S)
      → R n s (m s).1
      → ((a : A) (s' : S) → R k s' (f a s').1)
      → R (n + k) s ((m >>= f) s).1
  bind_within n k m f s r rest = continue_within n k (m s).0 f s (m s).1 r (λ a h. rest a (m s).1)
