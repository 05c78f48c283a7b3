-- ===== src/Common/Fallible.antt =====
-- What a Go call does: it returns a value, returns an error, or panics (a nil dereference, a
-- division by zero). `E` is the type of the errors.
use mathlib.Core.Option.{Option, none, some}
use mathlib.Core.Bool.{Bool, true, false}
use aegis_labs.Common.Tests.{if◌then◌else◌}
use mathlib.Core.Path.{◌≡◌, refl}

pub data Outcome {ℓ} (E A : Type ℓ) : Type ℓ where
  ok : A → Outcome E A
  err : E → Outcome E A
  panic : Outcome E A

infixl 5 ◌>>=◌ ◌>>◌
abbrev pub ◌>>=◌ {ℓ} : {E A B : Type ℓ} → Outcome E A → (A → Outcome E B) → Outcome E B
ok a >>= f = f a
err e >>= f = err e
panic >>= f = panic

abbrev pub ◌>>◌ {ℓ} : {E A B : Type ℓ} → Outcome E A → Outcome E B → Outcome E B
m >> k = m >>= λ _. k

-- `if err := check(); err != nil { return err }`, for a check that returns only an error.
abbrev pub check {ℓ} : {E A : Type ℓ} → Option E → Outcome E A → Outcome E A
check none k = k
check (some e) k = err e

-- `fmt.Errorf("...: %w", err)`
abbrev pub map_err {ℓ} : {E F A : Type ℓ} → (E → F) → Outcome E A → Outcome F A
map_err f (ok a) = ok a
map_err f (err e) = err (f e)
map_err f panic = panic

-- A do block that succeeds, taken apart at its first step.
pub bind_ok {ℓ} :
    {E A B : Type ℓ} (m : Outcome E A) (f : A → Outcome E B) {b : B}
    → (m >>= f) ≡ ok b
    → (a : A) × (m ≡ ok a) × (f a ≡ ok b)
bind_ok (ok a) f h = (a, refl, h)
bind_ok (err e) f h = cc
bind_ok panic f h = cc

pub map_err_ok {ℓ} :
    {E F A : Type ℓ} (g : E → F) (m : Outcome E A) {a : A} → map_err g m ≡ ok a → m ≡ ok a
map_err_ok g (ok b) h = cc
map_err_ok g (err e) h = cc
map_err_ok g panic h = cc

-- A guard in front of a call that succeeds.
pub then_ok {ℓ} :
    {E A : Type ℓ} (b : Bool) (e : E) (m : Outcome E A) {a : A}
    → (if b then m else err e) ≡ ok a
    → (b ≡ true) × (m ≡ ok a)
then_ok true e m h = (refl, h)
then_ok false e m h = cc

pub else_ok {ℓ} :
    {E A : Type ℓ} (b : Bool) (e : E) (m : Outcome E A) {a : A}
    → (if b then err e else m) ≡ ok a
    → (b ≡ false) × (m ≡ ok a)
else_ok false e m h = (refl, h)
else_ok true e m h = cc

abbrev pub succeeds {ℓ} : {E A : Type ℓ} → A → Outcome E A
succeeds a = ok a

pub ok_inj {ℓ} : {E A : Type ℓ} {a b : A} → succeeds {E = E} a ≡ ok b → a ≡ b
ok_inj h = cc
