-- ===== src/Base/Returned.antt =====
-- What a Go call ends with: its value, the error that it returns, or a run-time panic.
use mathlib.Core.Bool.{Bool, true, false}
use mathlib.Core.Path.{◌≡◌, refl}
use mathlib.Core.Option.{Option, none, some}

pub data Result {ℓ} (E : Type 0) (A : Type ℓ) : Type ℓ where
  ok : A → Result E A
  err : E → Result E A
  panic : Result E A

infixl 5 ◌>>=◌ ◌>>◌
abbrev pub ◌>>=◌ {ℓ κ} :
    {E : Type 0} {A : Type ℓ} {B : Type κ} → Result E A → (A → Result E B) → Result E B
ok a >>= f = f a
err e >>= f = err e
panic >>= f = panic

abbrev pub ◌>>◌ {ℓ} : {E : Type 0} {B : Type ℓ} → Result E (Unit {0}) → Result E B → Result E B
m >> k = m >>= λ _. k

-- `if test { return e }`
abbrev pub fail_if : {E : Type 0} → Bool → E → Result E (Unit {0})
fail_if true e = err e
fail_if false e = ok tt

-- The call returns: it does not panic.
abbrev pub Returns {ℓ} : {E : Type 0} {A : Type ℓ} → Result E A → Type 0
Returns (ok a) = Unit
Returns (err e) = Unit
Returns panic = ⊥

-- `if err := e; err != nil { return err }`
abbrev pub check : {E : Type 0} → Option E → Result E (Unit {0})
check none = ok tt
check (some e) = err e

pub check-ok {ℓ} :
    {E : Type 0} {A : Type ℓ} (o : Option E) (x a : A)
    → (check o >> ok x) ≡ ok a
    → (o ≡ none) × (x ≡ a)
check-ok none x a e = (refl, cc)
check-ok (some f) x a e = cc

pub check-Returns {ℓ} : {E : Type 0} {A : Type ℓ} (o : Option E) (x : A) → Returns (check o >> ok x)
check-Returns none x = tt
check-Returns (some f) x = tt

-- A guard, and what runs when it lets through.
pub guard-Returns {ℓ} :
    {E : Type 0} {A : Type ℓ} (t : Bool) (e : E) (k : Result E A)
    → (t ≡ false → Returns k)
    → Returns (fail_if t e >> k)
guard-Returns true e k h = tt
guard-Returns false e k h = h refl

pub bind-Returns {ℓ κ} :
    {E : Type 0} {A : Type ℓ} {B : Type κ} (m : Result E A) (f : A → Result E B)
    → Returns m
    → ((a : A) → Returns (f a))
    → Returns (m >>= f)
bind-Returns (ok a) f h k = k a
bind-Returns (err e) f h k = tt
bind-Returns panic f h k = elim h [ ]

pub bind-ok {ℓ κ} :
    {E : Type 0} {A : Type ℓ} {B : Type κ} (m : Result E A) (f : A → Result E B) (b : B)
    → (m >>= f) ≡ ok b
    → (a : A) × (m ≡ ok a) × (f a ≡ ok b)
bind-ok (ok a) f b h = (a, refl, h)
bind-ok (err e) f b h = cc
bind-ok panic f b h = cc

pub guard-ok {ℓ} :
    {E : Type 0} {A : Type ℓ} (t : Bool) (e : E) (k : Result E A) (b : A)
    → (fail_if t e >> k) ≡ ok b
    → (t ≡ false) × (k ≡ ok b)
guard-ok true e k b h = cc
guard-ok false e k b h = (refl, h)

pub ok-injective {ℓ} :
    {E : Type 0} {A : Type ℓ} (x y : A) → ◌≡◌ {A = Result E A} (ok x) (ok y) → x ≡ y
ok-injective x y e = cc
