-- ===== src/Results.antt =====
-- Functions that return `(T, error)` and change nothing: chains of early returns.
use yukimi.Base.{◌≡◌, refl, ap, ◌⊎◌, inl, inr, Bool, true, false, arith}
use yukimi.Errors.{Error, Result, ok, err}

-- `if !test { return err }`
abbrev pub require : Bool → Error → Result (Unit {0})
require true e = ok tt
require false e = err e

infixl 10 ◌>>=◌
abbrev pub ◌>>=◌ {ℓ κ} : {A : Type ℓ} {B : Type κ} → Result A → (A → Result B) → Result B
err problem >>= next = err problem
ok value >>= next = next value

infixl 10 ◌>>◌
abbrev pub ◌>>◌ {ℓ} : {B : Type ℓ} → Result (Unit {0}) → Result B → Result B
check >> rest = check >>= λ done. rest

pub Result-cases {ℓ} :
    {A : Type ℓ} (r : Result A) → ((a : A) × (r ≡ ok a)) ⊎ ((e : Error) × (r ≡ err e))
Result-cases (ok a) = inl (a, refl)
Result-cases (err e) = inr (e, refl)

-- A chain that ends in a value had one at its first step.
pub bind_ok {ℓ κ} :
    {A : Type ℓ} {B : Type κ} {b : B} (r : Result A) (f : A → Result B)
    → (r >>= f) ≡ ok b
    → (a : A) × (r ≡ ok a) × (f a ≡ ok b)
bind_ok (ok a) f h = (a, refl, h)
bind_ok (err e) f h = ground arith

-- So had a chain of checks at its first check.
pub then_ok {ℓ} :
    {B : Type ℓ} {b : B} (check : Result (Unit {0})) (next : Result B)
    → (check >> next) ≡ ok b
    → (check ≡ ok tt) × (next ≡ ok b)
then_ok (ok tt) next h = (refl, h)
then_ok (err e) next h = ground arith

value_or {ℓ} : {A : Type ℓ} → A → Result A → A
value_or d (ok a) = a
value_or d (err e) = d

pub ok_inj {ℓ} : {A : Type ℓ} (a b : A) → ok a ≡ ok b → a ≡ b
unfolding value_or
ok_inj a b h = ap (value_or a) h

pub err-not-ok {ℓ κ} : {A : Type ℓ} {B : Type κ} {e : Error} {a : A} → err e ≡ ok a → B
err-not-ok h = ground arith
