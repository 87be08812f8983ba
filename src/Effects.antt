-- ===== src/Effects.antt =====
-- Functions that return an error and act on state. What was done before an error stays done, so
-- the state comes back beside the error too.
use yukimi.Base.{◌≡◌, refl, sym}
use yukimi.Errors.{Error, Result, ok, err}
use yukimi.Results.{err-not-ok}

abbrev pub Action : Type 0 → Type 0 → Type 0
Action S A = S → Result A × S

-- `fmt.Errorf("...: %w", err)` around whatever error a call returns.
abbrev pub rename_error : {A : Type 0} → (Error → Error) → Result A → Result A
rename_error f (ok a) = ok a
rename_error f (err e) = err (f e)

module _ {S A B : Type 0} where
  abbrev pub proceed : Result A × S → (A → Action S B) → Result B × S
  proceed (ok a, s) f = f a s
  proceed (err e, s) f = (err e, s)

  infixl 10 ◌>>=◌ ◌>>◌
  abbrev pub ◌>>=◌ : Action S A → (A → Action S B) → Action S B
  ◌>>=◌ m f s = proceed (m s) f

  abbrev pub ◌>>◌ : Action S A → Action S B → Action S B
  ◌>>◌ m k s = proceed (m s) (λ _. k)

module _ {S A : Type 0} where
  abbrev pub pure : A → Action S A
  pure a s = (ok a, s)

  abbrev pub fail : Error → Action S A
  fail e s = (err e, s)

  abbrev pub lift : Result A → Action S A
  lift r s = (r, s)

  abbrev pub on_error : (Error → Error) → Action S A → Action S A
  on_error f m s = let (r, s') = m s in (rename_error f r, s')

-- A result under another error is a value, or an error, where it was one.
pub rename_ok :
    {A : Type 0} (f : Error → Error) (r : Result A) (a : A) → rename_error f r ≡ ok a → r ≡ ok a
rename_ok f (ok b) a h = h
rename_ok f (err e) a h = err-not-ok h

pub rename_err :
    {A : Type 0} (f : Error → Error) (r : Result A) (e : Error)
    → rename_error f r ≡ err e
    → (x : Error) × (r ≡ err x)
rename_err f (ok b) e h = err-not-ok (sym h)
rename_err f (err x) e h = (x, refl)
