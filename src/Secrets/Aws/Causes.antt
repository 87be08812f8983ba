-- ===== src/Secrets/Aws/Causes.antt =====
-- internal/secrets/aws/keystore.go: what is in the chain of an error that isNotFound or
-- isPendingDeletion accepts.
use yukimi.Base.{
  Bool-cases, Option-cases, some_inj, Str, text, to_lower, has_prefix, contains, ◌≡◌, refl, ap,
  subst, ◌∙◌, ◌⊎◌, inl, inr, true, Option, none, some, [], ◌∷◌, ◌++◌, arith,
}
use yukimi.Errors.{
  DriverFields, Error, user_error, plain, wrapped, wrapped_both, pending_deletion, snowflake_error,
  statement_error, invalid_request, resource_not_found,
}
use yukimi.Secrets.Aws.{find_invalid_request, names_deletion, aws_is_pending_deletion, is_not_found}

-- An error stands in the chain of another, by any of its `Unwrap` methods.
pub data Cause (c : Error) : Error → Type 0 where
  itself : Cause c c
  below : {s t : Str} {e : Error} → Cause c e → Cause c (wrapped s e t)
  below_first : {s t u : Str} {e f : Error} → Cause c e → Cause c (wrapped_both s e t f u)
  below_second : {s t u : Str} {e f : Error} → Cause c f → Cause c (wrapped_both s e t f u)
  below_statement :
      {l q : Str} {d : DriverFields} {e : Error} → Cause c e → Cause c (statement_error l q d e)

-- A text has another one in it.
abbrev pub HasPart : Str → Str → Type 0
HasPart s part = (before : Str) × (behind : Str) × (s ≡ before ++ (part ++ behind))

-- A message that says, in whatever case, that a deletion is under way.
abbrev pub SaysDeletion : Str → Type 0
SaysDeletion msg =
    HasPart (to_lower msg) (text "scheduled for deletion")
    ⊎ HasPart (to_lower msg) (text "marked for deletion")

has_prefix-append : (s t : Str) → has_prefix s t ≡ true → (behind : Str) × (s ≡ t ++ behind)
unfolding has_prefix
has_prefix-append s [] h = (s, refl)
has_prefix-append [] (d ∷ t) h = ground arith
has_prefix-append (c ∷ s) (d ∷ t) h =
    let (behind, e) = has_prefix-append s t (ground arith) in
    let same : c ≡ d = ground arith in (behind, ap (λ x. x ∷ s) same ∙ ap (λ r. d ∷ r) e)

contains-HasPart : (s t : Str) → contains s t ≡ true → HasPart s t
unfolding contains
contains-HasPart [] t h = let (behind, e) = has_prefix-append [] t h in ([], behind, e)
contains-HasPart (c ∷ s) t h = elim (Bool-cases (has_prefix (c ∷ s) t)) [
  | inl k ↦ let (behind, e) = has_prefix-append (c ∷ s) t k in ([], behind, e)
  | inr k ↦
      let (before, behind, e) = contains-HasPart s t (ground (arith, h, k)) in
      (c ∷ before, behind, ap (λ r. c ∷ r) e)
]

pub is_not_found-Cause :
    (e : Error) → is_not_found e ≡ true → (m : Str) × Cause (resource_not_found m) e
unfolding is_not_found
is_not_found-Cause (wrapped s e t) h = let (m, c) = is_not_found-Cause e h in (m, below c)
is_not_found-Cause (wrapped_both s e t f u) h = elim (Bool-cases (is_not_found e)) [
  | inl k ↦ let (m, c) = is_not_found-Cause e k in (m, below_first c)
  | inr k ↦ let (m, c) = is_not_found-Cause f (ground (arith, h, k)) in (m, below_second c)
]
is_not_found-Cause (statement_error l q d e) h =
    let (m, c) = is_not_found-Cause e h in (m, below_statement c)
is_not_found-Cause (resource_not_found m) h = (m, itself)
is_not_found-Cause (invalid_request m) h = ground arith
is_not_found-Cause (user_error m) h = ground arith
is_not_found-Cause (plain m) h = ground arith
is_not_found-Cause pending_deletion h = ground arith
is_not_found-Cause (snowflake_error d m) h = ground arith

found-Cause : (e : Error) (m : Str) → find_invalid_request e ≡ some m → Cause (invalid_request m) e
unfolding find_invalid_request
found-Cause (wrapped s e t) m h = below (found-Cause e m h)
found-Cause (wrapped_both s e t f u) m h = elim (Option-cases (find_invalid_request e)) [
  | inl k ↦ below_second (found-Cause f m (rw k at h))
  | inr (n, k) ↦ below_first (found-Cause e m (k ∙ (rw k at h)))
]
found-Cause (statement_error l q d e) m h = below_statement (found-Cause e m h)
found-Cause (invalid_request n) m h =
    subst (λ t. Cause (invalid_request t) (invalid_request n)) (some_inj h) itself
found-Cause (resource_not_found n) m h = ground arith
found-Cause (user_error n) m h = ground arith
found-Cause (plain n) m h = ground arith
found-Cause pending_deletion m h = ground arith
found-Cause (snowflake_error d n) m h = ground arith

named : (o : Option Str) → names_deletion o ≡ true → (m : Str) × (o ≡ some m) × SaysDeletion m
unfolding names_deletion
named none h = ground arith
named (some m) h = elim (Bool-cases (contains (to_lower m) (text "scheduled for deletion"))) [
  | inl k ↦ (m, refl, inl (contains-HasPart (to_lower m) _ k))
  | inr k ↦ (m, refl, inr (contains-HasPart (to_lower m) _ (ground (arith, h, k))))
]

pub aws_is_pending_deletion-Cause :
    (e : Error)
    → aws_is_pending_deletion e ≡ true
    → (m : Str) × Cause (invalid_request m) e × SaysDeletion m
unfolding aws_is_pending_deletion
aws_is_pending_deletion-Cause e h =
    let (m, k, says) = named (find_invalid_request e) h in (m, found-Cause e m k, says)
