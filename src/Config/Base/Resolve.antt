-- ===== src/Config/Base/Resolve.antt =====
-- The settings with defaults of internal/config/base/base.go: resolvePositiveInt,
-- resolveNonNegativeInt, resolveIntInRange and resolvePositiveDuration. A number that has passed
-- them is not negative and is kept in ℕ. A duration is its nanoseconds.
use yukimi.Base.{
  ltb, leb, if◌then◌else◌, Bool-cases, Str, text, is_empty, decimal, ℕ, suc, ◌≤◌, ◌<◌, ◌≡◌, subst,
  inl, inr, ◌||◌, Option, none, some, [], ◌∷◌, ◌++◌, arith,
}
use yukimi.Errors.{Error, Result, ok, err, new_user_error}
use yukimi.Results.{ok_inj, err-not-ok}

-- Go's `int` and `time.Duration`, which are only read and compared here.
pub data ℤ : Type 0 where
  pos : ℕ → ℤ
  negsuc : ℕ → ℤ

-- `%d`
unfoldable pub integer : ℤ → Str
integer (pos n) = decimal n
integer (negsuc n) = b'-' ∷ decimal (suc n)

pub not_positive : Str → ℤ → Error
not_positive field_path raw =
    new_user_error (field_path ++ text " '" ++ integer raw ++ text "' must be a positive integer")

-- `*raw <= 0`
positive_int : Str → ℤ → Result ℕ
positive_int field_path (negsuc n) = err (not_positive field_path (negsuc n))
positive_int field_path (pos n) = if leb n 0 then err (not_positive field_path (pos n)) else ok n

unfoldable pub resolve_positive_int : Str → Option ℤ → ℕ → Result ℕ
unfolding positive_int
resolve_positive_int field_path none default = ok default
resolve_positive_int field_path (some raw) default = positive_int field_path raw

pub negative : Str → ℤ → Error
negative field_path raw =
    new_user_error (field_path ++ text " '" ++ integer raw ++ text "' must not be negative")

non_negative_int : Str → ℤ → Result ℕ
non_negative_int field_path (negsuc n) = err (negative field_path (negsuc n))
non_negative_int field_path (pos n) = ok n

unfoldable pub resolve_non_negative_int : Str → Option ℤ → ℕ → Result ℕ
unfolding non_negative_int
resolve_non_negative_int field_path none default = ok default
resolve_non_negative_int field_path (some raw) default = non_negative_int field_path raw

pub out_of_range : Str → ℤ → ℕ → ℕ → Error
out_of_range field_path raw lo hi = new_user_error (
    field_path
    ++ text " '"
    ++ integer raw
    ++ text "' must be between "
    ++ decimal lo
    ++ text " and "
    ++ decimal hi)

-- `*raw < lo || *raw > hi`; the bounds are not negative.
int_in_range : Str → ℤ → ℕ → ℕ → Result ℕ
int_in_range field_path (negsuc n) lo hi = err (out_of_range field_path (negsuc n) lo hi)
int_in_range field_path (pos n) lo hi =
    if ltb n lo || ltb hi n then err (out_of_range field_path (pos n) lo hi) else ok n

unfoldable pub resolve_int_in_range : Str → Option ℤ → ℕ → ℕ → ℕ → Result ℕ
unfolding int_in_range
resolve_int_in_range field_path none default lo hi = ok default
resolve_int_in_range field_path (some raw) default lo hi = int_in_range field_path raw lo hi

pub not_a_duration : Str → Str → Error
not_a_duration field_path raw = new_user_error (
    field_path
    ++ text " '"
    ++ raw
    ++ text "' does not match the expected format (expected: a Go duration string, e.g. 30m)")

pub not_a_positive_duration : Str → Str → Error
not_a_positive_duration field_path raw =
    new_user_error (field_path ++ text " '" ++ raw ++ text "' must be a positive duration")

-- What is read, `d <= 0` included.
positive_duration : Str → Str → Option ℤ → Result ℕ
positive_duration field_path raw none = err (not_a_duration field_path raw)
positive_duration field_path raw (some (negsuc n)) = err (not_a_positive_duration field_path raw)
positive_duration field_path raw (some (pos n)) =
    if leb n 0 then err (not_a_positive_duration field_path raw) else ok n

-- Over `time.ParseDuration`, which computes fractions in floating point.
unfoldable pub resolve_positive_duration : (Str → Option ℤ) → Str → Str → ℕ → Result ℕ
unfolding positive_duration
resolve_positive_duration parse_duration field_path raw default =
    if is_empty raw then ok default else positive_duration field_path raw (parse_duration raw)

above_zero : (e : Error) (m n : ℕ) → (if leb m 0 then err e else ok m) ≡ ok n → 0 < n
above_zero e m n = elim (Bool-cases (leb m 0)) [
  | inl k ↦ rw k (λ h. err-not-ok h)
  | inr k ↦ rw k (λ h. subst (λ i. 0 < i) (ok_inj m n h) (ground arith))
]

-- What each of them makes sure of, as long as its default does.
pub resolve_positive_int_ok :
    (field_path : Str) (raw : Option ℤ) (default n : ℕ)
    → 0 < default
    → resolve_positive_int field_path raw default ≡ ok n
    → 0 < n
unfolding resolve_positive_int positive_int
resolve_positive_int_ok field_path none default n d h = subst (λ m. 0 < m) (ok_inj default n h) d
resolve_positive_int_ok field_path (some (negsuc m)) default n d h = err-not-ok h
resolve_positive_int_ok field_path (some (pos m)) default n d h =
    above_zero (not_positive field_path (pos m)) m n h

pub resolve_int_in_range_ok :
    (field_path : Str) (raw : Option ℤ) (default lo hi n : ℕ)
    → lo ≤ default
    → default ≤ hi
    → resolve_int_in_range field_path raw default lo hi ≡ ok n
    → (lo ≤ n) × (n ≤ hi)
unfolding resolve_int_in_range int_in_range
resolve_int_in_range_ok field_path none default lo hi n l u =
    λ h. subst (λ m. (lo ≤ m) × (m ≤ hi)) (ok_inj default n h) (l, u)
resolve_int_in_range_ok field_path (some (negsuc m)) default lo hi n l u = λ h. err-not-ok h
resolve_int_in_range_ok field_path (some (pos m)) default lo hi n l u =
    elim (Bool-cases (ltb m lo || ltb hi m)) [
      | inl k ↦ rw k (λ h. err-not-ok h)
      | inr k ↦
          rw k (λ h. subst (λ i. (lo ≤ i) × (i ≤ hi)) (ok_inj m n h) (ground arith, ground arith))
    ]

pub resolve_positive_duration_ok :
    (parse_duration : Str → Option ℤ) (field_path raw : Str) (default n : ℕ)
    → 0 < default
    → resolve_positive_duration parse_duration field_path raw default ≡ ok n
    → 0 < n
unfolding resolve_positive_duration positive_duration
resolve_positive_duration_ok parse_duration field_path [] default n d h =
    subst (λ m. 0 < m) (ok_inj default n h) d
resolve_positive_duration_ok parse_duration field_path (c ∷ raw) default n d h =
    read (parse_duration (c ∷ raw)) h
  where
    read : (o : Option ℤ) → positive_duration field_path (c ∷ raw) o ≡ ok n → 0 < n
    read none k = err-not-ok k
    read (some (negsuc m)) k = err-not-ok k
    read (some (pos m)) k = above_zero (not_a_positive_duration field_path (c ∷ raw)) m n k
