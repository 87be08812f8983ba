-- ===== src/Account/Tenant/Quota.antt =====
-- The credit quota of internal/account/tenant/labels.go, printed and read.
use yukimi.Errors.{ok}
use yukimi.Base.{
  str_eq, ltb, nat_beq, Bool-cases, Str, text, is_empty, decimal_digits, decimal, is_digit, Dict,
  get, ℕ, zero, suc, ◌+◌, ◌*◌, ◌/◌, ◌%◌, ◌<◌, ◌≡◌, refl, sym, ap, ◌∙◌, inl, inr, true, false, some,
  [], ◌∷◌, arith,
}
use yukimi.Account.Tenant.{
  read_label, digits_value, int_limit, within_int, unsigned, non_negative_int, quota_or_error,
  credit_quota,
}

below_zero : {A : Type 0} (n : ℕ) → n < 0 → A
below_zero n h = ground arith

digit_byte : (n : ℕ) → n < 10 → is_digit (b'0' + n) ≡ true
unfolding is_digit
digit_byte n h = ground arith

-- One digit more.
digits_value-digit :
    (acc n : ℕ) (s : Str)
    → n < 10
    → digits_value acc ((b'0' + n) ∷ s) ≡ digits_value (acc * 10 + n) s
unfolding digits_value
digits_value-digit acc n s h =
    rw (digit_byte n h) (ap (λ m. digits_value (acc * 10 + m) s) (omega arith))

-- With more fuel than the number, the digits are those of the number.
digits_value-decimal_digits :
    (fuel n : ℕ) (s : Str) → n < fuel → digits_value 0 (decimal_digits fuel n s) ≡ digits_value n s
unfolding decimal_digits
digits_value-decimal_digits zero n s h = below_zero n h
digits_value-decimal_digits (suc fuel) n s h = elim (Bool-cases (ltb n 10)) [
  | inl k ↦
      rw k (digits_value-digit 0 n s (ground arith) ∙ ap (λ m. digits_value m s) (omega arith))
  | inr k ↦ rw k (
      digits_value-decimal_digits fuel (n / 10) ((b'0' + n % 10) ∷ s) (ground arith)
      ∙ digits_value-digit (n / 10) (n % 10) s (omega arith)
      ∙ ap (λ m. digits_value m s) (omega arith))
]

-- The text starts with a digit.
record Starts (t : Str) : Type 0 where
  first : ℕ
  rest : Str
  split : t ≡ first ∷ rest
  digit : is_digit first ≡ true

decimal_digits-Starts : (fuel n : ℕ) (s : Str) → n < fuel → Starts (decimal_digits fuel n s)
unfolding decimal_digits
decimal_digits-Starts zero n s h = below_zero n h
decimal_digits-Starts (suc fuel) n s h = elim (Bool-cases (ltb n 10)) [
  | inl k ↦
      rw k
        (record { first = b'0' + n; rest = s; split = refl; digit = digit_byte n (ground arith) })
  | inr k ↦ rw k (decimal_digits-Starts fuel (n / 10) ((b'0' + n % 10) ∷ s) (ground arith))
]

no_sign : (c : ℕ) → is_digit c ≡ true → (nat_beq c b'-' ≡ false) × (nat_beq c b'+' ≡ false)
unfolding is_digit
no_sign c h = (ground arith, ground arith)

-- Atoi, of a text that starts with a digit.
non_negative_int-digit :
    (c : ℕ) (s : Str)
    → is_digit c ≡ true
    → non_negative_int (c ∷ s) ≡ within_int int_limit false (digits_value 0 (c ∷ s))
unfolding non_negative_int unsigned
non_negative_int-digit c s h = let (dash, plus) = no_sign c h in rw dash (rw plus refl)

non_negative_int-decimal : (n : ℕ) → n < int_limit → non_negative_int (decimal n) ≡ some n
unfolding decimal digits_value
non_negative_int-decimal n h =
    let start = decimal_digits-Starts (suc n) n [] (omega arith) in
    ap non_negative_int start.split
    ∙ non_negative_int-digit start.first start.rest start.digit
    ∙ ap (λ t. within_int int_limit false (digits_value 0 t)) (sym start.split)
    ∙ ap (within_int int_limit false) (digits_value-decimal_digits (suc n) n [] (omega arith))
    ∙ ground arith

is_empty-decimal : (n : ℕ) → is_empty (decimal n) ≡ false
unfolding decimal
is_empty-decimal n = ap is_empty (decimal_digits-Starts (suc n) n [] (omega arith)).split

-- A quota that the label `credit-quota` prints in decimal digits is the one that is read, for all
-- numbers in the range of an int.
pub credit_quota-decimal :
    (labels : Dict Str Str) (n : ℕ)
    → n < int_limit
    → get (text "credit-quota") labels ≡ some (decimal n)
    → credit_quota labels ≡ ok n
unfolding credit_quota read_label
credit_quota-decimal labels n h k =
    rw k (rw (is_empty-decimal n) (ap (quota_or_error (decimal n)) (non_negative_int-decimal n h)))
