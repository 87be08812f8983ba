-- ===== src/Account/Tenant.antt =====
-- internal/account/tenant: naming.go and labels.go (url.go is in Snowflake/Host). SHA-256 is a
-- parameter: a function to a digest of 32 bytes.
pub mod Names
pub mod Quota
pub mod Form
use yukimi.Errors.{Error, plain, Result, ok, err}
use yukimi.Base.{
  str_eq, ltb, nat_beq, if◌then◌else◌, Str, text, str_beq, is_empty, replace_all, quoted, is_digit,
  Dict, get, ℕ, ◌+◌, ◌-◌, ◌*◌, ◌/◌, ◌%◌, Bool, true, false, ◌||◌, Option, none, some, List, [], ◌∷◌,
  ◌++◌,
}
use yukimi.Results.{◌>>=◌}

-- One character of `base32.StdEncoding`, in lower case: a-z for 0-25 and 2-7 for 26-31.
base32_char : ℕ → ℕ
base32_char n = if ltb n 26 then b'a' + n else b'2' + (n - 26)

-- The first five characters of the encoding take 25 bits, of the first four bytes.
first_five : List ℕ → Str
unfolding base32_char
first_five (a ∷ b ∷ c ∷ d ∷ rest) =
    base32_char (a / 8)
    ∷ base32_char (a % 8 * 4 + b / 64)
    ∷ base32_char (b / 2 % 32)
    ∷ base32_char (b % 2 * 16 + c / 16)
    ∷ base32_char (c % 16 * 2 + d / 128)
    ∷ []
first_five _ = []

-- `ResolveName`
unfoldable pub resolve_name : (Str → List ℕ) → Str → Str → Str
unfolding first_five replace_all
resolve_name sha256 name namespace =
    replace_all b'-' (b'_' ∷ []) name ++ (b'_' ∷ first_five (sha256 namespace))

pub missing_label : Str → Error
missing_label key =
    plain (text "namespace missing required label '" ++ key ++ text "'; contact platform ops")

present : Str → Option Str → Result Str
present key none = err (missing_label key)
present key (some value) = if is_empty value then err (missing_label key) else ok value

-- `readLabel`
unfoldable pub read_label : Dict Str Str → Str → Result Str
unfolding present get
read_label labels key = present key (get key labels)

unfoldable pub department : Dict Str Str → Result Str
unfolding read_label text
department labels = read_label labels (text "department")

unfoldable pub cost_center : Dict Str Str → Result Str
unfolding read_label text
cost_center labels = read_label labels (text "cost-center")

-- `strconv.Atoi` for what the caller asks of it: the value if it is in the range of an int and
-- not negative. "-0" is the one text with a minus that is accepted.
digits_value : ℕ → Str → Option ℕ
digits_value acc [] = some acc
digits_value acc (c ∷ s) =
    let more = digits_value (acc * 10 + (c - b'0')) s in if is_digit c then more else none

abbrev pub int_limit : ℕ
int_limit = 9223372036854775808

abbrev within_int : ℕ → Bool → Option ℕ → Option ℕ
within_int limit negative none = none
within_int limit negative (some n) =
    if negative then if nat_beq n 0 then some 0 else none else if ltb n limit then some n else none

unsigned : Bool → Str → Option ℕ
unsigned negative [] = none
unsigned negative (c ∷ s) = within_int int_limit negative (digits_value 0 (c ∷ s))

non_negative_int : Str → Option ℕ
unfolding unsigned digits_value is_digit
non_negative_int [] = none
non_negative_int (c ∷ s) =
    if nat_beq c b'-'
    then unsigned true s
    else if nat_beq c b'+'
    then unsigned false s
    else unsigned false (c ∷ s)

pub quota_message : Str → Str
quota_message value =
    text "namespace label 'credit-quota' must be a non-negative integer, got "
    ++ quoted value
    ++ text "; contact platform ops"

quota_or_error : Str → Option ℕ → Result ℕ
quota_or_error value none = err (plain (quota_message value))
quota_or_error value (some n) = ok n

unfoldable pub credit_quota : Dict Str Str → Result ℕ
unfolding read_label non_negative_int quota_or_error text
credit_quota labels = do
  value ← read_label labels (text "credit-quota")
  quota_or_error value (non_negative_int value)

-- `strconv.ParseBool`
parse_bool : Str → Option Bool
unfolding str_beq text
parse_bool s =
    if str_beq s (text "1")
      || str_beq s (text "t")
      || str_beq s (text "T")
      || str_beq s (text "true")
      || str_beq s (text "TRUE")
      || str_beq s (text "True")
    then some true
    else if str_beq s (text "0")
        || str_beq s (text "f")
        || str_beq s (text "F")
        || str_beq s (text "false")
        || str_beq s (text "FALSE")
        || str_beq s (text "False")
    then some false
    else none

pub tester_message : Str → Str
tester_message value =
    text "namespace label 'alpha-tester' must be a boolean, got "
    ++ quoted value
    ++ text "; contact platform ops"

tester_or_error : Str → Option Bool → Result Bool
tester_or_error value none = err (plain (tester_message value))
tester_or_error value (some t) = ok t

tester_value : Option Str → Result Bool
unfolding parse_bool tester_or_error
tester_value none = ok false
tester_value (some value) =
    if is_empty value then ok false else tester_or_error value (parse_bool value)

unfoldable pub alpha_tester : Dict Str Str → Result Bool
unfolding tester_value get text
alpha_tester labels = tester_value (get (text "alpha-tester") labels)
