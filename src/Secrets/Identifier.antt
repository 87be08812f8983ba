-- ===== src/Secrets/Identifier.antt =====
-- internal/secrets/identifier.go: the names under which credentials are stored.
pub mod Parts
pub mod Shape
pub mod Clash
pub mod Admitted
use yukimi.Base.{
  ltb, nat_beq, if◌then◌else◌, Eq, Str, text, length, str_beq, str_beq_iff, replace_all, decimal,
  quoted, all_bytes, is_letter, is_digit, ℕ, ◌≡◌, ◌↔◌, Bool, true, false, not, ◌&&◌, ◌||◌, [], ◌∷◌,
  ◌++◌, arith,
}
use yukimi.Results.{◌>>◌}
use yukimi.Errors.{plain, Result, ok, err, new_user_error}

abbrev pub max_identifier_len : ℕ
max_identifier_len = 127

unfoldable pub is_separator : ℕ → Bool
is_separator c = nat_beq c b'-' || nat_beq c b'_'

is_alnum : ℕ → Bool
unfolding is_letter is_digit
is_alnum c = is_letter c || is_digit c

is_segment_byte : ℕ → Bool
unfolding is_alnum is_separator
is_segment_byte c = is_alnum c || is_separator c

-- `^[A-Za-z0-9][A-Za-z0-9_-]*$`
matches_segment : Str → Bool
unfolding is_segment_byte all_bytes is_alnum
matches_segment [] = false
matches_segment (c ∷ s) = is_alnum c && all_bytes is_segment_byte s

-- `[-_]{2,}` somewhere in the text
has_separator_run : Str → Bool
unfolding is_separator
has_separator_run [] = false
has_separator_run (c ∷ []) = false
has_separator_run (c ∷ d ∷ s) = (is_separator c && is_separator d) || has_separator_run (d ∷ s)

pub segment_message : Str → Str → Str
segment_message name value =
    text "invalid secret identifier segment "
    ++ quoted value
    ++ text " for "
    ++ name
    ++ text ": must start with a letter or digit and contain only "
    ++ text "letters, digits, single '_', or single '-' (no repeated '-'/'_')"

unfoldable pub is_valid_segment : Str → Bool
unfolding matches_segment has_separator_run
is_valid_segment value = matches_segment value && not (has_separator_run value)

validate_segment : Str → Str → Result (Unit {0})
unfolding is_valid_segment
validate_segment name value =
    if not (matches_segment value) || has_separator_run value
    then err (new_user_error (segment_message name value))
    else ok tt

unfoldable pub to_secret_safe : Str → Str
unfolding replace_all
to_secret_safe s = replace_all b'_' (b'-' ∷ []) s

pub length_message : Str → Str
length_message value =
    text "secret identifier "
    ++ quoted value
    ++ text " is "
    ++ decimal (length value)
    ++ text " characters, which exceeds the "
    ++ decimal max_identifier_len
    ++ text "-character limit shared by supported secrets-manager backends"

check_len : Str → Result (Unit {0})
check_len value =
    if ltb max_identifier_len (length value) then err (plain (length_message value)) else ok tt

pub record Identifier : Type 0 where
  pub value : Str

pub identifier_beq_iff : (a b : Identifier) → (str_beq a.value b.value ≡ true) ↔ (a ≡ b)
identifier_beq_iff a b = ground (arith, str_beq_iff a.value b.value)

instance abbrev pub identifier_eq : Eq Identifier
identifier_eq = record { beq = λ a b. str_beq a.value b.value; beq_iff = identifier_beq_iff }

abbrev boundary : Str
boundary = b'-' ∷ b'-' ∷ []

pub tenant_value : Str → Str → Str → Str
tenant_value org namespace account_name =
    text "yk-"
    ++ (to_secret_safe org
        ++ (boundary ++ (to_secret_safe namespace ++ (boundary ++ to_secret_safe account_name))))

unfoldable pub new_tenant_identifier : Str → Str → Str → Result Identifier
unfolding validate_segment tenant_value check_len
new_tenant_identifier org namespace account_name = do
  validate_segment (text "org") org
  validate_segment (text "namespace") namespace
  validate_segment (text "accountName") account_name
  let value = tenant_value org namespace account_name
  check_len value
  ok (record { value = value })

pub org_admin_value : Str → Str → Str
org_admin_value org org_admin_account =
    text "yk-orgadmin--" ++ (to_secret_safe org ++ (boundary ++ to_secret_safe org_admin_account))

unfoldable pub new_org_admin_identifier : Str → Str → Result Identifier
unfolding validate_segment org_admin_value check_len
new_org_admin_identifier org org_admin_account = do
  validate_segment (text "org") org
  validate_segment (text "orgAdminAccount") org_admin_account
  let value = org_admin_value org org_admin_account
  check_len value
  ok (record { value = value })
