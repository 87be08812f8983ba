-- ===== src/Apis/Admission.antt =====
-- The validation markers of apis/base/v1alpha1/snowflakeaccount_types.go and
-- deletionpermit_types.go: what the API server admits. Texts are valid UTF-8.
pub mod Named
use yukimi.Config.Base.Patterns.{is_lower, some_bytes, matches_org_admin_region}
use yukimi.Apis.DeletionPermit.{DeletionPermitSpec}
use yukimi.Apis.SnowflakeAccount.{
  IdentityIntegration, AuthException, CustomAuthRules, SnowflakeAccountSpec, SnowflakeAccount,
}
use yukimi.Apis.Crossplane.{Crossplane}
use yukimi.Base.{
  str_eq, ltb, leb, nat_beq, if◌then◌else◌, Str, text, length, str_beq, is_empty, all_bytes,
  is_digit, split_on, get, ℕ, ◌+◌, Bool, true, false, not, ◌&&◌, ◌||◌, Option, none, some, List, [],
  ◌∷◌,
}

-- [a-z0-9]
unfoldable pub is_name_char : ℕ → Bool
unfolding is_lower is_digit
is_name_char c = is_lower c || is_digit c

unfoldable pub are_words : List Str → Bool
unfolding some_bytes is_name_char
are_words [] = true
are_words (word ∷ words) = some_bytes is_name_char word && are_words words

unfoldable pub starts_lower : Str → Bool
unfolding is_lower
starts_lower [] = false
starts_lower (c ∷ s) = is_lower c

-- ^[a-z][a-z0-9]*(-[a-z0-9]+)*$: a '-' is in none of the classes, so the words between them are
-- tested one by one.
unfoldable pub matches_name : Str → Bool
unfolding starts_lower are_words split_on
matches_name s = starts_lower s && are_words (split_on b'-' s)

abbrev pub max_name_len : ℕ
max_name_len = 55

-- `size(self.metadata.name) <= 55` and the pattern of the name
unfoldable pub is_admitted_name : Str → Bool
unfolding matches_name
is_admitted_name name = leb (length name) max_name_len && matches_name name

-- The characters of a text in UTF-8: the bytes that continue no character.
abbrev is_first_byte : ℕ → Bool
is_first_byte c = ltb c 128 || leb 192 c

rune_count : Str → ℕ
rune_count [] = 0
rune_count (c ∷ s) = (if is_first_byte c then 1 else 0) + rune_count s

-- [^\s@]
is_contact_byte : ℕ → Bool
is_contact_byte c =
    not (nat_beq c 9 || nat_beq c 10 || nat_beq c 12 || nat_beq c 13 || nat_beq c b' ')

-- A '.' with something behind it.
dot_inside : Str → Bool
dot_inside [] = false
dot_inside (c ∷ s) = (nat_beq c b'.' && not (is_empty s)) || dot_inside s

is_domain : Str → Bool
unfolding all_bytes is_contact_byte dot_inside
is_domain [] = false
is_domain (c ∷ s) = all_bytes is_contact_byte (c ∷ s) && dot_inside s

is_contact_parts : List Str → Bool
unfolding some_bytes is_contact_byte is_domain
is_contact_parts (local ∷ domain ∷ []) = some_bytes is_contact_byte local && is_domain domain
is_contact_parts parts = false

-- ^[^\s@]+@[^\s@]+\.[^\s@]+$
unfoldable pub matches_contact : Str → Bool
unfolding is_contact_parts split_on
matches_contact s = is_contact_parts (split_on b'@' s)

is_present {ℓ} : {A : Type ℓ} → Option A → Bool
is_present none = false
is_present (some a) = true

unfoldable pub binds_accountadmin : IdentityIntegration → Bool
unfolding is_present get text
binds_accountadmin integration = is_present (get (text "ACCOUNTADMIN") integration.role_bindings)

unfoldable pub is_admitted_exception : AuthException → Bool
is_admitted_exception e = e.rsa_key_allowed || e.pat_allowed

all_exceptions : List AuthException → Bool
unfolding is_admitted_exception
all_exceptions [] = true
all_exceptions (e ∷ es) = is_admitted_exception e && all_exceptions es

admitted_rules : Option CustomAuthRules → Bool
unfolding all_exceptions
admitted_rules none = true
admitted_rules (some rules) = all_exceptions rules.exceptions

unfoldable pub is_admitted_spec : SnowflakeAccountSpec → Bool
unfolding rune_count matches_contact matches_org_admin_region str_beq text binds_accountadmin
    admitted_rules
is_admitted_spec spec =
    leb (rune_count spec.description) 1024
    && matches_contact spec.contact
    && matches_org_admin_region spec.region
    && (str_beq spec.environment (text "dev") || str_beq spec.environment (text "prod"))
    && binds_accountadmin spec.identity_integration
    && admitted_rules spec.custom_auth_rules

-- The rules `self == oldSelf`.
unfoldable pub is_unchanged : SnowflakeAccountSpec → SnowflakeAccountSpec → Bool
unfolding str_beq
is_unchanged old new =
    str_beq new.description old.description
    && str_beq new.region old.region
    && str_beq new.environment old.environment

unfoldable pub account_admitted : {xp : Crossplane} → SnowflakeAccount xp → Bool
unfolding is_admitted_name is_admitted_spec
account_admitted cr = is_admitted_name cr.name && is_admitted_spec cr.spec

-- 8h in nanoseconds
abbrev pub max_duration : ℕ
max_duration = 28800000000000

unfoldable pub is_admitted_permit_spec : DeletionPermitSpec → Bool
unfolding str_beq text
is_admitted_permit_spec spec =
    ltb 0 spec.duration
    && leb spec.duration max_duration
    && not (is_empty spec.reason)
    && str_beq spec.target_ref.kind (text "SnowflakeAccount")

-- Enum=Active;Expired;Consumed, of an optional field
unfoldable pub is_admitted_state : Str → Bool
unfolding str_beq text
is_admitted_state s =
    is_empty s
    || str_beq s (text "Active")
    || str_beq s (text "Expired")
    || str_beq s (text "Consumed")
