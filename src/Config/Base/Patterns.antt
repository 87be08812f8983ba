-- ===== src/Config/Base/Patterns.antt =====
-- The regular expressions of internal/config/base/base.go, as tests of texts. A '-' or a ':' is in
-- none of the classes that it separates, so the parts between them are tested one by one.
use yukimi.Base.{
  leb, nat_beq, if◌then◌else◌, Str, text, length, str_beq, is_empty, all_bytes, is_letter, is_digit,
  split_on, ℕ, Bool, false, not, ◌&&◌, ◌||◌, Option, none, some, List, [], ◌∷◌,
}

unfoldable pub is_lower : ℕ → Bool
is_lower c = leb b'a' c && leb c b'z'

unfoldable pub is_word_byte : ℕ → Bool
unfolding is_letter is_digit
is_word_byte c = is_letter c || is_digit c || nat_beq c b'_'

-- `[...]+`
unfoldable pub some_bytes : (ℕ → Bool) → Str → Bool
unfolding all_bytes
some_bytes p s = not (is_empty s) && all_bytes p s

-- `identifierPattern`: ^[A-Za-z][A-Za-z0-9_]*$
unfoldable pub matches_identifier : Str → Bool
unfolding is_letter is_word_byte all_bytes
matches_identifier [] = false
matches_identifier (c ∷ s) = is_letter c && all_bytes is_word_byte s

-- `accountLocatorPattern`: ^[A-Za-z0-9]+$
unfoldable pub is_alphanumeric : ℕ → Bool
unfolding is_letter is_digit
is_alphanumeric c = is_letter c || is_digit c

unfoldable pub matches_locator : Str → Bool
unfolding some_bytes is_alphanumeric
matches_locator s = some_bytes is_alphanumeric s

-- `awsRegionPattern`: ^[a-z]{2}(-[a-z]+)+-[0-9]$
ends_region : List Str → Bool
unfolding some_bytes is_lower is_digit
ends_region [] = false
ends_region (word ∷ []) = false
ends_region (word ∷ number ∷ []) =
    some_bytes is_lower word && some_bytes is_digit number && nat_beq (length number) 1
ends_region (word ∷ other ∷ third ∷ parts) =
    let rest = ends_region (other ∷ third ∷ parts) in some_bytes is_lower word && rest

is_region_parts : List Str → Bool
unfolding ends_region some_bytes is_lower
is_region_parts [] = false
is_region_parts (country ∷ parts) =
    some_bytes is_lower country && nat_beq (length country) 2 && ends_region parts

unfoldable pub matches_aws_region : Str → Bool
unfolding is_region_parts split_on
matches_aws_region s = is_region_parts (split_on b'-' s)

-- What stands behind a prefix.
unfoldable pub behind : Str → Str → Option Str
behind [] s = some s
behind (d ∷ t) [] = none
behind (d ∷ t) (c ∷ s) = let rest = behind t s in if nat_beq c d then rest else none

unfoldable pub rest_matches : (Str → Bool) → Option Str → Bool
rest_matches p none = false
rest_matches p (some s) = p s

-- `orgAdminRegionPattern`: ^(aws|azure|gcp)-[a-z][a-z0-9-]*$
unfoldable pub is_region_byte : ℕ → Bool
unfolding is_lower is_digit
is_region_byte c = is_lower c || is_digit c || nat_beq c b'-'

unfoldable pub is_region_name : Str → Bool
unfolding is_lower is_region_byte all_bytes
is_region_name [] = false
is_region_name (c ∷ s) = is_lower c && all_bytes is_region_byte s

unfoldable pub matches_org_admin_region : Str → Bool
unfolding behind rest_matches is_region_name text
matches_org_admin_region s =
    rest_matches is_region_name (behind (text "aws-") s)
    || rest_matches is_region_name (behind (text "azure-") s)
    || rest_matches is_region_name (behind (text "gcp-") s)

-- `kmsKeyIDPattern`: a key's or an alias's ARN, an alias, or a key's identifier.
is_key_byte : ℕ → Bool
unfolding is_alphanumeric
is_key_byte c = is_alphanumeric c || nat_beq c b'/' || nat_beq c b'_' || nat_beq c b'-'

matches_alias : Str → Bool
unfolding behind rest_matches some_bytes is_key_byte text
matches_alias s = rest_matches (some_bytes is_key_byte) (behind (text "alias/") s)

matches_key : Str → Bool
unfolding behind rest_matches some_bytes is_key_byte text
matches_key s = rest_matches (some_bytes is_key_byte) (behind (text "key/") s)

is_arn : List Str → Bool
unfolding some_bytes is_region_byte is_digit matches_alias matches_key text
is_arn (arn ∷ aws ∷ kms ∷ region ∷ account ∷ resource ∷ []) =
    str_beq arn (text "arn")
    && str_beq aws (text "aws")
    && str_beq kms (text "kms")
    && some_bytes is_region_byte region
    && some_bytes is_digit account
    && nat_beq (length account) 12
    && (matches_key resource || matches_alias resource)
is_arn parts = false

is_hex_byte : ℕ → Bool
unfolding is_digit
is_hex_byte c = is_digit c || (leb b'a' c && leb c b'f') || (leb b'A' c && leb c b'F')

is_hex : ℕ → Str → Bool
unfolding all_bytes is_hex_byte
is_hex n s = nat_beq (length s) n && all_bytes is_hex_byte s

is_uuid : List Str → Bool
unfolding is_hex
is_uuid (a ∷ b ∷ c ∷ d ∷ e ∷ []) =
    is_hex 8 a && is_hex 4 b && is_hex 4 c && is_hex 4 d && is_hex 12 e
is_uuid parts = false

unfoldable pub matches_kms_key : Str → Bool
unfolding is_arn matches_alias is_uuid split_on is_hex is_hex_byte is_key_byte matches_key
matches_kms_key s = is_arn (split_on b':' s) || matches_alias s || is_uuid (split_on b'-' s)
