-- ===== src/Account/Tenant/Form.antt =====
-- The form of a resolved account name.
use yukimi.Account.Tenant.{base32_char, first_five, resolve_name}
use yukimi.Apis.Admission.{is_name_char, starts_lower, is_admitted_name}
use yukimi.Apis.Admission.Named.{matches_name-scan_name, is_name_byte, scan_name-bytes}
use yukimi.Config.Base.Patterns.{is_word_byte, matches_identifier}
use yukimi.Base.{
  ltb, Str, length, length-append, replace_all, all_bytes, is_letter, is_digit, all_bytes-append, ℕ,
  ◌+◌, ◌*◌, ◌/◌, ◌%◌, ◌≤◌, ◌<◌, ◌≡◌, refl, Bool, true, false, List, [], ◌∷◌, ◌++◌, arith,
}

length-replace_dash : (s : Str) → length (replace_all b'-' (b'_' ∷ []) s) ≡ length s
unfolding replace_all
length-replace_dash [] = refl
length-replace_dash (c ∷ s) = ground (arith, length-replace_dash s)

length-first_five : (digest : Str) → 4 ≤ length digest → length (first_five digest) ≡ 5
unfolding first_five
length-first_five (a ∷ b ∷ c ∷ d ∷ rest) h = omega arith
length-first_five [] h = absurd (omega arith)
length-first_five (a ∷ []) h = absurd (omega arith)
length-first_five (a ∷ b ∷ []) h = absurd (omega arith)
length-first_five (a ∷ b ∷ c ∷ []) h = absurd (omega arith)

pub length-resolve_name :
    (sha256 : Str → List ℕ) (name namespace : Str)
    → length (sha256 namespace) ≡ 32
    → length (resolve_name sha256 name namespace) ≡ length name + 6
unfolding resolve_name
length-resolve_name sha256 name namespace h = omega (
  arith,
  length-append (replace_all b'-' (b'_' ∷ []) name) (b'_' ∷ first_five (sha256 namespace)),
  length-replace_dash name,
  length-first_five (sha256 namespace) (omega arith),
)

base32_char-is_word_byte : (n : ℕ) → n < 32 → is_word_byte (base32_char n) ≡ true
unfolding base32_char is_word_byte is_letter is_digit
base32_char-is_word_byte n h = ground arith

-- A byte of a digest.
abbrev pub is_byte : ℕ → Bool
is_byte b = ltb b 256

first_five-bytes :
    (digest : Str)
    → all_bytes is_byte digest ≡ true
    → all_bytes is_word_byte (first_five digest) ≡ true
unfolding first_five all_bytes
first_five-bytes (a ∷ b ∷ c ∷ d ∷ rest) h = ground (
  arith,
  base32_char-is_word_byte (a / 8),
  base32_char-is_word_byte (a % 8 * 4 + b / 64),
  base32_char-is_word_byte (b / 2 % 32),
  base32_char-is_word_byte (b % 2 * 16 + c / 16),
  base32_char-is_word_byte (c % 16 * 2 + d / 128),
)
first_five-bytes [] h = refl
first_five-bytes (a ∷ []) h = refl
first_five-bytes (a ∷ b ∷ []) h = refl
first_five-bytes (a ∷ b ∷ c ∷ []) h = refl

suffix_bytes :
    (digest : Str)
    → all_bytes is_byte digest ≡ true
    → all_bytes is_word_byte (b'_' ∷ first_five digest) ≡ true
unfolding all_bytes is_word_byte
suffix_bytes digest h = ground (arith, first_five-bytes digest)

replace_dash-bytes :
    (s : Str)
    → all_bytes is_name_byte s ≡ true
    → all_bytes is_word_byte (replace_all b'-' (b'_' ∷ []) s) ≡ true
unfolding replace_all all_bytes is_word_byte is_name_char is_digit is_letter
replace_dash-bytes [] h = refl
replace_dash-bytes (c ∷ s) h = ground (arith, replace_dash-bytes s)

starts_as_identifier :
    (s t : Str)
    → starts_lower s ≡ true
    → all_bytes is_word_byte (replace_all b'-' (b'_' ∷ []) s ++ t) ≡ true
    → matches_identifier (replace_all b'-' (b'_' ∷ []) s ++ t) ≡ true
unfolding replace_all all_bytes matches_identifier is_letter starts_lower
starts_as_identifier [] t h k = cc
starts_as_identifier (c ∷ s) t h k = ground arith

-- The Snowflake name of an admitted account has the form that the configuration asks of Snowflake
-- identifiers, a letter followed by letters, digits and '_', and is six bytes longer than the name.
pub resolve_name-matches_identifier :
    (sha256 : Str → List ℕ) (name namespace : Str)
    → is_admitted_name name ≡ true
    → length (sha256 namespace) ≡ 32
    → all_bytes is_byte (sha256 namespace) ≡ true
    → (matches_identifier (resolve_name sha256 name namespace) ≡ true)
      × (length (resolve_name sha256 name namespace) ≡ length name + 6)
unfolding resolve_name is_admitted_name
resolve_name-matches_identifier sha256 name namespace h digest bytes =
    let (first, scan) = matches_name-scan_name name (ground arith) in
    (
      starts_as_identifier name (b'_' ∷ first_five (sha256 namespace)) first (
          all_bytes-append is_word_byte (replace_all b'-' (b'_' ∷ []) name)
            (b'_' ∷ first_five (sha256 namespace))
            (replace_dash-bytes name (scan_name-bytes false name scan))
            (suffix_bytes (sha256 namespace) bytes)),
      length-resolve_name sha256 name namespace digest,
    )
