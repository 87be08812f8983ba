-- ===== src/Secrets/Identifier/Admitted.antt =====
-- Secret identifiers of the accounts that the API server admits: what checkLen and the rules on
-- names promise one another.
use yukimi.Secrets.Identifier.Parts.{new_tenant_identifier_injective}
use yukimi.Errors.{Error, ok, err}
use yukimi.Secrets.Identifier.{
  is_segment_byte, matches_segment, has_separator_run, is_valid_segment, to_secret_safe, Identifier,
  boundary, tenant_value, new_tenant_identifier,
}
use yukimi.Apis.Admission.{is_name_char, starts_lower, is_admitted_name}
use yukimi.Apis.Admission.Named.{
  scan_name, matches_name-scan_name, is_name_byte, scan_name-bytes, all_bytes_mono,
  is_admitted_name-bytes,
}
use yukimi.Base.{
  Str, text, length, length-append, all_bytes, is_letter, is_digit, ℕ, ◌+◌, ◌≤◌, ◌≡◌, refl, sym,
  ◌∙◌, Bool, true, false, ◌&&◌, [], ◌∷◌, ◌++◌, arith,
}

char_is_segment_byte : (c : ℕ) → is_name_byte c ≡ true → is_segment_byte c ≡ true
unfolding is_name_char is_segment_byte is_letter is_digit
char_is_segment_byte c h = ground arith

no_run : (started : Bool) (s : Str) → scan_name started s ≡ true → has_separator_run s ≡ false
unfolding scan_name has_separator_run is_name_char is_digit
no_run started [] h = refl
no_run started (c ∷ []) h = refl
no_run started (c ∷ d ∷ s) h = ground (arith, no_run false (d ∷ s), no_run true (d ∷ s))

first_is_alnum :
    (s : Str)
    → starts_lower s ≡ true
    → all_bytes is_segment_byte s ≡ true
    → matches_segment s ≡ true
unfolding starts_lower matches_segment is_letter all_bytes
first_is_alnum [] h k = cc
first_is_alnum (c ∷ s) h k = ground arith

-- An admitted name is a valid segment of an identifier.
pub is_admitted_name-is_valid_segment :
    (s : Str) → is_admitted_name s ≡ true → is_valid_segment s ≡ true
unfolding is_valid_segment is_admitted_name
is_admitted_name-is_valid_segment s h =
    let (first, scan) = matches_name-scan_name s (ground arith) in
    let bytes =
      all_bytes_mono is_name_byte is_segment_byte s char_is_segment_byte
        (scan_name-bytes false s scan) in
    rw (first_is_alnum s first bytes, no_run false s scan) refl

-- A text without '_' is its own safe form.
pub to_secret_safe-name : (s : Str) → all_bytes is_name_byte s ≡ true → to_secret_safe s ≡ s
unfolding to_secret_safe all_bytes is_name_char is_digit
to_secret_safe-name [] h = refl
to_secret_safe-name (c ∷ s) h = ground (arith, to_secret_safe-name s)

length-to_secret_safe : (s : Str) → length (to_secret_safe s) ≡ length s
unfolding to_secret_safe
length-to_secret_safe [] = refl
length-to_secret_safe (c ∷ s) = ground (arith, length-to_secret_safe s)

length-tenant_value :
    (org namespace name : Str)
    → length (tenant_value org namespace name) ≡ 7 + length org + length namespace + length name
unfolding tenant_value text
length-tenant_value org namespace name = omega (
  arith,
  length-append (to_secret_safe org)
      (boundary ++ (to_secret_safe namespace ++ (boundary ++ to_secret_safe name))),
  length-append (to_secret_safe namespace) (boundary ++ to_secret_safe name),
  length-to_secret_safe org,
  length-to_secret_safe namespace,
  length-to_secret_safe name,
)

-- An error of an identifier whose parts have 120 bytes at most blames the organisation or the
-- namespace: the name is admitted, and the length fits.
pub admitted-new_tenant_identifier :
    (org namespace name : Str) (e : Error)
    → is_admitted_name name ≡ true
    → length org + length namespace + length name ≤ 120
    → new_tenant_identifier org namespace name ≡ err e
    → is_valid_segment org && is_valid_segment namespace ≡ false
unfolding new_tenant_identifier
admitted-new_tenant_identifier org namespace name e h short refused =
    ground (arith, is_admitted_name-is_valid_segment name h, length-tenant_value org namespace name)

-- In one organisation, two admitted accounts in namespaces of lower-case letters, digits and '-',
-- as Kubernetes admits them, never share a secret: from one identifier follow one namespace and
-- one name.
pub admitted_identifier_injective :
    (org namespace name namespace' name' : Str) (i : Identifier)
    → is_admitted_name name ≡ true
    → is_admitted_name name' ≡ true
    → all_bytes is_name_byte namespace ≡ true
    → all_bytes is_name_byte namespace' ≡ true
    → new_tenant_identifier org namespace name ≡ ok i
    → new_tenant_identifier org namespace' name' ≡ ok i
    → (namespace ≡ namespace') × (name ≡ name')
admitted_identifier_injective org n a n' a' i ha ha' hn hn' h h' =
    let (_, same_namespace, same_name) = new_tenant_identifier_injective org n a org n' a' i h h' in
    (
      sym (to_secret_safe-name n hn) ∙ same_namespace ∙ to_secret_safe-name n' hn',
      sym (to_secret_safe-name a (is_admitted_name-bytes a ha))
          ∙ same_name
          ∙ to_secret_safe-name a' (is_admitted_name-bytes a' ha'),
    )
