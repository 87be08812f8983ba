-- ===== src/Secrets/Identifier/Shape.antt =====
-- The form of a secret identifier, and the class of each refusal.
use yukimi.Secrets.Identifier.Parts.{segments_of}
use yukimi.Base.{
  nat_beq, Str, text, length, all_bytes, is_letter, is_digit, all_bytes-append, ℕ, ◌≤◌, ◌≡◌, refl,
  Bool, true, not, ◌&&◌, ◌||◌, [], ◌∷◌, ◌++◌, arith,
}
use yukimi.Errors.{Error, ok, err, new_user_error, is_user_error}
use yukimi.Secrets.Identifier.{
  max_identifier_len, is_segment_byte, is_valid_segment, to_secret_safe, Identifier, boundary,
  tenant_value, new_tenant_identifier,
}

-- The bytes that every supported backend allows: letters, digits and '-'.
abbrev pub is_backend_byte : ℕ → Bool
is_backend_byte c = is_letter c || is_digit c || nat_beq c b'-'

safe_bytes :
    (s : Str)
    → all_bytes is_segment_byte s ≡ true
    → all_bytes is_backend_byte (to_secret_safe s) ≡ true
unfolding to_secret_safe all_bytes is_segment_byte
safe_bytes [] h = refl
safe_bytes (c ∷ s) h = ground (arith, safe_bytes s)

valid_bytes : (s : Str) → is_valid_segment s ≡ true → all_bytes is_segment_byte s ≡ true
unfolding is_valid_segment is_segment_byte
valid_bytes [] h = cc
valid_bytes (c ∷ s) h = ground arith

valid-safe_bytes :
    (s : Str) → is_valid_segment s ≡ true → all_bytes is_backend_byte (to_secret_safe s) ≡ true
valid-safe_bytes s h = safe_bytes s (valid_bytes s h)

joined_bytes :
    (s t : Str)
    → all_bytes is_backend_byte s ≡ true
    → all_bytes is_backend_byte t ≡ true
    → all_bytes is_backend_byte (s ++ (boundary ++ t)) ≡ true
unfolding all_bytes is_letter is_digit
joined_bytes s t h k = all_bytes-append is_backend_byte s (boundary ++ t) h k

abbrev joined : Str → Str → Str
joined s t = to_secret_safe s ++ (boundary ++ t)

tenant_value_bytes :
    (org namespace name : Str)
    → is_valid_segment org ≡ true
    → is_valid_segment namespace ≡ true
    → is_valid_segment name ≡ true
    → all_bytes is_backend_byte (tenant_value org namespace name) ≡ true
unfolding tenant_value text all_bytes is_letter is_digit
tenant_value_bytes org namespace name vo vn va =
    joined_bytes (to_secret_safe org) (joined namespace (to_secret_safe name))
      (valid-safe_bytes org vo)
      (joined_bytes (to_secret_safe namespace) (to_secret_safe name) (valid-safe_bytes namespace vn)
        (valid-safe_bytes name va))

checked_len :
    (org namespace name : Str) (i : Identifier)
    → new_tenant_identifier org namespace name ≡ ok i
    → length i.value ≤ max_identifier_len
unfolding new_tenant_identifier
checked_len org namespace name i h = ground arith

-- An identifier that is made for a tenant comes from three valid segments, consists of bytes that
-- every backend allows, and is no longer than the shared limit.
pub new_tenant_identifier_shape :
    (org namespace name : Str) (i : Identifier)
    → new_tenant_identifier org namespace name ≡ ok i
    → (is_valid_segment org && is_valid_segment namespace && is_valid_segment name ≡ true)
      × (all_bytes is_backend_byte i.value ≡ true)
      × (length i.value ≤ max_identifier_len)
new_tenant_identifier_shape org namespace name i h =
    let (vo, vn, va, e) = segments_of org namespace name h in
    (
      ground arith,
      rw e (tenant_value_bytes org namespace name vo vn va),
      checked_len org namespace name i h,
    )

-- A refused tenant identifier is a user error exactly when a segment is invalid; a system error
-- says that only the length is at fault.
pub new_tenant_identifier_error :
    (org namespace name : Str) (e : Error)
    → new_tenant_identifier org namespace name ≡ err e
    → is_user_error e
      ≡ not (is_valid_segment org && is_valid_segment namespace && is_valid_segment name)
unfolding new_tenant_identifier is_user_error new_user_error
new_tenant_identifier_error org namespace name e h = ground arith
