-- ===== src/Secrets/Identifier/Parts.antt =====
-- internal/secrets/identifier.go: the segments of an identifier.
use yukimi.Errors.{ok}
use yukimi.Base.{
  nat_beq, Str, text, ◌≡◌, refl, sym, ap, ◌∙◌, Bool, true, false, not, ◌&&◌, ◌||◌, [], ◌∷◌, ◌++◌,
  arith,
}
use yukimi.Secrets.Identifier.{
  has_separator_run, is_valid_segment, to_secret_safe, Identifier, boundary, tenant_value,
  new_tenant_identifier,
}

-- A text that is not empty and does not begin with a dash.
starts_plain : Str → Bool
starts_plain [] = false
starts_plain (c ∷ s) = not (nat_beq c b'-')

has_double_dash : Str → Bool
has_double_dash [] = false
has_double_dash (c ∷ []) = false
has_double_dash (c ∷ d ∷ s) = (nat_beq c b'-' && nat_beq d b'-') || has_double_dash (d ∷ s)

starts_plain-to_secret_safe :
    (s : Str) → is_valid_segment s ≡ true → starts_plain (to_secret_safe s) ≡ true
unfolding starts_plain to_secret_safe is_valid_segment
starts_plain-to_secret_safe [] h = cc
starts_plain-to_secret_safe (c ∷ s) h = ground arith

safe_run : (s : Str) → has_separator_run s ≡ false → has_double_dash (to_secret_safe s) ≡ false
unfolding has_double_dash to_secret_safe has_separator_run
safe_run [] h = refl
safe_run (c ∷ []) h = ground arith
safe_run (c ∷ d ∷ s) h = ground (arith, safe_run (d ∷ s))

-- Two clean segments, each followed by the boundary and a clean rest, are split at one place.
boundary_unique :
    (s t r u : Str)
    → has_double_dash s ≡ false
    → has_double_dash t ≡ false
    → starts_plain r ≡ true
    → starts_plain u ≡ true
    → s ++ (boundary ++ r) ≡ t ++ (boundary ++ u)
    → (s ≡ t) × (r ≡ u)
unfolding has_double_dash starts_plain
boundary_unique [] [] r u hs ht hr hu e = ground arith
boundary_unique [] (d ∷ []) r u hs ht hr hu e = ground arith
boundary_unique [] (d ∷ d' ∷ t) r u hs ht hr hu e = ground arith
boundary_unique (c ∷ []) [] r u hs ht hr hu e = ground arith
boundary_unique (c ∷ c' ∷ s) [] r u hs ht hr hu e = ground arith
boundary_unique (c ∷ []) (d ∷ []) r u hs ht hr hu e = ground arith
boundary_unique (c ∷ []) (d ∷ d' ∷ t) r u hs ht hr hu e =
    ground (arith, boundary_unique [] (d' ∷ t) r u)
boundary_unique (c ∷ c' ∷ s) (d ∷ []) r u hs ht hr hu e =
    ground (arith, boundary_unique (c' ∷ s) [] r u)
boundary_unique (c ∷ c' ∷ s) (d ∷ d' ∷ t) r u hs ht hr hu e =
    ground (arith, boundary_unique (c' ∷ s) (d' ∷ t) r u)

pub segments_of :
    (org namespace name : Str) {i : Identifier}
    → new_tenant_identifier org namespace name ≡ ok i
    → (is_valid_segment org ≡ true)
      × (is_valid_segment namespace ≡ true)
      × (is_valid_segment name ≡ true)
      × (i.value ≡ tenant_value org namespace name)
unfolding new_tenant_identifier
segments_of org namespace name h = ground arith

starts_plain-append : (s t : Str) → starts_plain s ≡ true → starts_plain (s ++ t) ≡ true
unfolding starts_plain
starts_plain-append [] t h = cc
starts_plain-append (c ∷ s) t h = h

valid_run : (s : Str) → is_valid_segment s ≡ true → has_double_dash (to_secret_safe s) ≡ false
unfolding is_valid_segment
valid_run s h = safe_run s (ground arith)

tail_of : Str → Str
tail_of [] = []
tail_of (c ∷ s) = s

tenant_value_injective :
    (o n a o' n' a' : Str)
    → is_valid_segment o ≡ true
    → is_valid_segment n ≡ true
    → is_valid_segment a ≡ true
    → is_valid_segment o' ≡ true
    → is_valid_segment n' ≡ true
    → is_valid_segment a' ≡ true
    → tenant_value o n a ≡ tenant_value o' n' a'
    → (to_secret_safe o ≡ to_secret_safe o')
      × (to_secret_safe n ≡ to_secret_safe n')
      × (to_secret_safe a ≡ to_secret_safe a')
unfolding tenant_value text tail_of
tenant_value_injective o n a o' n' a' vo vn va vo' vn' va' e =
    let (eo, rest) =
      boundary_unique (to_secret_safe o) (to_secret_safe o') _ _ (valid_run o vo) (valid_run o' vo')
        (starts_plain-append (to_secret_safe n) _ (starts_plain-to_secret_safe n vn))
        (starts_plain-append (to_secret_safe n') _ (starts_plain-to_secret_safe n' vn'))
        (ap (λ s. tail_of (tail_of (tail_of s))) e) in
    let (en, ea) =
      boundary_unique (to_secret_safe n) (to_secret_safe n') _ _ (valid_run n vn) (valid_run n' vn')
        (starts_plain-to_secret_safe a va) (starts_plain-to_secret_safe a' va') rest in
    (eo, en, ea)

-- Two tenants that get one identifier agree in organisation, namespace and account name, up to
-- the mapping of '_' to '-': no join of valid segments is ambiguous.
pub new_tenant_identifier_injective :
    (org namespace name org' namespace' name' : Str) (i : Identifier)
    → new_tenant_identifier org namespace name ≡ ok i
    → new_tenant_identifier org' namespace' name' ≡ ok i
    → (to_secret_safe org ≡ to_secret_safe org')
      × (to_secret_safe namespace ≡ to_secret_safe namespace')
      × (to_secret_safe name ≡ to_secret_safe name')
new_tenant_identifier_injective o n a o' n' a' i h h' =
    let (vo, vn, va, e) = segments_of o n a h in
    let (vo', vn', va', e') = segments_of o' n' a' h' in
    tenant_value_injective o n a o' n' a' vo vn va vo' vn' va' (sym e ∙ e')
