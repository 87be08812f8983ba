-- ===== src/Snowflake/Host/Regions.antt =====
-- internal/snowflake/host/host.go: regions and their hosts.
use yukimi.Results.{Result-cases}
use yukimi.Errors.{ok}
use yukimi.Base.{
  nat_beq, if◌then◌else◌, Bool-cases, Option-cases, Str, text, length, length-append, str_beq,
  str_beq_iff, ◌≡◌, refl, sym, ap, ◌∙◌, inl, inr, Bool, true, false, ◌||◌, some, [], ◌∷◌, ◌++◌,
  arith,
}
use yukimi.Snowflake.Host.{
  private_link_suffix, public_suffix, is_valid_cloud, split_at_dash, bare_region, segment_of,
  region_segment, hostname,
}

has_dot : Str → Bool
has_dot [] = false
has_dot (c ∷ s) = nat_beq c b'.' || has_dot s

has_dot-append : (s t : Str) → has_dot (s ++ b'.' ∷ t) ≡ true
unfolding has_dot
has_dot-append [] t = refl
has_dot-append (c ∷ s) t = ground (arith, has_dot-append s t)

last_dot_unique :
    (s t c d : Str)
    → has_dot c ≡ false
    → has_dot d ≡ false
    → s ++ b'.' ∷ c ≡ t ++ b'.' ∷ d
    → (s ≡ t) × (c ≡ d)
unfolding has_dot
last_dot_unique [] [] c d hc hd e = ground arith
last_dot_unique [] (y ∷ t) c d hc hd e = ground (arith, has_dot-append t d)
last_dot_unique (x ∷ s) [] c d hc hd e = ground (arith, has_dot-append s c)
last_dot_unique (x ∷ s) (y ∷ t) c d hc hd e = ground (arith, last_dot_unique s t c d)

cloud_dot : (cloud : Str) → is_valid_cloud cloud ≡ true → has_dot cloud ≡ false
unfolding has_dot is_valid_cloud text
cloud_dot cloud h = ground (
  arith,
  str_beq_iff cloud (text "aws"),
  str_beq_iff cloud (text "azure"),
  str_beq_iff cloud (text "gcp"),
)

split_join :
    (region cloud rest : Str)
    → split_at_dash region ≡ some (cloud, rest)
    → region ≡ cloud ++ b'-' ∷ rest
unfolding split_at_dash
split_join [] cloud rest h = cc
split_join (c ∷ s) cloud rest h = elim (Option-cases (split_at_dash s)) [
  | inl e ↦ ground arith
  | inr ((front, back), e) ↦ ground (arith, split_join s front back)
]

-- What the segment of a region says: the one region without a cloud suffix, or both parts.
data Segment (region segment : Str) : Type 0 where
  bare : region ≡ bare_region → segment ≡ text "eu-central-1" → Segment region segment
  suffixed :
      (cloud rest : Str)
      → is_valid_cloud cloud ≡ true
      → region ≡ cloud ++ b'-' ∷ rest
      → segment ≡ rest ++ b'.' ∷ cloud
      → Segment region segment

segment_of-Segment :
    (region cloud rest segment : Str)
    → region ≡ cloud ++ b'-' ∷ rest
    → segment_of region (some (cloud, rest)) ≡ ok segment
    → Segment region segment
unfolding segment_of
segment_of-Segment region cloud rest segment e h = elim (Bool-cases (is_valid_cloud cloud)) [
  | inr bad ↦ ground arith
  | inl good ↦ elim (Bool-cases (str_beq region bare_region)) [
    | inl same ↦ bare ((str_beq_iff region bare_region).0 same) (ground arith)
    | inr other ↦ suffixed cloud rest good e (ground arith)
  ]
]

region_segment_lem :
    (region : Str) → segment_of region (split_at_dash region) ≡ region_segment region
unfolding region_segment
region_segment_lem region = refl

region_segment-Segment :
    (region segment : Str) → region_segment region ≡ ok segment → Segment region segment
region_segment-Segment region segment h = elim (Option-cases (split_at_dash region)) [
  | inl e ↦ absurd (unfold region_segment segment_of in ground arith)
  | inr ((cloud, rest), e) ↦
      segment_of-Segment region cloud rest segment (split_join region cloud rest e)
        (sym (ap (segment_of region) e) ∙ (region_segment_lem region ∙ h))
]

bare_dot : has_dot (text "eu-central-1") ≡ false
unfolding has_dot text
bare_dot = refl

Segment-unique : (r r' s s' : Str) → Segment r s → Segment r' s' → s ≡ s' → r ≡ r'
Segment-unique r r' s s' (bare e f) (bare e' f') q = e ∙ sym e'
Segment-unique r r' s s' (bare e f) (suffixed c t v e' f') q =
    cc (bare_dot, has_dot-append t c, sym f ∙ (q ∙ f'))
Segment-unique r r' s s' (suffixed c t v e f) (bare e' f') q =
    cc (bare_dot, has_dot-append t c, sym f ∙ (q ∙ f'))
Segment-unique r r' s s' (suffixed c t v e f) (suffixed c' t' v' e' f') q =
    let (et, ec) = last_dot_unique t t' c c' (cloud_dot c v) (cloud_dot c' v') (sym f ∙ (q ∙ f')) in
    cc

append_cancel : (s t u : Str) → s ++ t ≡ s ++ u → t ≡ u
append_cancel [] t u e = e
append_cancel (c ∷ s) t u e = append_cancel s t u (ground arith)

append_cancel_right : (s t u : Str) → s ++ u ≡ t ++ u → s ≡ t
append_cancel_right [] [] u e = refl
append_cancel_right [] (d ∷ t) u e = absurd (omega (arith, ap length e, length-append {0} t u))
append_cancel_right (c ∷ s) [] u e = absurd (omega (arith, ap length e, length-append {0} s u))
append_cancel_right (c ∷ s) (d ∷ t) u e = ground (arith, append_cancel_right s t u)

after_dot : (s t : Str) → b'.' ∷ s ≡ b'.' ∷ t → s ≡ t
after_dot s t e = ground arith

suffix : Bool → Str
suffix private = if private then private_link_suffix else public_suffix

hostname_segment :
    (locator region name : Str) (private : Bool)
    → hostname locator region private ≡ ok name
    → (segment : Str) × (region_segment region ≡ ok segment)
      × (name ≡ locator ++ (b'.' ∷ (segment ++ suffix private)))
unfolding suffix
hostname_segment locator region name private h = elim (Result-cases (region_segment region)) [
  | inl (segment, e) ↦ (segment, e, unfold hostname in ground arith)
  | inr (x, e) ↦ absurd (unfold hostname in ground arith)
]

-- For one account locator and one link setting, two regions with the same host are the same
-- region.
pub hostname_injective :
    (locator region region' name : Str) (private : Bool)
    → hostname locator region private ≡ ok name
    → hostname locator region' private ≡ ok name
    → region ≡ region'
hostname_injective locator region region' name private h h' =
    let (s, e, n) = hostname_segment locator region name private h in
    let (s', e', n') = hostname_segment locator region' name private h' in
    Segment-unique region region' s s' (region_segment-Segment region s e)
      (region_segment-Segment region' s' e')
      (append_cancel_right s s' (suffix private)
        (after_dot _ _ (append_cancel locator _ _ (sym n ∙ n'))))
