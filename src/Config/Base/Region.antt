-- ===== src/Config/Base/Region.antt =====
-- The org-admin region of internal/config/base/base.go and internal/snowflake/host/host.go.
use yukimi.Config.Base.Resolve.{ℤ}
use yukimi.Config.Base.{load_base}
use yukimi.Config.Base.Valid.{load_base-IsSound}
use yukimi.Config.Base.Document.{Node}
use yukimi.Config.Base.Settings.{BaseConfig, RawConfig}
use yukimi.Config.Files.{FileRead}
use yukimi.Base.{
  nat_beq, if◌then◌else◌, nat_beq_iff, Bool-cases, Option-cases, Str, text, str_beq, ◌≡◌, refl, sym,
  ap, subst, ◌∙◌, inl, inr, Bool, true, false, Option, some, [], ◌∷◌, ◌++◌, arith,
}
use yukimi.Results.{◌>>=◌}
use yukimi.Errors.{Result, ok}
use yukimi.Config.Base.Patterns.{behind, rest_matches, is_region_name, matches_org_admin_region}
use yukimi.Snowflake.Host.{region_segment, hostname}

Resolved : Result Str → Type 0
Resolved r = (name : Str) × (r ≡ ok name)

behind-append : (t s rest : Str) → behind t s ≡ some rest → s ≡ t ++ rest
unfolding behind
behind-append [] s rest = λ h. grind arith
behind-append (d ∷ t) [] rest = λ h. ground arith
behind-append (d ∷ t) (c ∷ s) rest = elim (Bool-cases (nat_beq c d)) [
  | inl k ↦
      rw k
        (λ h. ap (λ b. b ∷ s) ((nat_beq_iff c d).0 k) ∙ ap (λ u. d ∷ u) (behind-append t s rest h))
  | inr k ↦ rw k (λ h. ground arith)
]

either_ok : (b : Bool) (x y : Str) → Resolved (if b then ok x else ok y)
unfolding Resolved
either_ok true x y = (x, refl)
either_ok false x y = (y, refl)

aws-Resolved : (rest : Str) → Resolved (region_segment (text "aws-" ++ rest))
unfolding region_segment text
aws-Resolved rest = either_ok (str_beq rest _) _ _

azure-Resolved : (rest : Str) → Resolved (region_segment (text "azure-" ++ rest))
unfolding region_segment text Resolved
azure-Resolved rest = (_, refl)

gcp-Resolved : (rest : Str) → Resolved (region_segment (text "gcp-" ++ rest))
unfolding region_segment text Resolved
gcp-Resolved rest = (_, refl)

prefix-Resolved :
    (cloud region : Str) (p : Str → Bool)
    → ((rest : Str) → Resolved (region_segment (cloud ++ rest)))
    → rest_matches p (behind cloud region) ≡ true
    → Resolved (region_segment region)
unfolding rest_matches
prefix-Resolved cloud region p one = elim (Option-cases (behind cloud region)) [
  | inl k ↦ rw k (λ h. ground arith)
  | inr (rest, k) ↦ λ h.
      subst (λ s. Resolved (region_segment s)) (sym (behind-append cloud region rest k)) (one rest)
]

matched-Resolved :
    (region : Str) → matches_org_admin_region region ≡ true → Resolved (region_segment region)
unfolding matches_org_admin_region
matched-Resolved region h =
    elim (Bool-cases (rest_matches is_region_name (behind (text "aws-") region))) [
      | inl k ↦ prefix-Resolved (text "aws-") region is_region_name aws-Resolved k
      | inr k ↦ elim (Bool-cases (rest_matches is_region_name (behind (text "azure-") region))) [
        | inl l ↦ prefix-Resolved (text "azure-") region is_region_name azure-Resolved l
        | inr l ↦ prefix-Resolved (text "gcp-") region is_region_name gcp-Resolved (ground arith)
      ]
    ]

then-Resolved :
    (r : Result Str) (f : Str → Str) → Resolved r → Resolved (r >>= λ segment. ok (f segment))
unfolding Resolved
then-Resolved r f (segment, k) = (f segment, ap (λ s. s >>= λ t. ok (f t)) k)

module _ (read_file : Str → Str → FileRead) (unmarshal : Str → Result Node)
    (decode : Node → Result RawConfig) (parse_duration : Str → Option ℤ) where
  -- The host name of the org-admin account can be built from every configuration that `Load`
  -- returns: its region is never refused.
  pub hostname-load_base :
      (config_dir : Str) (config : BaseConfig)
      → load_base read_file unmarshal decode parse_duration config_dir ≡ ok config
      → (name : Str) × (hostname config.snowflake.org_admin_account_locator
            config.snowflake.org_admin_account_region config.snowflake.use_private_link
          ≡ ok name)
  unfolding hostname Resolved
  hostname-load_base config_dir config h =
      let sound = load_base-IsSound read_file unmarshal decode parse_duration config_dir config h in
      then-Resolved (region_segment config.snowflake.org_admin_account_region) _
        (matched-Resolved config.snowflake.org_admin_account_region sound.tuned.shaped.region)
