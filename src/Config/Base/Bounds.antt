-- ===== src/Config/Base/Bounds.antt =====
-- What a configuration that `Load` of internal/config/base/base.go has returned satisfies.
use yukimi.Config.Base.Document.{is_cloud_section}
use yukimi.Base.{
  Bool-cases, Str, text, is_empty, All, ℕ, ◌≤◌, ◌<◌, String, ◌≡◌, refl, subst, inl, inr, Bool, true,
  false, not, ◌&&◌, ◌||◌, Option, List, [], ◌∷◌, arith,
}
use yukimi.Errors.{ok}
use yukimi.Results.{bind_ok, then_ok, ok_inj, err-not-ok}
use yukimi.Config.Base.Patterns.{
  matches_identifier, matches_locator, matches_aws_region, matches_org_admin_region,
  matches_kms_key,
}
use yukimi.Config.Base.Resolve.{
  ℤ, resolve_positive_int, resolve_non_negative_int, resolve_int_in_range, resolve_positive_int_ok,
  resolve_int_in_range_ok, resolve_positive_duration_ok,
}
use yukimi.Config.Base.Settings.{
  SnowflakeSettings, SecretsSettings, DeletionSettings, RawSnowflake, RawAws, RawSecrets,
  RawDeletion,
}
use yukimi.Config.Base.Shape.{one_section, check_field, check_optional, check_snowflake, check_aws}
use yukimi.Config.Base.{
  min_deletion_grace_period_days, max_deletion_grace_period_days, duration, snowflake_settings,
  secrets_settings, deletion_settings,
}

pub record IsShaped (own admin place region_name : Str) : Type 0 where
  pub org : matches_identifier own ≡ true
  pub account : matches_identifier admin ≡ true
  pub locator : matches_locator place ≡ true
  pub region : matches_org_admin_region region_name ≡ true

pub record IsTuned (s : SnowflakeSettings) : Type 0 where
  pub shaped :
      IsShaped s.org s.org_admin_account s.org_admin_account_locator s.org_admin_account_region
  pub pool_size : 0 < s.max_connection_pool_size
  pub lifetime : 0 < s.connection_max_lifetime
  pub idle_time : 0 < s.connection_max_idle_time
  pub probe_timeout : 0 < s.connection_probe_timeout
  pub creation_grace_period : 0 < s.account_creation_grace_period

pub record IsTimed (s : SecretsSettings) : Type 0 where
  pub ttl : 0 < s.cache_ttl
  pub interval : 0 < s.rotation_interval

check_field_ok :
    (field : String) (matches : Str → Bool) (expected : String) (value : Str)
    → check_field field matches expected value ≡ ok tt
    → matches value ≡ true
unfolding check_field
check_field_ok field matches expected value = elim (Bool-cases (is_empty value)) [
  | inl k ↦ rw k (λ h. err-not-ok h)
  | inr k ↦
      rw k (elim (Bool-cases (matches value)) [ inl m ↦ λ h. m | inr m ↦ rw m (λ h. err-not-ok h) ])
]

pub check_snowflake-IsShaped :
    (raw : RawSnowflake)
    → check_snowflake raw ≡ ok tt
    → IsShaped raw.org raw.org_admin_account raw.org_admin_account_locator
        raw.org_admin_account_region
unfolding check_snowflake
check_snowflake-IsShaped raw h =
    let (h3, region) = then_ok _ _ h in
    let (h2, locator) = then_ok _ _ h3 in
    let (org, account) = then_ok _ _ h2 in
    record {
      org = check_field_ok "snowflake.org" matches_identifier "my_org_name" raw.org org;
      account =
          check_field_ok "snowflake.orgAdminAccount" matches_identifier "my_org_admin_account_name"
            raw.org_admin_account account;
      locator =
          check_field_ok "snowflake.orgAdminAccountLocator" matches_locator "xy12345"
            raw.org_admin_account_locator locator;
      region =
          check_field_ok "snowflake.orgAdminAccountRegion" matches_org_admin_region
            "aws-eu-central-1 or azure-westeurope" raw.org_admin_account_region region;
    }

check_optional_ok :
    (field : String) (matches : Str → Bool) (expected : String) (value : Str)
    → check_optional field matches expected value ≡ ok tt
    → is_empty value || matches value ≡ true
unfolding check_optional
check_optional_ok field matches expected value =
    elim (Bool-cases (not (is_empty value) && not (matches value))) [
      | inl k ↦ rw k (λ h. err-not-ok h)
      | inr k ↦ λ h. one_holds (is_empty value) (matches value) k
    ]
  where
    one_holds : (b c : Bool) → not b && not c ≡ false → b || c ≡ true
    one_holds true c k = refl
    one_holds false true k = refl
    one_holds false false k = ground arith

-- The settings for AWS: each is left out or of its form.
pub record IsPlaced (placing naming : Str) : Type 0 where
  pub region_form : is_empty placing || matches_aws_region placing ≡ true
  pub key_form : is_empty naming || matches_kms_key naming ≡ true

pub check_aws-IsPlaced : (raw : RawAws) → check_aws raw ≡ ok tt → IsPlaced raw.region raw.kms_key_id
unfolding check_aws
check_aws-IsPlaced raw h =
    let (region, key) = then_ok _ _ h in
    record {
      region_form =
          check_optional_ok "aws.region" matches_aws_region "eu-central-1" raw.region region;
      key_form =
          check_optional_ok "aws.kmsKeyId" matches_kms_key
            "a KMS key ID, alias, or ARN, e.g. alias/my-key" raw.kms_key_id key;
    }

module _ (parse_duration : Str → Option ℤ) where
  duration_ok :
      (field : String) (raw : Str) (default n : ℕ)
      → 0 < default
      → duration parse_duration field raw default ≡ ok n
      → 0 < n
  unfolding duration
  duration_ok field raw default n d h =
      resolve_positive_duration_ok parse_duration (text field) raw default n d h

  pub snowflake_settings-IsTuned :
      (raw : RawSnowflake) (s : SnowflakeSettings)
      → IsShaped raw.org raw.org_admin_account raw.org_admin_account_locator
          raw.org_admin_account_region
      → snowflake_settings parse_duration raw ≡ ok s
      → IsTuned s
  unfolding snowflake_settings
  snowflake_settings-IsTuned raw s shaped h =
      let (size, k1, h1) = bind_ok (resolve_positive_int _ raw.max_connection_pool_size _) _ h in
      let (idle, k2, h2) = bind_ok (resolve_non_negative_int _ raw.max_idle_connections _) _ h1 in
      let (life, k3, h3) = bind_ok (duration parse_duration _ raw.connection_max_lifetime _) _ h2 in
      let (time, k4, h4) =
        bind_ok (duration parse_duration _ raw.connection_max_idle_time _) _ h3 in
      let (probe, k5, h5) =
        bind_ok (duration parse_duration _ raw.connection_probe_timeout _) _ h4 in
      let (grace, k6, e) =
        bind_ok (duration parse_duration _ raw.account_creation_grace_period _) _ h5 in
      subst IsTuned (ok_inj _ s e) (record {
        shaped = shaped;
        pool_size = resolve_positive_int_ok _ raw.max_connection_pool_size _ size (omega arith) k1;
        lifetime = duration_ok _ raw.connection_max_lifetime _ life (omega arith) k3;
        idle_time = duration_ok _ raw.connection_max_idle_time _ time (omega arith) k4;
        probe_timeout = duration_ok _ raw.connection_probe_timeout _ probe (omega arith) k5;
        creation_grace_period =
            duration_ok _ raw.account_creation_grace_period _ grace (omega arith) k6;
      })

  pub secrets_settings-IsTimed :
      (raw : RawSecrets) (s : SecretsSettings)
      → secrets_settings parse_duration raw ≡ ok s
      → IsTimed s
  unfolding secrets_settings
  secrets_settings-IsTimed raw s h =
      let (ttl, k1, h1) = bind_ok (duration parse_duration _ raw.cache_ttl _) _ h in
      let (interval, k2, e) = bind_ok (duration parse_duration _ raw.rotation_interval _) _ h1 in
      subst IsTimed (ok_inj _ s e) (record {
        ttl = duration_ok _ raw.cache_ttl _ ttl (omega arith) k1;
        interval = duration_ok _ raw.rotation_interval _ interval (omega arith) k2;
      })

pub deletion_settings_ok :
    (raw : RawDeletion) (s : DeletionSettings)
    → deletion_settings raw ≡ ok s
    → (min_deletion_grace_period_days ≤ s.grace_period_days)
      × (s.grace_period_days ≤ max_deletion_grace_period_days)
unfolding deletion_settings
deletion_settings_ok raw s h =
    let (days, k, e) = bind_ok (resolve_int_in_range _ raw.grace_period_days _ _ _) _ h in
    let bounds =
      resolve_int_in_range_ok _ raw.grace_period_days _ _ _ days (omega arith) (omega arith) k in
    subst
      (λ t.
        (min_deletion_grace_period_days ≤ t.grace_period_days)
        × (t.grace_period_days ≤ max_deletion_grace_period_days))
      (ok_inj _ s e) bounds

pub one_section_is :
    (sections : List Str) (section : Str)
    → All (λ key. is_cloud_section key ≡ true) sections
    → one_section sections ≡ ok section
    → is_cloud_section section ≡ true
unfolding one_section
one_section_is [] section all h = err-not-ok h
one_section_is (s ∷ []) section (All.one_more p ps) h =
    subst (λ t. is_cloud_section t ≡ true) (ok_inj s section h) p
one_section_is (s ∷ t ∷ ss) section all h = err-not-ok h
