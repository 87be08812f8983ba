-- ===== src/Config/Base/Valid.antt =====
-- What the configuration of `Load` of internal/config/base/base.go promises its users.
use Prim.Native.Nat.{min}
use yukimi.Base.{Str, text, All, ◌≤◌, ◌≡◌, subst, true, Option, List, arith}
use yukimi.Errors.{Result, ok}
use yukimi.Results.{bind_ok, then_ok, ok_inj}
use yukimi.Config.Files.{FileRead}
use yukimi.Config.Base.Resolve.{ℤ}
use yukimi.Config.Base.Document.{Node, is_cloud_section, detect_cloud_sections, detected_are}
use yukimi.Config.Base.Settings.{BaseConfig, RawConfig}
use yukimi.Config.Base.Shape.{one_section, check_snowflake, check_aws}
use yukimi.Config.Base.Bounds.{
  IsTuned, IsTimed, check_snowflake-IsShaped, IsPlaced, check_aws-IsPlaced,
  snowflake_settings-IsTuned, secrets_settings-IsTimed, deletion_settings_ok, one_section_is,
}
use yukimi.Config.Base.{
  min_deletion_grace_period_days, max_deletion_grace_period_days, snowflake_settings,
  secrets_settings, deletion_settings, file_content, unparsed, raw_config, validated, load_base,
}
use yukimi.Secrets.Aws.{recovery_window}

pub record IsSound (config : BaseConfig) : Type 0 where
  pub tuned : IsTuned config.snowflake
  pub placed : IsPlaced config.aws.region config.aws.kms_key_id
  pub timed : IsTimed config.secrets
  pub shortest : min_deletion_grace_period_days ≤ config.deletion.grace_period_days
  pub longest : config.deletion.grace_period_days ≤ max_deletion_grace_period_days
  pub cloud : is_cloud_section config.cloud_provider ≡ true

pub validated-IsSound :
    (parse_duration : Str → Option ℤ) (sections : List Str) (raw : RawConfig) (config : BaseConfig)
    → All (λ key. is_cloud_section key ≡ true) sections
    → validated parse_duration sections raw ≡ ok config
    → IsSound config
unfolding validated
validated-IsSound parse_duration sections raw config all h =
    let (section, k1, h1) = bind_ok (one_section sections) _ h in
    let (shaped, h2) = then_ok (check_snowflake raw.snowflake) _ h1 in
    let (aws, h3) = then_ok (check_aws raw.aws) _ h2 in
    let (snowflake, k2, h4) = bind_ok (snowflake_settings parse_duration raw.snowflake) _ h3 in
    let (secrets, k3, h5) = bind_ok (secrets_settings parse_duration raw.secrets) _ h4 in
    let (deletion, k4, e) = bind_ok (deletion_settings raw.deletion) _ h5 in
    let (shortest, longest) = deletion_settings_ok raw.deletion deletion k4 in
    subst IsSound (ok_inj _ config e) (record {
      tuned =
          snowflake_settings-IsTuned parse_duration raw.snowflake snowflake
            (check_snowflake-IsShaped raw.snowflake shaped) k2;
      placed = check_aws-IsPlaced raw.aws aws;
      timed = secrets_settings-IsTimed parse_duration raw.secrets secrets k3;
      shortest = shortest;
      longest = longest;
      cloud = one_section_is sections section all k1;
    })

module _ (read_file : Str → Str → FileRead) (unmarshal : Str → Result Node)
    (decode : Node → Result RawConfig) (parse_duration : Str → Option ℤ) where
  -- Whatever the file says, a configuration that `Load` returns has identifiers, a locator and a
  -- region of the documented forms, an AWS region and a KMS key of their forms where there are any,
  -- a pool of at least one connection, timeouts that are positive, a grace period of 7 to 90 days,
  -- and one of the three clouds as its provider.
  pub load_base-IsSound :
      (config_dir : Str) (config : BaseConfig)
      → load_base read_file unmarshal decode parse_duration config_dir ≡ ok config
      → IsSound config
  unfolding load_base
  load_base-IsSound config_dir config h =
      let (bytes, k1, h1) =
        bind_ok (file_content config_dir (read_file config_dir (text "base.yaml"))) _ h in
      let (root, k2, h2) = bind_ok (unparsed (unmarshal bytes)) _ h1 in
      let (raw, k3, h3) = bind_ok (raw_config decode root) _ h2 in
      validated-IsSound parse_duration (detect_cloud_sections root) raw config (detected_are root)
        h3

  -- The AWS key store of a loaded grace period: its recovery window is one that Secrets Manager
  -- accepts, 7 to 30 days, and never longer than the grace period, to which it is equal up to 30 days.
  pub recovery_window-load_base :
      (config_dir : Str) (config : BaseConfig)
      → load_base read_file unmarshal decode parse_duration config_dir ≡ ok config
      → (7 ≤ recovery_window config.deletion.grace_period_days)
        × (recovery_window config.deletion.grace_period_days ≤ 30)
        × (recovery_window config.deletion.grace_period_days
            ≡ min config.deletion.grace_period_days 30)
  unfolding recovery_window
  recovery_window-load_base config_dir config h =
      let sound = load_base-IsSound config_dir config h in
      (ground (arith, sound.shortest), ground arith, ground arith)
