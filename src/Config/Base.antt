-- ===== src/Config/Base.antt =====
-- `Load` of internal/config/base/base.go. Reading the file, the YAML decoder and
-- `time.ParseDuration` are parameters.
pub mod Patterns
pub mod Resolve
pub mod Document
pub mod Settings
pub mod Shape
pub mod Bounds
pub mod Valid
pub mod Region
pub mod Protection
use yukimi.Base.{
  if◌then◌else◌, Str, text, ℕ, ◌*◌, String, Bool, true, false, Option, none, some, List, ◌++◌,
}
use yukimi.Errors.{Error, Result, ok, err, wrap, new_user_error, message}
use yukimi.Results.{◌>>=◌, ◌>>◌}
use yukimi.Config.Files.{FileRead, content, not_exist, unreadable}
use yukimi.Config.Base.Resolve.{
  ℤ, resolve_positive_int, resolve_non_negative_int, resolve_int_in_range,
  resolve_positive_duration,
}
use yukimi.Config.Base.Document.{Node, has_document, detect_cloud_sections}
use yukimi.Config.Base.Settings.{
  SnowflakeSettings, SecretsSettings, DeletionSettings, BaseConfig, RawSnowflake, RawSecrets,
  RawDeletion, RawConfig, zero_config,
}
use yukimi.Config.Base.Shape.{one_section, check_snowflake, check_aws}

-- The defaults and bounds; a minute is 60 000 000 000 nanoseconds.
abbrev pub default_max_connection_pool_size : ℕ
default_max_connection_pool_size = 10

abbrev pub default_max_idle_connections : ℕ
default_max_idle_connections = 2

abbrev pub second : ℕ
second = 1000000000

abbrev pub minute : ℕ
minute = 60 * second

abbrev pub default_connection_max_lifetime : ℕ
default_connection_max_lifetime = 30 * minute

abbrev pub default_connection_max_idle_time : ℕ
default_connection_max_idle_time = 5 * minute

abbrev pub default_connection_probe_timeout : ℕ
default_connection_probe_timeout = 10 * second

abbrev pub default_account_creation_grace_period : ℕ
default_account_creation_grace_period = 5 * minute

abbrev pub default_secrets_cache_ttl : ℕ
default_secrets_cache_ttl = 5 * minute

abbrev pub default_rotation_interval : ℕ
default_rotation_interval = 4320 * 60 * minute

abbrev pub default_deletion_grace_period_days : ℕ
default_deletion_grace_period_days = 30

abbrev pub min_deletion_grace_period_days : ℕ
min_deletion_grace_period_days = 7

abbrev pub max_deletion_grace_period_days : ℕ
max_deletion_grace_period_days = 90

abbrev or_default : Bool → Option Bool → Bool
or_default d none = d
or_default d (some b) = b

module _ (parse_duration : Str → Option ℤ) where
  duration : String → Str → ℕ → Result ℕ
  duration field raw default = resolve_positive_duration parse_duration (text field) raw default

  unfoldable pub snowflake_settings : RawSnowflake → Result SnowflakeSettings
  unfolding duration
  snowflake_settings raw = do
    pool_size ←
        resolve_positive_int (text "snowflake.maxConnectionPoolSize") raw.max_connection_pool_size
          default_max_connection_pool_size
    idle_connections ←
        resolve_non_negative_int (text "snowflake.maxIdleConnections") raw.max_idle_connections
          default_max_idle_connections
    lifetime ←
        duration "snowflake.connectionMaxLifetime" raw.connection_max_lifetime
          default_connection_max_lifetime
    idle_time ←
        duration "snowflake.connectionMaxIdleTime" raw.connection_max_idle_time
          default_connection_max_idle_time
    probe_timeout ←
        duration "snowflake.connectionProbeTimeout" raw.connection_probe_timeout
          default_connection_probe_timeout
    creation_grace_period ←
        duration "snowflake.accountCreationGracePeriod" raw.account_creation_grace_period
          default_account_creation_grace_period
    ok (record {
      org = raw.org;
      org_admin_account = raw.org_admin_account;
      org_admin_account_locator = raw.org_admin_account_locator;
      org_admin_account_region = raw.org_admin_account_region;
      use_private_link = or_default true raw.use_private_link;
      disable_ocsp_checks = or_default false raw.disable_ocsp_checks;
      max_connection_pool_size = pool_size;
      max_idle_connections = idle_connections;
      connection_max_lifetime = lifetime;
      connection_max_idle_time = idle_time;
      connection_probe_timeout = probe_timeout;
      account_creation_grace_period = creation_grace_period;
    })

  unfoldable pub secrets_settings : RawSecrets → Result SecretsSettings
  unfolding duration
  secrets_settings raw = do
    ttl ← duration "secrets.cacheTtl" raw.cache_ttl default_secrets_cache_ttl
    interval ← duration "secrets.rotationInterval" raw.rotation_interval default_rotation_interval
    ok (record { cache_ttl = ttl; rotation_interval = interval })

unfoldable pub deletion_settings : RawDeletion → Result DeletionSettings
deletion_settings raw = do
  days ←
      resolve_int_in_range (text "deletion.gracePeriodDays") raw.grace_period_days
        default_deletion_grace_period_days min_deletion_grace_period_days
        max_deletion_grace_period_days
  ok (record { grace_period_days = days; protection = or_default true raw.protection })

not_found : Str → Error
not_found config_dir = new_user_error (text "base.yaml not found in " ++ config_dir)

file_content : Str → FileRead → Result Str
unfolding not_found
file_content config_dir (content bytes) = ok bytes
file_content config_dir not_exist = err (not_found config_dir)
file_content config_dir (unreadable e) = err (wrap (text "reading base.yaml: ") e)

-- `fmt.Sprintf("failed to parse base.yaml: %v", err)`
unparsed : {A : Type 0} → Result A → Result A
unparsed (ok a) = ok a
unparsed (err e) = err (new_user_error (text "failed to parse base.yaml: " ++ message e))

raw_config : (Node → Result RawConfig) → Node → Result RawConfig
unfolding zero_config has_document unparsed
raw_config decode root = if has_document root then unparsed (decode root) else ok zero_config

-- What `Load` makes of the decoded file.
module _ (parse_duration : Str → Option ℤ) where
  unfoldable pub validated : List Str → RawConfig → Result BaseConfig
  validated sections raw = do
    cloud_provider ← one_section sections
    check_snowflake raw.snowflake
    check_aws raw.aws
    snowflake ← snowflake_settings parse_duration raw.snowflake
    secrets ← secrets_settings parse_duration raw.secrets
    deletion ← deletion_settings raw.deletion
    ok (record {
      snowflake = snowflake;
      aws = record { region = raw.aws.region; kms_key_id = raw.aws.kms_key_id };
      secrets = secrets;
      deletion = deletion;
      cloud_provider = cloud_provider;
    })

module _ (read_file : Str → Str → FileRead) (unmarshal : Str → Result Node)
    (decode : Node → Result RawConfig) (parse_duration : Str → Option ℤ) where
  -- `Load`
  unfoldable pub load_base : Str → Result BaseConfig
  unfolding file_content unparsed raw_config detect_cloud_sections validated
  load_base config_dir = do
    bytes ← file_content config_dir (read_file config_dir (text "base.yaml"))
    root ← unparsed (unmarshal bytes)
    raw ← raw_config decode root
    validated parse_duration (detect_cloud_sections root) raw
