-- ===== src/Config/Base/Settings.antt =====
-- The records of internal/config/base/base.go: the settings, and the targets of the YAML decoder.
use yukimi.Base.{Str, ℕ, Bool, Option, none, []}
use yukimi.Config.Base.Resolve.{ℤ}

-- `SnowflakeSettings`; durations are nanoseconds.
pub record SnowflakeSettings : Type 0 where
  pub org : Str
  pub org_admin_account : Str
  pub org_admin_account_locator : Str
  pub org_admin_account_region : Str
  pub use_private_link : Bool
  pub disable_ocsp_checks : Bool
  pub max_connection_pool_size : ℕ
  pub max_idle_connections : ℕ
  pub connection_max_lifetime : ℕ
  pub connection_max_idle_time : ℕ
  pub connection_probe_timeout : ℕ
  pub account_creation_grace_period : ℕ

pub record SecretsSettings : Type 0 where
  pub cache_ttl : ℕ
  pub rotation_interval : ℕ

pub record DeletionSettings : Type 0 where
  pub grace_period_days : ℕ
  pub protection : Bool

pub record AwsSettings : Type 0 where
  pub region : Str
  pub kms_key_id : Str

-- `Config`; `CloudProvider` reads its last field.
pub record BaseConfig : Type 0 where
  pub snowflake : SnowflakeSettings
  pub aws : AwsSettings
  pub secrets : SecretsSettings
  pub deletion : DeletionSettings
  pub cloud_provider : Str

pub record RawSnowflake : Type 0 where
  pub org : Str
  pub org_admin_account : Str
  pub org_admin_account_locator : Str
  pub org_admin_account_region : Str
  pub use_private_link : Option Bool
  pub disable_ocsp_checks : Option Bool
  pub max_connection_pool_size : Option ℤ
  pub max_idle_connections : Option ℤ
  pub connection_max_lifetime : Str
  pub connection_max_idle_time : Str
  pub connection_probe_timeout : Str
  pub account_creation_grace_period : Str

pub record RawAws : Type 0 where
  pub region : Str
  pub kms_key_id : Str

pub record RawSecrets : Type 0 where
  pub cache_ttl : Str
  pub rotation_interval : Str

pub record RawDeletion : Type 0 where
  pub grace_period_days : Option ℤ
  pub protection : Option Bool

pub record RawConfig : Type 0 where
  pub snowflake : RawSnowflake
  pub aws : RawAws
  pub secrets : RawSecrets
  pub deletion : RawDeletion

-- `var raw rawConfig`
zero_snowflake : RawSnowflake
zero_snowflake = record {
  org = [];
  org_admin_account = [];
  org_admin_account_locator = [];
  org_admin_account_region = [];
  use_private_link = none;
  disable_ocsp_checks = none;
  max_connection_pool_size = none;
  max_idle_connections = none;
  connection_max_lifetime = [];
  connection_max_idle_time = [];
  connection_probe_timeout = [];
  account_creation_grace_period = [];
}

unfoldable pub zero_config : RawConfig
unfolding zero_snowflake
zero_config = record {
  snowflake = zero_snowflake;
  aws = record { region = []; kms_key_id = [] };
  secrets = record { cache_ttl = []; rotation_interval = [] };
  deletion = record { grace_period_days = none; protection = none };
}
