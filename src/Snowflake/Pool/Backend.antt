-- ===== src/Snowflake/Pool/Backend.antt =====
-- internal/snowflake/pool: the configuration, and what the pool uses of its dial, the driver, the
-- key manager and the crypto libraries. A connection is a number, `W` the world outside.
use yukimi.Account.ResourceData.{Db}
use yukimi.Secrets.Identifier.{Identifier}
use yukimi.Secrets.Credentials.{Credentials}
use yukimi.Effects.{Action}
use yukimi.Base.{Str, ℕ, Bool, List}
use yukimi.Errors.{Result}

-- The fields of `base.Config` that the pool reads.
pub record PoolConfig : Type 0 where
  pub org : Str
  pub org_admin_account : Str
  pub org_admin_account_locator : Str
  pub org_admin_account_region : Str
  pub use_private_link : Bool
  pub disable_ocsp_checks : Bool
  pub rotation_interval : ℕ

-- `gosnowflake.Config`, as the pool fills it
pub record SnowflakeConfig (PrivateKey : Type 0) : Type 0 where
  pub account : Str
  pub host : Str
  pub user : Str
  pub private_key : PrivateKey
  pub role : Str
  pub disable_ocsp_checks : Bool

pub record PoolBackend (W : Type 0) : Type 1 where
  pub PrivateKey : Type 0
  -- `parsePrivateKey` and `publicKeyFingerprint`, of Snowflake/Pool/Connect
  pub parse_private_key : Str → Result PrivateKey
  pub public_key_fingerprint : PrivateKey → Str
  pub clock : W → ℕ
  pub get_credentials : Identifier → Action W Credentials
  pub update_credentials : Identifier → Credentials → Action W (Unit {0})
  pub new_credentials : Str → Action W Credentials
  -- `p.dial`, with the pool settings of the result
  pub dial : SnowflakeConfig PrivateKey → Action W Db
  pub close : Db → W → W
  -- the rows of a query, with the `String` of each column
  pub query_rows : Db → Str → Action W (List (List Str))
  pub exec_context : Db → Str → Action W (Unit {0})

-- `buildSnowflakeConfig`
unfoldable pub build_snowflake_config :
    {K : Type 0} → Str → Str → Str → K → Str → Bool → SnowflakeConfig K
build_snowflake_config account host user key role disable_ocsp_checks = record {
  account = account;
  host = host;
  user = user;
  private_key = key;
  role = role;
  disable_ocsp_checks = disable_ocsp_checks;
}
