-- ===== src/Snowflake/Pool/Connect.antt =====
-- internal/snowflake/pool/connect.go and `applyPoolSettings`: a connection from its configuration.
-- database/sql, the driver, encoding/pem and the crypto libraries are parameters.
pub mod Probe
pub mod Keys
pub mod Assembly
use yukimi.Snowflake.Pool.Backend.{SnowflakeConfig}
use yukimi.Account.ResourceData.{Db}
use yukimi.Effects.{Action}
use yukimi.Errors.{Error, plain, Result, ok, err, wrap}
use yukimi.Base.{Str, text, ℕ, Option, none, some, [], ◌++◌}

-- What the pool uses of `*sql.DB`.
pub record Driver (W K : Type 0) : Type 0 where
  -- `sql.OpenDB(gosnowflake.NewConnector(...))`
  pub open_db : SnowflakeConfig K → W → Db × W
  -- `db.PingContext` under a timeout
  pub ping : Db → ℕ → Action W (Unit {0})
  pub close_db : Db → Action W (Unit {0})
  pub set_max_open_conns : Db → ℕ → W → W
  pub set_max_idle_conns : Db → ℕ → W → W
  pub set_conn_max_lifetime : Db → ℕ → W → W
  pub set_conn_max_idle_time : Db → ℕ → W → W

-- The crypto libraries, on RSA keys of type `K`.
pub record Crypto (K : Type 0) : Type 1 where
  pub AnyKey : Type 0
  -- the bytes of the first block of `pem.Decode`
  pub pem_decode : Str → Option Str
  pub parse_pkcs8 : Str → Result AnyKey
  -- `key.(*rsa.PrivateKey)`
  pub rsa_key : AnyKey → Option K
  -- `x509.MarshalPKIXPublicKey` of the public half
  pub marshal_public : K → Result Str
  pub sha256 : Str → Str
  pub base64 : Str → Str

-- The pool's tuning of a connection, fields of `base.Config`.
pub record PoolSettings : Type 0 where
  pub max_connection_pool_size : ℕ
  pub max_idle_connections : ℕ
  pub connection_max_lifetime : ℕ
  pub connection_max_idle_time : ℕ
  pub connection_probe_timeout : ℕ

pub record DialConfig (K : Type 0) : Type 0 where
  pub snowflake : SnowflakeConfig K
  pub probe_timeout : ℕ

module _ {W K : Type 0} (d : Driver W K) where
  after_ping : Db → Result (Unit {0}) × W → Result Db × W
  after_ping db (ok t, w) = (ok db, w)
  after_ping db (err e, w) = (err e, (d.close_db db w).1)

  -- `defaultDial`
  unfoldable pub default_dial : DialConfig K → Action W Db
  unfolding after_ping
  default_dial dc w =
      let (db, w') = d.open_db dc.snowflake w in after_ping db (d.ping db dc.probe_timeout w')

  -- `applyPoolSettings`
  unfoldable pub apply_pool_settings : PoolSettings → Db → W → W
  apply_pool_settings sf db w = d.set_conn_max_idle_time db sf.connection_max_idle_time (
      d.set_conn_max_lifetime db sf.connection_max_lifetime (
        d.set_max_idle_conns db sf.max_idle_connections
          (d.set_max_open_conns db sf.max_connection_pool_size w)))

  tuned : PoolSettings → Result Db × W → Result Db × W
  unfolding apply_pool_settings
  tuned sf (ok db, w) = (ok db, apply_pool_settings sf db w)
  tuned sf (err e, w) = (err e, w)

  -- The dial of `OrgAdminDB` and `TenantDB`, with the settings of its result.
  unfoldable pub dial_tuned : PoolSettings → SnowflakeConfig K → Action W Db
  unfolding default_dial tuned
  dial_tuned sf cfg w =
      tuned sf
        (default_dial (record { snowflake = cfg; probe_timeout = sf.connection_probe_timeout }) w)

pub no_block : Error
no_block = plain (text "no PEM block found")

pub not_rsa : Error
not_rsa = plain (text "private key is not an RSA key")

module _ {K : Type 0} (c : Crypto K) where
  as_rsa : Option K → Result K
  as_rsa none = err not_rsa
  as_rsa (some key) = ok key

  rsa_only : Result c.AnyKey → Result K
  unfolding as_rsa
  rsa_only (ok key) = as_rsa (c.rsa_key key)
  rsa_only (err e) = err (wrap (text "failed to parse PKCS#8 private key: ") e)

  parse_block : Option Str → Result K
  unfolding rsa_only
  parse_block none = err no_block
  parse_block (some block) = rsa_only (c.parse_pkcs8 block)

  -- `parsePrivateKey`
  unfoldable pub parse_private_key : Str → Result K
  unfolding parse_block
  parse_private_key pem = parse_block (c.pem_decode pem)

  fingerprint_of : Result Str → Str
  fingerprint_of (err e) = []
  fingerprint_of (ok der) = text "SHA256:" ++ c.base64 (c.sha256 der)

  -- `publicKeyFingerprint`
  unfoldable pub public_key_fingerprint : K → Str
  unfolding fingerprint_of
  public_key_fingerprint key = fingerprint_of (c.marshal_public key)
