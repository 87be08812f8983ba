-- ===== src/Snowflake/Pool/Connect/Assembly.antt =====
-- internal/snowflake/pool: what the pool is built on, put together from the driver, the crypto
-- libraries and the key manager.
use yukimi.Snowflake.Pool.Connect.Probe.{IsDriver, dial_tuned-opens_result}
use yukimi.Snowflake.Pool.Connect.{
  Driver, Crypto, PoolSettings, dial_tuned, parse_private_key, public_key_fingerprint,
}
use yukimi.Snowflake.Pool.Leaks.Keeps.{KeepsOpen, IsTidy}
use yukimi.Snowflake.Pool.Backend.{PoolBackend}
use yukimi.Secrets.Identifier.{Identifier}
use yukimi.Secrets.Credentials.{Credentials}
use yukimi.Account.ResourceData.{Db}
use yukimi.Effects.{Action}
use yukimi.Base.{Str, ℕ, Bool, List}

-- What the pool uses of the key manager, of queries and of the clock.
pub record Surroundings (W : Type 0) : Type 0 where
  pub clock : W → ℕ
  pub get_credentials : Identifier → Action W Credentials
  pub update_credentials : Identifier → Credentials → Action W (Unit {0})
  pub new_credentials : Str → Action W Credentials
  pub query_rows : Db → Str → Action W (List (List Str))
  pub exec_context : Db → Str → Action W (Unit {0})

module _ {W K : Type 0} (d : Driver W K) (c : Crypto K) (u : Surroundings W)
    (sf : PoolSettings) where
  -- `New`, with `defaultDial`. The error of closing a stale connection is dropped.
  abbrev pub pool_backend : PoolBackend W
  pool_backend = record {
    PrivateKey = K;
    parse_private_key = parse_private_key c;
    public_key_fingerprint = public_key_fingerprint c;
    clock = u.clock;
    get_credentials = u.get_credentials;
    update_credentials = u.update_credentials;
    new_credentials = u.new_credentials;
    dial = dial_tuned d sf;
    close = λ db w. (d.close_db db w).1;
    query_rows = u.query_rows;
    exec_context = u.exec_context;
  }

-- Nothing around the pool opens or closes a connection.
pub record IsCalm {W : Type 0} (u : Surroundings W) (is_open : Db → W → Bool) : Type 0 where
  pub reads : (id : Identifier) → KeepsOpen is_open (u.get_credentials id)
  pub updates : (id : Identifier) (c : Credentials) → KeepsOpen is_open (u.update_credentials id c)
  pub generates : (username : Str) → KeepsOpen is_open (u.new_credentials username)
  pub queries : (db : Db) (sql : Str) → KeepsOpen is_open (u.query_rows db sql)
  pub executes : (db : Db) (sql : Str) → KeepsOpen is_open (u.exec_context db sql)

module _ {W K : Type 0} (d : Driver W K) (c : Crypto K) (u : Surroundings W) (sf : PoolSettings)
    (is_open : Db → W → Bool) where
  -- A driver that opens and closes what it says makes a pool's backend that does.
  pub pool_backend-IsTidy :
      IsDriver d is_open → IsCalm u is_open → IsTidy (pool_backend d c u sf) is_open
  pool_backend-IsTidy law calm = record {
    reads = calm.reads;
    updates = calm.updates;
    generates = calm.generates;
    queries = calm.queries;
    executes = calm.executes;
    dials = λ cfg. record {
      fresh = λ w. (dial_tuned-opens_result d is_open law sf cfg w 0).0;
      opened = λ x w. (dial_tuned-opens_result d is_open law sf cfg w x).1;
    };
    closes = law.closes;
  }
