-- ===== src/Tests/Drivers.antt =====
-- A driver that numbers its connections, and a provider that runs on it.
use yukimi.Snowflake.Pool.Locks.{fetch, evict, new_shared}
use yukimi.Snowflake.Pool.Locks.Alone.{Mirrors, Carries, calls_refine}
use yukimi.Snowflake.Pool.Connect.Keys.{IsPaired, generate_key_pair-parse_private_key}
use yukimi.Secrets.KeyPair.{KeyCrypto, generate_key_pair}
use yukimi.Secrets.Identifier.{
  is_valid_segment, to_secret_safe, Identifier, new_tenant_identifier, new_org_admin_identifier,
}
use yukimi.Snowflake.Host.{region_segment, hostname}
use yukimi.Snowflake.Pool.Leaks.Operations.{IsTight}
use yukimi.Snowflake.Pool.Cache.{
  TenantKey, PoolState, tenant_key, connect, pool_org_admin_db, pool_tenant_db, pool_evict_tenant,
}
use yukimi.Snowflake.Pool.Leaks.Calls.{
  PoolCall, answer_open, pool_step, pool_answer, pool_run, pool_run-IsTight,
}
use yukimi.Snowflake.Pool.Leaks.{entries_hold}
use yukimi.Provider.Serve.Shut.{serve_returned}
use yukimi.Provider.Serve.{setup_gated, pool_config, returned, Run, serve}
use yukimi.Tests.Configs.{loaded_base}
use yukimi.Snowflake.Pool.Leaks.Keeps.{IsTidy}
use yukimi.Snowflake.Pool.Connect.{
  Driver, Crypto, PoolSettings, default_dial, dial_tuned, parse_private_key, public_key_fingerprint,
}
use yukimi.Snowflake.Pool.Connect.Probe.{
  IsDriver, opens_result, is_fresh_result, dial_tuned-opens_result,
}
use yukimi.Snowflake.Pool.Connect.Assembly.{Surroundings, pool_backend, IsCalm, pool_backend-IsTidy}
use yukimi.Snowflake.Pool.Backend.{PoolConfig, SnowflakeConfig, PoolBackend}
use yukimi.Secrets.Credentials.{Credentials}
use yukimi.Account.ResourceData.{Db}
use yukimi.Effects.{Action}
use yukimi.Errors.{Error, plain, ok, err}
use yukimi.Base.{
  ltb, nat_beq, if◌then◌else◌, Str, text, str_beq, is_letter, is_digit, ℕ, suc, ◌≡◌, refl, sym,
  Bool, true, false, not, ◌&&◌, none, some, List, [], ◌∷◌, ◌++◌, arith,
}

-- The connections below `next` that were not closed are open.
record Wire : Type 0 where
  next : Db
  left : Db → Bool

abbrev wire_open : Db → Wire → Bool
wire_open x w = ltb x w.next && w.left x

abbrev flagged : Db → Bool → (Db → Bool) → Db → Bool
flagged db v f x = if nat_beq x db then v else f x

-- A probe with no time fails.
abbrev wire_ping : Db → ℕ → Action Wire (Unit {0})
wire_ping db t w = (if nat_beq t 0 then err (plain []) else ok tt, w)

abbrev wire : Driver Wire Str
wire = record {
  open_db = λ cfg w. (w.next, record { next = suc w.next; left = flagged w.next true w.left });
  ping = wire_ping;
  close_db = λ db w. (ok tt, record w { left = flagged db false w.left });
  set_max_open_conns = λ db n w. w;
  set_max_idle_conns = λ db n w. w;
  set_conn_max_lifetime = λ db n w. w;
  set_conn_max_idle_time = λ db n w. w;
}

wire_law : IsDriver wire wire_open
wire_law = record {
  opens_fresh = λ cfg w. ground arith;
  opens = λ cfg w x. ground arith;
  pings = λ db t w x. refl;
  closes = λ db w x. ground arith;
  sets_open = λ db n w x. refl;
  sets_idle = λ db n w x. refl;
  sets_lifetime = λ db n w x. refl;
  sets_idle_time = λ db n w x. refl;
}

abbrev toy_crypto : Crypto Str
toy_crypto = record {
  AnyKey = Str;
  pem_decode = λ s. some s;
  parse_pkcs8 = λ s. ok s;
  rsa_key = λ s. some s;
  marshal_public = λ s. ok s;
  sha256 = λ s. s;
  base64 = λ s. s;
}

abbrev small_credentials : Credentials
small_credentials = record { username = []; private_key = []; public_key = []; rotated_at = 0 }

abbrev calm : Surroundings Wire
calm = record {
  clock = λ w. 0;
  get_credentials = λ id w. (ok small_credentials, w);
  update_credentials = λ id c w. (ok tt, w);
  new_credentials = λ username w. (ok small_credentials, w);
  query_rows = λ db sql w. (ok [], w);
  exec_context = λ db sql w. (ok tt, w);
}

calm_law : IsCalm calm wire_open
calm_law = record {
  reads = λ id. record { at = λ x w. refl };
  updates = λ id c. record { at = λ x w. refl };
  generates = λ username. record { at = λ x w. refl };
  queries = λ db sql. record { at = λ x w. refl };
  executes = λ db sql. record { at = λ x w. refl };
}

abbrev settings : PoolSettings
settings = record {
  max_connection_pool_size = 4;
  max_idle_connections = 2;
  connection_max_lifetime = 9;
  connection_max_idle_time = 9;
  connection_probe_timeout = 5;
}

abbrev unplugged : Wire
unplugged = record { next = 0; left = λ x. false }

abbrev any_config : SnowflakeConfig Str
any_config = record {
  account = [];
  host = [];
  user = [];
  private_key = [];
  role = [];
  disable_ocsp_checks = false;
}

dial_tuned-opens_result_example :
    (is_fresh_result wire_open (dial_tuned wire settings any_config unplugged).0 unplugged ≡ true)
    × (wire_open 0 (dial_tuned wire settings any_config unplugged).1
        ≡ opens_result wire_open (dial_tuned wire settings any_config unplugged).0 0 unplugged)
dial_tuned-opens_result_example =
    dial_tuned-opens_result wire wire_open wire_law settings any_config unplugged 0

abbrev wire_backend : PoolBackend Wire
wire_backend = pool_backend wire toy_crypto calm settings

wire-IsTidy : IsTidy wire_backend wire_open
wire-IsTidy = pool_backend-IsTidy wire toy_crypto calm settings wire_open wire_law calm_law

wire_closes :
    (db : Db) (w : Wire) (x : Db)
    → wire_open x (wire.close_db db w).1 ≡ (not (nat_beq x db) && wire_open x w)
wire_closes db w x = ground arith

abbrev from_new_pool : PoolState Wire
from_new_pool = record { org_admin_db = none; entries = []; world = unplugged }

from_new_pool-IsTight : IsTight wire_open from_new_pool
unfolding entries_hold
from_new_pool-IsTight = record { keyed = tt; exact = λ x. ground arith }

abbrev some_calls : List PoolCall
some_calls =
    PoolCall.org_admin
    ∷ PoolCall.tenant (b't' ∷ []) (b's' ∷ []) (b'l' ∷ []) (text "aws-eu-west-1")
    ∷ PoolCall.evict (b't' ∷ []) (b's' ∷ [])
    ∷ []

abbrev driver_config : PoolConfig
driver_config = pool_config loaded_base

abbrev some_call : PoolCall
some_call = PoolCall.tenant (b't' ∷ []) (b's' ∷ []) (b'l' ∷ []) (text "aws-eu-west-1")

abbrev after_calls : PoolState Wire
after_calls = pool_run wire_backend driver_config wire.close_db some_calls from_new_pool

pool_run-IsTight_example :
    IsTight wire_open (pool_run wire_backend driver_config wire.close_db some_calls from_new_pool)
    × (answer_open wire_open
          (pool_answer wire_backend driver_config wire.close_db some_call after_calls)
          (pool_step wire_backend driver_config wire.close_db some_call after_calls).world
        ≡ true)
pool_run-IsTight_example =
    pool_run-IsTight wire_backend driver_config wire.close_db wire_open wire-IsTidy wire_closes
      some_calls some_call from_new_pool from_new_pool-IsTight

abbrev one_run : Run
one_run = record { crd_gate = ok tt; calls = some_calls; start = ok tt }

abbrev quiet_log : List Error → Wire → Wire
quiet_log es w = w

served : (serve wire_backend wire.close_db quiet_log loaded_base one_run unplugged).0 ≡ returned
unfolding serve pool_org_admin_db connect new_org_admin_identifier hostname region_segment
    is_valid_segment is_letter is_digit to_secret_safe text str_beq dial_tuned default_dial
    parse_private_key setup_gated
served = refl

serve_returned_example :
    wire_open 0 (serve wire_backend wire.close_db quiet_log loaded_base one_run unplugged).1.world
    ≡ false
serve_returned_example =
    serve_returned wire_backend wire.close_db quiet_log wire_open wire-IsTidy wire_closes
      (λ es w x. refl) loaded_base one_run unplugged 0 (λ y. ground arith) served

abbrev toy_keys : KeyCrypto ℕ Str
toy_keys = record {
  generate_key = λ bits n. (ok (n ∷ []), suc n);
  marshal_public = λ key. ok key;
  marshal_pkcs8 = λ key. ok key;
  base64 = λ s. s;
  pem_encode = λ kind der. der;
}

toy_law : IsPaired toy_keys toy_crypto
toy_law = record {
  reads_block = λ kind der. refl;
  reads_key = λ key der h. (key, sym h, refl);
  same_public = λ key. refl;
}

first_pair : (generate_key_pair toy_keys 4).0 ≡ ok (4 ∷ [], 4 ∷ [])
unfolding generate_key_pair
first_pair = refl

generate_key_pair-parse_private_key_example :
    (key : Str) × (der : Str) × (parse_private_key toy_crypto (4 ∷ []) ≡ ok key)
    × (4 ∷ [] ≡ der)
    × (public_key_fingerprint toy_crypto key ≡ text "SHA256:" ++ der)
generate_key_pair-parse_private_key_example =
    generate_key_pair-parse_private_key toy_keys toy_crypto toy_law 4 (4 ∷ []) (4 ∷ []) first_pair

-- Before the first call, the shared fields are those of a new pool.
new_pool-Mirrors : Mirrors wire_open new_shared from_new_pool
new_pool-Mirrors = record { same_entries = refl; same_open = λ x. ground arith }

small_identifier :
    (id : Identifier) × (new_tenant_identifier driver_config.org (b't' ∷ []) (b's' ∷ []) ≡ ok id)
unfolding pool_config new_tenant_identifier is_valid_segment is_letter is_digit to_secret_safe text
    str_beq
small_identifier = (_, refl)

abbrev small_key : TenantKey
small_key = tenant_key (b't' ∷ []) (b's' ∷ [])

calls_refine_example :
    Carries wire_open 2 small_key
      (fetch (b'l' ∷ []) (text "aws-eu-west-1"))
      new_shared
      (pool_tenant_db wire_backend driver_config
        (b't' ∷ [])
        (b's' ∷ [])
        (b'l' ∷ [])
        (text "aws-eu-west-1")
        from_new_pool).1
    × Carries wire_open 2 small_key evict new_shared
        (pool_evict_tenant wire_backend driver_config (b't' ∷ []) (b's' ∷ []) from_new_pool)
calls_refine_example =
    calls_refine wire_backend driver_config wire_open wire-IsTidy (b't' ∷ []) (b's' ∷ [])
      (b'l' ∷ []) (text "aws-eu-west-1") small_identifier.0 2 new_shared from_new_pool
      small_identifier.1 refl new_pool-Mirrors
