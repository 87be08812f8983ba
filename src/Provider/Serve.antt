-- ===== src/Provider/Serve.antt =====
-- cmd/provider/main.go, from the pool to the end of the manager, and internal/controller/yukimi.go.
-- What the manager does while it runs is, for the pool, a sequence of calls: a parameter, with the
-- errors of the libraries.
pub mod Shut
use yukimi.Provider.{Fatal, fatal_error}
use yukimi.Snowflake.Pool.Leaks.Calls.{PoolCall, pool_run}
use yukimi.Snowflake.Pool.Shutdown.{pool_close}
use yukimi.Snowflake.Pool.Cache.{PoolState, pool_org_admin_db}
use yukimi.Snowflake.Pool.Connect.{PoolSettings}
use yukimi.Snowflake.Pool.Backend.{PoolConfig, PoolBackend}
use yukimi.Config.Base.Settings.{BaseConfig}
use yukimi.Account.ResourceData.{Db}
use yukimi.Effects.{Action}
use yukimi.Errors.{Error, Result, ok, err}
use yukimi.Base.{Str, text, none, List, [], ◌∷◌}

-- The kinds whose controllers wait for their definition to be served: `o.Gate.Register`
abbrev pub Gate : Type 0
Gate = List Str

-- `deletionpermit.SetupGated`
pub permit_setup_gated : Gate → Result (Unit {0}) × Gate
permit_setup_gated gate = (ok tt, text "DeletionPermit" ∷ gate)

-- `snowflakeaccount.SetupGated`
pub account_setup_gated : Gate → Result (Unit {0}) × Gate
account_setup_gated gate = (ok tt, text "SnowflakeAccount" ∷ gate)

then_account : Result (Unit {0}) × Gate → Result (Unit {0}) × Gate
unfolding account_setup_gated
then_account (err e, gate) = (err e, gate)
then_account (ok t, gate) = account_setup_gated gate

-- `controller.SetupGated`
unfoldable pub setup_gated : Gate → Result (Unit {0}) × Gate
unfolding then_account permit_setup_gated
setup_gated gate = then_account (permit_setup_gated gate)

-- The configuration of `pool.New` and of its connections.
unfoldable pub pool_config : BaseConfig → PoolConfig
pool_config cfg = record {
  org = cfg.snowflake.org;
  org_admin_account = cfg.snowflake.org_admin_account;
  org_admin_account_locator = cfg.snowflake.org_admin_account_locator;
  org_admin_account_region = cfg.snowflake.org_admin_account_region;
  use_private_link = cfg.snowflake.use_private_link;
  disable_ocsp_checks = cfg.snowflake.disable_ocsp_checks;
  rotation_interval = cfg.secrets.rotation_interval;
}

pub pool_settings : BaseConfig → PoolSettings
pool_settings cfg = record {
  max_connection_pool_size = cfg.snowflake.max_connection_pool_size;
  max_idle_connections = cfg.snowflake.max_idle_connections;
  connection_max_lifetime = cfg.snowflake.connection_max_lifetime;
  connection_max_idle_time = cfg.snowflake.connection_max_idle_time;
  connection_probe_timeout = cfg.snowflake.connection_probe_timeout;
}

-- `pool.New`
pub new_pool : {W : Type 0} → W → PoolState W
new_pool w = record { org_admin_db = none; entries = []; world = w }

-- How `main` ends. After a `FatalIfError` the process exits, and no deferred call runs.
pub data Exit : Type 0 where
  returned : Exit
  exited : Fatal → Exit

-- What the libraries answer: the gate's own controller, the manager's run.
pub record Run : Type 0 where
  pub crd_gate : Result (Unit {0})
  pub calls : List PoolCall
  pub start : Result (Unit {0})

module _ {W : Type 0} (b : PoolBackend W) (close_db : Db → Action W (Unit {0}))
    (log_failures : List Error → W → W) where
  logged : List Error × PoolState W → PoolState W
  logged ([], s) = s
  logged (e ∷ es, s) = record s { world = log_failures (e ∷ es) s.world }

  -- The deferred `p.Close()`, with its log line.
  close_logged : PoolState W → PoolState W
  unfolding pool_close logged
  close_logged s = logged (pool_close close_db s)

  after_start : Result (Unit {0}) → PoolState W → Exit × PoolState W
  unfolding close_logged
  after_start (err e) s = (exited (fatal_error e (text "Cannot start controller manager")), s)
  after_start (ok t) s = (returned, close_logged s)

  after_setup : PoolConfig → Run → Result (Unit {0}) → PoolState W → Exit × PoolState W
  unfolding after_start pool_run
  after_setup cfg run (err e) s =
      (exited (fatal_error e (text "Cannot setup Yukimi controllers")), s)
  after_setup cfg run (ok t) s = after_start run.start (pool_run b cfg close_db run.calls s)

  after_gate : PoolConfig → Run → Result (Unit {0}) → PoolState W → Exit × PoolState W
  unfolding after_setup setup_gated
  after_gate cfg run (err e) s =
      (exited (fatal_error e (text "Cannot setup CRD gate controller")), s)
  after_gate cfg run (ok t) s = after_setup cfg run (setup_gated []).0 s

  after_org_admin : PoolConfig → Run → Result Db × PoolState W → Exit × PoolState W
  unfolding after_gate
  after_org_admin cfg run (err e, s) =
      (exited (fatal_error e (text "failed to establish org-admin Snowflake connection")), s)
  after_org_admin cfg run (ok db, s) = after_gate cfg run run.crd_gate s

  -- `main`, from `pool.New` to its end
  unfoldable pub serve : BaseConfig → Run → W → Exit × PoolState W
  unfolding after_org_admin pool_config new_pool
  serve cfg run w =
      after_org_admin (pool_config cfg) run (pool_org_admin_db b (pool_config cfg) (new_pool w))
