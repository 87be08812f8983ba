-- ===== src/Snowflake/Pool/Leaks/Calls.antt =====
-- The calls of internal/snowflake/pool, one after another: the pool holds what is open.
use yukimi.Errors.{Result, ok, err}
use yukimi.Snowflake.Pool.Leaks.Operations.{
  IsTight, evict-IsTight, org_admin-IsTight, tenant-IsTight, close-IsTight,
}
use yukimi.Snowflake.Pool.Leaks.Keeps.{IsTidy}
use yukimi.Snowflake.Pool.Cache.{PoolState, pool_org_admin_db, pool_tenant_db, pool_evict_tenant}
use yukimi.Snowflake.Pool.Shutdown.{pool_close}
use yukimi.Snowflake.Pool.Backend.{PoolConfig, PoolBackend}
use yukimi.Account.ResourceData.{Db}
use yukimi.Effects.{Action}
use yukimi.Snowflake.Pool.Leaks.Handed.{held-open, HoldsResult, org_admin_held, tenant_held}
use yukimi.Base.{nat_beq, Str, ◌≡◌, refl, Bool, true, not, ◌&&◌, Option, none, some, List, [], ◌∷◌}

pub data PoolCall : Type 0 where
  org_admin : PoolCall
  tenant : Str → Str → Str → Str → PoolCall
  evict : Str → Str → PoolCall
  close : PoolCall

pub answered : Result Db → Option Db
answered (ok db) = some db
answered (err e) = none

-- What a call returned, if anything, is open.
pub answer_open : {W : Type 0} → (Db → W → Bool) → Option Db → W → Bool
answer_open is_open none w = true
answer_open is_open (some db) w = is_open db w

module _ {W : Type 0} (b : PoolBackend W) (cfg : PoolConfig)
    (close_db : Db → Action W (Unit {0})) where
  pub pool_step : PoolCall → PoolState W → PoolState W
  pool_step org_admin s = (pool_org_admin_db b cfg s).1
  pool_step (tenant namespace account_name locator region) s =
      (pool_tenant_db b cfg namespace account_name locator region s).1
  pool_step (evict namespace account_name) s = pool_evict_tenant b cfg namespace account_name s
  pool_step close s = (pool_close close_db s).1

  -- The connection that a call returns, if it returns one.
  pub pool_answer : PoolCall → PoolState W → Option Db
  pool_answer org_admin s = answered (pool_org_admin_db b cfg s).0
  pool_answer (tenant namespace account_name locator region) s =
      answered (pool_tenant_db b cfg namespace account_name locator region s).0
  pool_answer (evict namespace account_name) s = none
  pool_answer close s = none

  unfoldable pub pool_run : List PoolCall → PoolState W → PoolState W
  unfolding pool_step
  pool_run [] s = s
  pool_run (c ∷ cs) s = pool_run cs (pool_step c s)

  module _ (is_open : Db → W → Bool) (law : IsTidy b is_open)
      (closes : (db : Db) (w : W) (x : Db)
        → is_open x (close_db db w).1 ≡ (not (nat_beq x db) && is_open x w)) where
    step-IsTight :
        (c : PoolCall) (s : PoolState W) → IsTight is_open s → IsTight is_open (pool_step c s)
    unfolding pool_step
    step-IsTight org_admin s h = org_admin-IsTight b cfg is_open law s h
    step-IsTight (tenant namespace account_name locator region) s h =
        tenant-IsTight b cfg is_open law namespace account_name locator region s h
    step-IsTight (evict namespace account_name) s h =
        evict-IsTight b cfg is_open law namespace account_name s h
    step-IsTight close s h = close-IsTight is_open close_db closes s h

    pub run-IsTight :
        (cs : List PoolCall) (s : PoolState W) → IsTight is_open s → IsTight is_open (pool_run cs s)
    unfolding pool_run
    run-IsTight [] s h = h
    run-IsTight (c ∷ cs) s h = run-IsTight cs (pool_step c s) (step-IsTight c s h)

    result-open :
        (r : Result Db × PoolState W)
        → IsTight is_open r.1
        → HoldsResult r
        → answer_open is_open (answered r.0) r.1.world ≡ true
    unfolding answer_open answered
    result-open (ok db, s) h k = held-open is_open db s h (k db refl)
    result-open (err e, s) h k = refl

    answer-open :
        (c : PoolCall) (s : PoolState W)
        → IsTight is_open s
        → answer_open is_open (pool_answer c s) (pool_step c s).world ≡ true
    unfolding pool_answer pool_step answer_open
    answer-open org_admin s h =
        result-open (pool_org_admin_db b cfg s) (step-IsTight org_admin s h)
          (org_admin_held b cfg s)
    answer-open (tenant namespace account_name locator region) s h =
        result-open (pool_tenant_db b cfg namespace account_name locator region s)
          (step-IsTight (tenant namespace account_name locator region) s h)
          (tenant_held b cfg namespace account_name locator region s)
    answer-open (evict namespace account_name) s h = refl
    answer-open close s h = refl

    -- Whatever sequence of OrgAdminDB, TenantDB, EvictTenant and Close follows, with whatever
    -- failures on the way, a pool that holds exactly the connections that are open, each once, and
    -- has one entry for a key goes on to do so: no connection is left open outside the pool. And
    -- whatever call comes next, a connection that it returns is open when it returns.
    pub pool_run-IsTight :
        (cs : List PoolCall) (c : PoolCall) (s : PoolState W)
        → IsTight is_open s
        → IsTight is_open (pool_run cs s)
          × (answer_open is_open (pool_answer c (pool_run cs s)) (pool_step c (pool_run cs s)).world
              ≡ true)
    pool_run-IsTight cs c s h =
        (run-IsTight cs s h, answer-open c (pool_run cs s) (run-IsTight cs s h))
