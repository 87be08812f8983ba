-- ===== src/Account/ResourceData.antt =====
-- internal/account/pipeline/resourcedata.go: the run-scoped handle that the modules of a pipeline
-- act on. A connection is known by a number, as a Go pointer is by its address. `W` is the world
-- outside the run.
use yukimi.Errors.{Error, plain, ok, err}
use yukimi.Base.{if◌then◌else◌, Str, text, is_empty, Dict, ℕ, Option, none, some, ◌++◌}
use yukimi.Logger.{Logger}
use yukimi.Effects.{Action, ◌>>=◌}
use yukimi.Apis.Crossplane.{Crossplane}
use yukimi.Apis.SnowflakeAccount.{SnowflakeAccountStatus, SnowflakeAccount}

abbrev pub Db : Type 0
Db = ℕ

-- `DBPool`
pub record DbPool (W : Type 0) : Type 0 where
  pub org_admin_db : Action W Db
  pub tenant_db : Str → Str → Str → Str → Action W Db
  pub evict_tenant : Str → Str → W → W

pub record ResourceData (xp : Crossplane) (W : Type 0) : Type 0 where
  pub cr : SnowflakeAccount xp
  pub namespace : Str
  pub resolved_name : Str
  pub namespace_labels : Dict Str Str
  pub log : Logger
  pub tenant_db : Option Db
  pub world : W

pub locator_unknown : Str → Str → Error
locator_unknown namespace name = plain (
    text "cannot resolve tenant connection: account locator is not yet known for "
    ++ namespace
    ++ text "/"
    ++ name)

module _ {xp : Crossplane} {W : Type 0} where
  -- The status is a part of the CR, and the CR of the handle.
  abbrev pub with_status :
      (SnowflakeAccountStatus xp → SnowflakeAccountStatus xp)
      → ResourceData xp W
      → ResourceData xp W
  with_status f d = record d { cr = record d.cr { status = f d.cr.status } }

  unfoldable pub on_world : {A : Type 0} → Action W A → Action (ResourceData xp W) A
  on_world act d = let (r, w) = act d.world in (r, record d { world = w })

  -- `NewResourceData`, with the name already resolved
  abbrev pub new_resource_data :
      (Str → Str → Str) → SnowflakeAccount xp → Dict Str Str → Logger → W → ResourceData xp W
  new_resource_data resolve cr labels log w = record {
    cr = cr;
    namespace = cr.namespace;
    resolved_name = resolve cr.name cr.namespace;
    namespace_labels = labels;
    log = log;
    tenant_db = none;
    world = w;
  }

  module _ (pool : DbPool W) where
    -- `ResourceData.OrgAdminDB`
    unfoldable pub data_org_admin_db : Action (ResourceData xp W) Db
    unfolding on_world
    data_org_admin_db = on_world pool.org_admin_db

    abbrev remember_db : Db → Action (ResourceData xp W) Db
    remember_db db d = (ok db, record d { tenant_db = some db })

    connect : Action (ResourceData xp W) Db
    unfolding on_world
    connect d =
        (on_world
              (pool.tenant_db d.namespace d.cr.name d.cr.status.account_locator d.cr.spec.region)
            >>= remember_db)
          d

    tenant_or_connect : Option Db → Action (ResourceData xp W) Db
    unfolding connect
    tenant_or_connect (some db) d = (ok db, d)
    tenant_or_connect none d =
        if is_empty d.cr.status.account_locator
        then (err (locator_unknown d.namespace d.cr.name), d)
        else connect d

    -- `ResourceData.TenantDB`
    unfoldable pub data_tenant_db : Action (ResourceData xp W) Db
    unfolding tenant_or_connect
    data_tenant_db d = tenant_or_connect d.tenant_db d

    -- `ResourceData.EvictTenant`
    unfoldable pub data_evict_tenant : ResourceData xp W → ResourceData xp W
    data_evict_tenant d = record d { world = pool.evict_tenant d.namespace d.cr.name d.world }
