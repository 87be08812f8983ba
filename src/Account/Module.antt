-- ===== src/Account/Module.antt =====
-- internal/account/modules/account: module.go and observe.go, and the module as the pipeline
-- takes it. The world of a run is a parameter: the clock, the pool, the key manager, the SQL
-- executor behind each connection, and the log.
pub mod Existing
pub mod Checks
pub mod Create
pub mod Creation
pub mod Drop
pub mod Laws
use yukimi.Base.{if◌then◌else◌, text, is_empty}
use yukimi.Apis.Crossplane.{Crossplane}
use yukimi.Account.ResourceData.{ResourceData}
use yukimi.Account.Outcome.{Outcome, pending, abort, account_module_name}
use yukimi.Account.Pipeline.{Module}
use yukimi.Account.Module.Existing.{
  Platform, ModuleConfig, provisioning_message, within_grace_period, settle, connect_tenant,
  sync_status, reconcile_existing,
}
use yukimi.Account.Module.Creation.{create_account}
use yukimi.Account.Module.Drop.{teardown}

module _ {xp : Crossplane} {W : Type 0} (p : Platform W) (m : ModuleConfig) where
  observe_existing : ResourceData xp W → Outcome xp × ResourceData xp W
  unfolding within_grace_period connect_tenant settle pending
  observe_existing d =
      if within_grace_period m (p.clock d.world) d.cr.status.account_created_at
      then (pending provisioning_message, d)
      else settle (connect_tenant p d)

  -- `module.Observe`
  unfoldable pub account_observe : ResourceData xp W → Outcome xp × ResourceData xp W
  unfolding observe_existing sync_status pending
  account_observe d =
      if is_empty d.cr.status.account_locator
      then (pending (text "account not created yet"), d)
      else observe_existing (sync_status p m d)

  apply_inner : ResourceData xp W → Outcome xp × ResourceData xp W
  unfolding create_account reconcile_existing
  apply_inner d =
      if is_empty d.cr.status.account_locator
      then create_account p m d
      else reconcile_existing p m d

  -- `module.Apply`
  unfoldable pub account_apply : ResourceData xp W → Outcome xp × ResourceData xp W
  unfolding apply_inner abort sync_status
  account_apply d = let (out, d') = apply_inner d in (abort out, sync_status p m d')

  -- `New`
  unfoldable pub account_module : Module xp W
  unfolding account_observe account_apply teardown text
  account_module = record {
    name = account_module_name;
    observe = account_observe;
    apply = account_apply;
    teardown = teardown p m;
  }
