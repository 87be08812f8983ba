-- ===== src/Account/Module/Drop.antt =====
-- teardown.go.
use yukimi.Errors.{wrap}
use yukimi.Base.{if◌then◌else◌, Str, text, is_empty, decimal, [], ◌∷◌, ◌++◌}
use yukimi.Effects.{Action, proceed, ◌>>=◌, lift, on_error}
use yukimi.Apis.Crossplane.{Crossplane}
use yukimi.Secrets.Identifier.{new_tenant_identifier}
use yukimi.Account.ResourceData.{
  ResourceData, with_status, on_world, data_org_admin_db, data_evict_tenant,
}
use yukimi.Account.Module.Existing.{Platform, ModuleConfig, exec_on}

pub drop_sql : ModuleConfig → Str
drop_sql m =
    text "DROP ACCOUNT IF EXISTS IDENTIFIER(?) GRACE_PERIOD_IN_DAYS = "
    ++ decimal m.deletion_grace_period_days

module _ {xp : Crossplane} {W : Type 0} (p : Platform W) (m : ModuleConfig) where
  -- `module.dropAccount`
  unfoldable pub drop_account : Action (ResourceData xp W) (Unit {0})
  unfolding data_org_admin_db exec_on
  drop_account d =
      (data_org_admin_db p.pool >>= λ db.
      on_error (wrap (text "failed to drop account: "))
        (exec_on p db (text "drop account") (drop_sql m) (d.resolved_name ∷ [])))
        d

  -- `module.deleteCredential`
  unfoldable pub delete_credential : Action (ResourceData xp W) (Unit {0})
  unfolding on_world
  delete_credential d =
      (lift (new_tenant_identifier m.org d.cr.namespace d.cr.name) >>= λ id.
      on_error (wrap (text "failed to delete platform credential: "))
        (on_world (p.keys.delete_credentials id)))
        d

  -- Evict the connection and forget the locator.
  unfoldable pub forget_account : ResourceData xp W → ResourceData xp W
  unfolding data_evict_tenant
  forget_account d =
      with_status (λ s. record s { account_locator = [] }) (data_evict_tenant p.pool d)

  -- `module.Teardown`
  unfoldable pub teardown : Action (ResourceData xp W) (Unit {0})
  unfolding drop_account delete_credential forget_account
  teardown d =
      if is_empty d.cr.status.account_locator
      then delete_credential d
      else proceed (drop_account d) (λ _ d'. delete_credential (forget_account d'))
