-- ===== src/Account/Module/Laws/Frame.antt =====
-- Existence is recorded, not looked up: what an account with a known locator is not asked for.
use yukimi.Account.Module.{account_observe, account_apply}
use yukimi.Account.Module.Existing.{
  Keys, Platform, ModuleConfig, connect_tenant, reconcile_existing,
}
use yukimi.Account.ResourceData.{Db, ResourceData, data_tenant_db}
use yukimi.Apis.Crossplane.{Crossplane}
use yukimi.Effects.{Action}
use yukimi.Base.{is_empty, ◌≡◌, refl, false}

-- The platform with another org-admin connection and another key manager.
abbrev pub swapped : {W : Type 0} → Platform W → Action W Db → Keys W → Platform W
swapped p admin keys = record p { pool = record p.pool { org_admin_db = admin }; keys = keys }

module _ {xp : Crossplane} {W : Type 0} (p : Platform W) (m : ModuleConfig) where
  -- Where the account's locator is recorded, observing and applying never use the org-admin
  -- connection or the key manager: with any others in their place, the outcome, the status and the
  -- world are the same.
  pub account_frame :
      (admin : Action W Db) (keys : Keys W) (d : ResourceData xp W)
      → is_empty d.cr.status.account_locator ≡ false
      → (account_observe (swapped p admin keys) m d ≡ account_observe p m d)
        × (account_apply (swapped p admin keys) m d ≡ account_apply p m d)
  unfolding account_observe account_apply reconcile_existing connect_tenant data_tenant_db
  account_frame admin keys d h = (rw h refl, rw h refl)
