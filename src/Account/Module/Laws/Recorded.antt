-- ===== src/Account/Module/Laws/Recorded.antt =====
-- What a fresh create leaves in the status.
use yukimi.Account.Outcome.{Outcome, pending, failed, abort}
use yukimi.Account.Module.{account_apply}
use yukimi.Account.Module.Creation.{
  created_message, acquire_credentials, obtain_locator, finish_create, finish_or_fail,
  create_account,
}
use yukimi.Account.Module.Create.{exec_create_account, find_account_locator, locate_created_account}
use yukimi.Account.Module.Existing.{Platform, ModuleConfig, sync_status}
use yukimi.Account.ResourceData.{Db, ResourceData}
use yukimi.Apis.Crossplane.{Crossplane}
use yukimi.Base.{Str, is_empty, ◌≡◌, refl, ap, ◌∙◌, true, some, arith}
use yukimi.Errors.{Result, ok, err}

module _ {xp : Crossplane} {W : Type 0} (p : Platform W) (m : ModuleConfig) where
  exec_create_account-keeps :
      (db : Db) (resolved : Str) (public_key : Str) (d : ResourceData xp W)
      → (exec_create_account p db resolved d.cr.spec public_key d).1.cr ≡ d.cr
  unfolding exec_create_account
  exec_create_account-keeps db resolved public_key d = ground arith

  find_account_locator-keeps :
      (db : Db) (label resolved : Str) (d : ResourceData xp W)
      → (find_account_locator p db label resolved d).1.cr ≡ d.cr
  unfolding find_account_locator
  find_account_locator-keeps db label resolved d = ground arith

  locate_created_account-keeps :
      (db : Db) (resolved : Str) (d : ResourceData xp W)
      → (locate_created_account p db resolved d).1.cr ≡ d.cr
  unfolding locate_created_account
  locate_created_account-keeps db resolved d = ground arith

  acquire_credentials-keeps : (d : ResourceData xp W) → (acquire_credentials p m d).1.cr ≡ d.cr
  unfolding acquire_credentials
  acquire_credentials-keeps d = ground arith

  sync_status_recorded :
      (d : ResourceData xp W)
      → ((sync_status p m d).cr.status.account_locator ≡ d.cr.status.account_locator)
        × ((sync_status p m d).cr.status.account_created_at ≡ d.cr.status.account_created_at)
  unfolding sync_status
  sync_status_recorded d = ground arith

  obtain_locator-keeps : (d : ResourceData xp W) → (obtain_locator p m d).1.cr ≡ d.cr
  unfolding obtain_locator
  obtain_locator-keeps d = ground arith

  -- The outcome and the status that a create with a given result ends in.
  pub Recorded :
      ResourceData xp W → Result Str × ResourceData xp W → Outcome xp × ResourceData xp W → Type 0
  Recorded d (ok locator, d') (out, after) =
      (out ≡ abort (pending created_message))
      × (after.cr.status.account_locator ≡ locator)
      × (after.cr.status.account_created_at ≡ some (p.clock d'.world))
  Recorded d (err e, d') (out, after) =
      (out ≡ abort (failed e))
      × (after.cr.status.account_locator ≡ d.cr.status.account_locator)
      × (after.cr.status.account_created_at ≡ d.cr.status.account_created_at)

  recorded :
      (d : ResourceData xp W) (r : Result Str × ResourceData xp W)
      → r.1.cr ≡ d.cr
      → let (out, d') = finish_or_fail p m r in Recorded d r (abort out, sync_status p m d')
  unfolding Recorded finish_or_fail finish_create
  recorded d (ok locator, d') h =
      let (l, t) = sync_status_recorded (finish_create p m locator d').1 in (refl, l, t)
  recorded d (err e, d') h =
      let (l, t) = sync_status_recorded d' in
      (refl, l ∙ ap (λ c. c.status.account_locator) h, t ∙ ap (λ c. c.status.account_created_at) h)

  -- Applying an account that has no locator always ends the pass: on success it is pending, never
  -- done, and the locator and the time of the create are recorded; on failure at any step, whatever
  -- was done before it, both are as before.
  pub account_apply-Recorded :
      (d : ResourceData xp W)
      → is_empty d.cr.status.account_locator ≡ true
      → Recorded d (obtain_locator p m d) (account_apply p m d)
  unfolding account_apply create_account
  account_apply-Recorded d h = rw h (recorded d (obtain_locator p m d) (obtain_locator-keeps d))
