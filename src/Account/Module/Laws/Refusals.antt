-- ===== src/Account/Module/Laws/Refusals.antt =====
-- Requests that are refused before any side effect.
use yukimi.Account.Module.{account_apply}
use yukimi.Account.Module.Creation.{obtain_locator, create_account, create_account-failed}
use yukimi.Account.Module.Checks.{region_check, name_check, check_creatable}
use yukimi.Account.Module.Existing.{Platform, ModuleConfig}
use yukimi.Account.Outcome.{failed, abort}
use yukimi.Account.ResourceData.{ResourceData, with_status}
use yukimi.Account.Tenant.{alpha_tester}
use yukimi.Config.Backplane.{Region, find_region}
use yukimi.Apis.Crossplane.{Crossplane}
use yukimi.Results.{bind_ok}
use yukimi.Base.{Str, length, is_empty, Dict, ◌+◌, ◌≤◌, ◌≡◌, refl, Bool, true, false, ◌||◌, arith}
use yukimi.Errors.{Error, ok, err}

module _ {xp : Crossplane} {W : Type 0} (p : Platform W) (m : ModuleConfig) where
  obtain_locator_refused :
      (d : ResourceData xp W) (e : Error)
      → check_creatable m d.cr.name d.cr.spec.region d.resolved_name d.namespace_labels ≡ err e
      → obtain_locator p m d ≡ (err e, d)
  unfolding obtain_locator
  obtain_locator_refused d e k = rw k refl

  create_account_refused :
      (d : ResourceData xp W) (e : Error)
      → check_creatable m d.cr.name d.cr.spec.region d.resolved_name d.namespace_labels ≡ err e
      → create_account p m d ≡ (failed e, d)
  create_account_refused d e k = create_account-failed p m d d e (obtain_locator_refused d e k)

  -- With no locator recorded, a request that fails the checks has no side effect: the outcome is that
  -- failure and stops the pipeline, and of the resource and the world nothing changes but the
  -- status's account name.
  pub account_apply_refused :
      (d : ResourceData xp W) (e : Error)
      → is_empty d.cr.status.account_locator ≡ true
      → check_creatable m d.cr.name d.cr.spec.region d.resolved_name d.namespace_labels ≡ err e
      → account_apply p m d
        ≡ (abort (failed e), with_status (λ s. record s { account_name = d.resolved_name }) d)
  unfolding account_apply
  account_apply_refused d e h k = rw (h, create_account_refused d e k, h) refl

region_check_ok :
    (region : Str) (available t : Bool)
    → region_check region available t ≡ ok tt
    → available || t ≡ true
unfolding region_check
region_check_ok region true t h = refl
region_check_ok region false true h = refl
region_check_ok region false false h = ground arith

name_check_ok :
    (m : ModuleConfig) (name resolved : Str)
    → name_check m name resolved ≡ ok tt
    → length m.org + 1 + length resolved ≤ 63
unfolding name_check
name_check_ok m name resolved h = ground arith

-- Of a request that passes the checks, the catalog finds the region, the label `alpha-tester` can
-- be read, the region is available or the tenant is an alpha tester, and the organisation and the
-- resolved name, with a separator between them, have 63 bytes at most.
pub check_creatable_ok :
    (m : ModuleConfig) (name region resolved : Str) (labels : Dict Str Str)
    → check_creatable m name region resolved labels ≡ ok tt
    → (r : Region) × (t : Bool) × (find_region m.backplane region ≡ ok r)
      × (alpha_tester labels ≡ ok t)
      × (r.available || t ≡ true)
      × (length m.org + 1 + length resolved ≤ 63)
unfolding check_creatable
check_creatable_ok m name region resolved labels h =
    let (r, found, h1) = bind_ok (find_region m.backplane region) _ h in
    let (t, tester, h2) = bind_ok (alpha_tester labels) _ h1 in
    let (u, offered, h3) = bind_ok (region_check region r.available t) _ h2 in
    (
      r,
      t,
      found,
      tester,
      region_check_ok region r.available t offered,
      name_check_ok m name resolved h3,
    )
