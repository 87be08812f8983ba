-- ===== src/Account/Module/Creation.antt =====
-- apply.go: the fresh-create path, from the credential to the recorded locator.
use yukimi.Errors.{Error, Result, ok, err, is_pending_deletion}
use yukimi.Base.{if◌then◌else◌, Str, text, ◌≡◌, refl, Bool, true, false, Option, none, some}
use yukimi.Effects.{Action, proceed, ◌>>=◌, ◌>>◌, pure, lift}
use yukimi.Apis.Crossplane.{Crossplane}
use yukimi.Secrets.Identifier.{Identifier, new_tenant_identifier}
use yukimi.Secrets.Credentials.{Credentials}
use yukimi.Account.ResourceData.{Db, ResourceData, with_status, on_world, data_org_admin_db}
use yukimi.Account.Outcome.{Outcome, pending, failed}
use yukimi.Account.Module.Existing.{Platform, ModuleConfig, platform_user}
use yukimi.Account.Module.Checks.{check_creatable}
use yukimi.Account.Module.Create.{
  deleted_recently, exec_create_account, find_account_locator, locate_created_account,
  resume_crashed_create,
}

abbrev fresh : Credentials → Credentials × Bool
fresh creds = (creds, false)

abbrev resumed : Credentials → Credentials × Bool
resumed creds = (creds, true)

pub created_message : Str
created_message = text "account created; waiting for it to become reachable before continuing"

module _ {xp : Crossplane} {W : Type 0} (p : Platform W) (m : ModuleConfig) where
  recover : Identifier → Error → Action (ResourceData xp W) (Credentials × Bool)
  unfolding resume_crashed_create
  recover id e d =
      if is_pending_deletion e
      then (err (deleted_recently d.cr.name), d)
      else (resume_crashed_create p id d.cr.creation_timestamp e >>= λ creds. pure (resumed creds))
          d

  created_or_recover :
      Identifier
      → Result Credentials × ResourceData xp W
      → Result (Credentials × Bool) × ResourceData xp W
  unfolding recover
  created_or_recover id (ok creds, d) = (ok (fresh creds), d)
  created_or_recover id (err e, d) = recover id e d

  -- `module.acquireCredentials`
  unfoldable pub acquire_credentials : Action (ResourceData xp W) (Credentials × Bool)
  unfolding created_or_recover on_world
  acquire_credentials d =
      proceed (lift (new_tenant_identifier m.org d.cr.namespace d.cr.name) d)
        λ id d'. created_or_recover id (on_world (p.keys.create_credentials id platform_user) d')

  create_and_locate : Db → Str → Action (ResourceData xp W) Str
  unfolding exec_create_account locate_created_account
  create_and_locate db public_key d =
      (exec_create_account p db d.resolved_name d.cr.spec public_key
          >> locate_created_account p db d.resolved_name)
        d

  -- A resumed attempt whose account exists already is not created again.
  found_or_create : Db → Str → Option Str → Action (ResourceData xp W) Str
  unfolding create_and_locate
  found_or_create db public_key (some locator) = pure locator
  found_or_create db public_key none = create_and_locate db public_key

  create_over : Db → Credentials → Bool → Action (ResourceData xp W) Str
  unfolding found_or_create find_account_locator create_and_locate
  create_over db creds false d = create_and_locate db creds.public_key d
  create_over db creds true d =
      (find_account_locator p db (text "check for existing account before resuming create")
            d.resolved_name
          >>= found_or_create db creds.public_key)
        d

  -- The checks and the effects of `module.createAccount`, up to the locator.
  unfoldable pub obtain_locator : Action (ResourceData xp W) Str
  unfolding check_creatable acquire_credentials data_org_admin_db create_over
  obtain_locator d =
      proceed
        (lift (check_creatable m d.cr.name d.cr.spec.region d.resolved_name d.namespace_labels) d)
        λ _. do
          acquired ← acquire_credentials
          db ← data_org_admin_db p.pool
          create_over db acquired.0 acquired.1

  -- `finishCreate`
  unfoldable pub finish_create : Str → ResourceData xp W → Outcome xp × ResourceData xp W
  unfolding pending created_message
  finish_create locator d = (
    pending created_message,
    with_status
        (λ s. record s { account_locator = locator; account_created_at = some (p.clock d.world) })
        d,
  )

  unfoldable pub finish_or_fail : Result Str × ResourceData xp W → Outcome xp × ResourceData xp W
  unfolding finish_create failed
  finish_or_fail (ok locator, d) = finish_create locator d
  finish_or_fail (err e, d) = (failed e, d)

  -- `module.createAccount`
  unfoldable pub create_account : ResourceData xp W → Outcome xp × ResourceData xp W
  unfolding obtain_locator finish_or_fail
  create_account d = finish_or_fail (obtain_locator d)

  pub create_account-failed :
      (d d' : ResourceData xp W) (e : Error)
      → obtain_locator d ≡ (err e, d')
      → create_account d ≡ (failed e, d')
  unfolding create_account
  create_account-failed d d' e h = rw h refl

  pub create_account-finish_create :
      (d d' : ResourceData xp W) (locator : Str)
      → obtain_locator d ≡ (ok locator, d')
      → create_account d ≡ finish_create locator d'
  unfolding create_account
  create_account-finish_create d d' locator h = rw h refl
