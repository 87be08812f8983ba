-- ===== src/Account/Module/Existing.antt =====
-- module.go and the part of apply.go for an account that exists.
use yukimi.Errors.{Result, ok, err, wrap}
use yukimi.Base.{
  ltb, if◌then◌else◌, Str, text, str_beq, is_empty, ℕ, ◌+◌, Bool, false, Option, none, some, List,
  [], ◌∷◌, ◌++◌,
}
use yukimi.Effects.{Action, ◌>>=◌, pure, on_error}
use yukimi.Logger.{Logging, handle}
use yukimi.Apis.Crossplane.{Crossplane}
use yukimi.Secrets.Identifier.{Identifier}
use yukimi.Secrets.Credentials.{Credentials}
use yukimi.Snowflake.Host.{url, account_url}
use yukimi.Snowflake.Statement.Rows.{Table, string_value, find_row}
use yukimi.Snowflake.Statement.Runner.{Executor, exec, query}
use yukimi.Config.Backplane.{Backplane}
use yukimi.Account.ResourceData.{Db, DbPool, ResourceData, with_status, on_world, data_tenant_db}
use yukimi.Account.Outcome.{Outcome, done, pending, failed}

-- What the module uses of `*secrets.KeyManager`.
pub record Keys (W : Type 0) : Type 0 where
  pub create_credentials : Identifier → Str → Action W Credentials
  pub get_credentials : Identifier → Action W Credentials
  pub delete_credentials : Identifier → Action W (Unit {0})

pub record Platform (W : Type 0) : Type 0 where
  pub clock : W → ℕ
  -- how `fmt` prints a time
  pub show_time : ℕ → Str
  pub pool : DbPool W
  pub keys : Keys W
  pub executor : Db → Executor W
  pub logging : Logging W

-- The fields of `module`.
pub record ModuleConfig : Type 0 where
  pub org : Str
  pub grace_period : ℕ
  pub deletion_grace_period_days : ℕ
  pub use_private_link : Bool
  pub backplane : Backplane

pub provisioning_message : Str
provisioning_message =
    text "waiting for the account to finish provisioning before attempting to connect"

abbrev pub platform_user : Str
platform_user = text "platform"

-- `time.Since(createdAt) < gracePeriod`
unfoldable pub within_grace_period : ModuleConfig → ℕ → Option ℕ → Bool
within_grace_period m now none = false
within_grace_period m now (some created_at) = ltb now (created_at + m.grace_period)

-- An error becomes `Failed(err)`, a result `Done()`.
unfoldable pub settle : {xp : Crossplane} {D A : Type 0} → Result A × D → Outcome xp × D
unfolding done failed
settle (ok a, d) = (done, d)
settle (err e, d) = (failed e, d)

abbrev or_empty : Option Str → Str
or_empty none = []
or_empty (some s) = s

pub unreachable : Str → Str
unreachable locator =
    text "platform connection failed for existing account locator " ++ locator ++ text ": "

module _ {xp : Crossplane} {W : Type 0} (p : Platform W) where
  -- `connectTenant`
  unfoldable pub connect_tenant : Action (ResourceData xp W) Db
  unfolding data_tenant_db
  connect_tenant d =
      on_error (wrap (unreachable d.cr.status.account_locator)) (data_tenant_db p.pool) d

  with_url : Result Str → ResourceData xp W → ResourceData xp W
  with_url (ok url) d = with_status (λ s. record s { account_url = url }) d
  with_url (err e) d = record d { world = (handle p.logging d.log (some e) d.world).1 }

  named_status : ResourceData xp W → ResourceData xp W
  named_status d = with_status (λ s. record s { account_name = d.resolved_name }) d

  -- `module.syncStatus`
  unfoldable pub sync_status : ModuleConfig → ResourceData xp W → ResourceData xp W
  unfolding with_url named_status
  sync_status m d =
      if is_empty d.cr.status.account_locator
      then named_status d
      else with_url (account_url d.cr.status.account_locator d.cr.spec.region m.use_private_link)
          (named_status d)

  -- `Runner.Query` and `Runner.Exec` over a connection, in the world of the run
  unfoldable pub query_on : Db → Str → Str → List Str → Action (ResourceData xp W) Table
  unfolding on_world
  query_on db label sql args = on_world (query (p.executor db) label sql args)

  unfoldable pub exec_on : Db → Str → Str → List Str → Action (ResourceData xp W) (Unit {0})
  unfolding on_world
  exec_on db label sql args = on_world (exec (p.executor db) label sql args)

  alter_email : Db → Str → Action (ResourceData xp W) (Unit {0})
  unfolding exec_on
  alter_email db contact = on_error (wrap (text "failed to update platform user email: ")) (
      exec_on db (text "sync platform user email") (text "ALTER USER IDENTIFIER(?) SET EMAIL = ?")
        (platform_user ∷ contact ∷ []))

  -- `syncPlatformEmail`
  unfoldable pub sync_platform_email : Db → Str → Action (ResourceData xp W) (Unit {0})
  unfolding query_on alter_email
  sync_platform_email db contact = do
    table ←
        on_error (wrap (text "failed to look up platform user: "))
          (query_on db (text "show platform user") (text "SHOW USERS LIKE ?") (platform_user ∷ []))
    let email = or_empty (string_value (find_row table (text "name") platform_user) (text "email"))
    if str_beq email contact then pure tt else alter_email db contact

  connect_and_sync : Action (ResourceData xp W) (Unit {0})
  unfolding sync_platform_email connect_tenant
  connect_and_sync d = (connect_tenant >>= λ db. sync_platform_email db d.cr.spec.contact) d

  -- `module.reconcileExisting`
  unfoldable pub reconcile_existing :
      ModuleConfig → ResourceData xp W → Outcome xp × ResourceData xp W
  unfolding connect_and_sync within_grace_period settle pending
  reconcile_existing m d =
      if within_grace_period m (p.clock d.world) d.cr.status.account_created_at
      then (pending provisioning_message, d)
      else settle (connect_and_sync d)
