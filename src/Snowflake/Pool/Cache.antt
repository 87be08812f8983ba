-- ===== src/Snowflake/Pool/Cache.antt =====
-- internal/snowflake/pool/pool.go. The locks make the calls on one key, and those on the org-admin
-- connection, one after another, and a call is a function of the pool's state.
pub mod Reuse
use yukimi.Snowflake.Pool.Backend.{PoolConfig, PoolBackend, build_snowflake_config}
use yukimi.Snowflake.Pool.Rotation.{maybe_rotate}
use yukimi.Snowflake.Host.{hostname}
use yukimi.Account.ResourceData.{Db}
use yukimi.Secrets.Identifier.{Identifier, new_tenant_identifier, new_org_admin_identifier}
use yukimi.Effects.{Action, rename_error, proceed, ◌>>=◌, lift, on_error}
use yukimi.Base.{
  if◌then◌else◌, Eq, Str, text, str_beq, str_beq_iff, Dict, get, delete, put, ◌≡◌, ◌↔◌, Bool, true,
  false, ◌&&◌, Option, none, some, ◌++◌, arith,
}
use yukimi.Errors.{Error, wrapped, Result, ok, err, wrap}

pub record TenantKey : Type 0 where
  pub namespace : Str
  pub account_name : Str

unfoldable pub tenant_key_beq : TenantKey → TenantKey → Bool
tenant_key_beq a b = str_beq a.namespace b.namespace && str_beq a.account_name b.account_name

pub tenant_key_beq_iff : (a b : TenantKey) → (tenant_key_beq a b ≡ true) ↔ (a ≡ b)
unfolding tenant_key_beq
tenant_key_beq_iff a b =
    ground (arith, str_beq_iff a.namespace b.namespace, str_beq_iff a.account_name b.account_name)

instance abbrev pub tenant_key_eq : Eq TenantKey
tenant_key_eq = record { beq = tenant_key_beq; beq_iff = tenant_key_beq_iff }

pub record TenantEntry : Type 0 where
  pub db : Db
  pub locator : Str
  pub region : Str

-- The fields of `Pool` that change, and the world outside.
pub record PoolState (W : Type 0) : Type 0 where
  pub org_admin_db : Option Db
  pub entries : Dict TenantKey TenantEntry
  pub world : W

unfoldable pub matching : Str → Str → Option TenantEntry → Option Db
matching locator region none = none
matching locator region (some entry) =
    if str_beq entry.locator locator && str_beq entry.region region then some entry.db else none

-- `Pool.cachedTenant`
unfoldable pub cached_tenant : TenantKey → Str → Str → Dict TenantKey TenantEntry → Option Db
unfolding matching
cached_tenant key locator region entries = matching locator region (get key entries)

bool_text : Bool → Str
bool_text true = text "true"
bool_text false = text "false"

-- The error of a failed dial: whose credentials, the host, the hint.
pub dial_failed : Str → Str → Str → Str → Str → Bool → Error → Error
unfolding bool_text
dial_failed whose hostname tip username fingerprint disable_ocsp_checks e =
    wrapped
      (text "credentials for "
        ++ whose
        ++ text " were read successfully, but failed to connect to "
        ++ hostname
        ++ text ": ")
      e
      (text " ("
        ++ tip
        ++ text ": run `DESC USER "
        ++ username
        ++ text "` in Snowflake and compare RSA_PUBLIC_KEY_FP against "
        ++ fingerprint
        ++ text "; DisableOCSPChecks="
        ++ bool_text disable_ocsp_checks
        ++ text ")")

abbrev pub tenant_key : Str → Str → TenantKey
tenant_key namespace account_name = record { namespace = namespace; account_name = account_name }

abbrev pub whose : TenantKey → Str
whose key = key.namespace ++ text "/" ++ key.account_name

module _ {W : Type 0} (b : PoolBackend W) (cfg : PoolConfig) where
  -- What the two kinds of connection share: the host, the credentials, the key, the dial. A name
  -- for the log, the locator, the region, the role and the hint of the connection are given.
  unfoldable pub connect :
      Identifier → Str → Str → (Str → Str) → Str → Str → Str → Str → Action W Db
  unfolding build_snowflake_config dial_failed
  connect id read_of parse_of described tip locator region role = do
    hostname ← lift (hostname locator region cfg.use_private_link)
    creds ← on_error (wrap (text "failed to read " ++ read_of ++ text ": ")) (b.get_credentials id)
    key ← lift (
        rename_error (wrap (text "failed to parse private key for " ++ parse_of ++ text ": "))
          (b.parse_private_key creds.private_key))
    on_error
        (dial_failed (described creds.username) hostname tip creds.username
          (b.public_key_fingerprint key) cfg.disable_ocsp_checks)
        (b.dial
          (build_snowflake_config locator hostname creds.username key role cfg.disable_ocsp_checks))

  unfoldable pub org_admin_dialed :
      Identifier → Result Db × W → PoolState W → Result Db × PoolState W
  unfolding maybe_rotate
  org_admin_dialed id (err e, w) s = (err e, record s { world = w })
  org_admin_dialed id (ok db, w) s =
      (ok db, record s { org_admin_db = some db; world = maybe_rotate b cfg db id w })

  unfoldable pub org_admin_known : Identifier → Option Db → PoolState W → Result Db × PoolState W
  unfolding connect maybe_rotate org_admin_dialed
  org_admin_known id (some db) s = (ok db, record s { world = maybe_rotate b cfg db id s.world })
  org_admin_known id none s =
      org_admin_dialed id
        (connect id (text "org-admin credentials") (text "org-admin")
          (λ username. text "org-admin " ++ username) (text "tip") cfg.org_admin_account_locator
          cfg.org_admin_account_region (text "GLOBALORGADMIN") s.world)
        s

  -- `Pool.OrgAdminDB`
  unfoldable pub pool_org_admin_db : Action (PoolState W) Db
  unfolding org_admin_known
  pool_org_admin_db s =
      proceed (lift (new_org_admin_identifier cfg.org cfg.org_admin_account) s)
        λ id s'. org_admin_known id s'.org_admin_db s'

  unfoldable pub close_stale : Option TenantEntry → W → W
  close_stale none w = w
  close_stale (some entry) w = b.close entry.db w

  -- The new entry takes the place of a stale one, which is closed.
  unfoldable pub install : TenantKey → Identifier → TenantEntry → W → PoolState W → PoolState W
  unfolding close_stale maybe_rotate
  install key id entry w s = record s {
    entries = put key entry s.entries;
    world = maybe_rotate b cfg entry.db id (close_stale (get key s.entries) w);
  }

  unfoldable pub tenant_dialed :
      TenantKey → Identifier → Str → Str → Result Db × W → PoolState W → Result Db × PoolState W
  unfolding install
  tenant_dialed key id locator region (err e, w) s = (err e, record s { world = w })
  tenant_dialed key id locator region (ok db, w) s =
      (ok db, install key id (record { db = db; locator = locator; region = region }) w s)

  unfoldable pub tenant_known :
      TenantKey → Identifier → Str → Str → Option Db → PoolState W → Result Db × PoolState W
  unfolding connect tenant_dialed maybe_rotate
  tenant_known key id locator region (some db) s =
      (ok db, record s { world = maybe_rotate b cfg db id s.world })
  tenant_known key id locator region none s =
      tenant_dialed key id locator region
        (connect id (text "tenant credentials for " ++ whose key) (whose key) (λ _. whose key)
          (text "debugging tip") locator region (text "ACCOUNTADMIN") s.world)
        s

  -- `Pool.TenantDB`
  unfoldable pub pool_tenant_db : Str → Str → Str → Str → Action (PoolState W) Db
  unfolding tenant_known cached_tenant
  pool_tenant_db namespace account_name locator region s =
      proceed (lift (new_tenant_identifier cfg.org namespace account_name) s) λ id s'.
        tenant_known (tenant_key namespace account_name) id locator region
          (cached_tenant (tenant_key namespace account_name) locator region s'.entries) s'

  -- `Pool.EvictTenant`
  unfoldable pub pool_evict_tenant : Str → Str → PoolState W → PoolState W
  unfolding close_stale
  pool_evict_tenant namespace account_name s = record s {
    entries = delete (tenant_key namespace account_name) s.entries;
    world = close_stale (get (tenant_key namespace account_name) s.entries) s.world;
  }
