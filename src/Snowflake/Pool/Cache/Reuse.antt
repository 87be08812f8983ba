-- ===== src/Snowflake/Pool/Cache/Reuse.antt =====
-- Which connections the pool hands out again.
use yukimi.Secrets.Identifier.{Identifier, new_tenant_identifier}
use yukimi.Results.{Result-cases, ok_inj, err-not-ok}
use yukimi.Snowflake.Pool.Backend.{PoolConfig, PoolBackend}
use yukimi.Snowflake.Pool.Cache.{
  tenant_key_eq, TenantKey, TenantEntry, PoolState, matching, cached_tenant, tenant_key, install,
  tenant_dialed, tenant_known, pool_tenant_db, pool_evict_tenant,
}
use yukimi.Account.ResourceData.{Db}
use yukimi.Base.{
  if◌then◌else◌, Bool-cases, ◌==◌, beq_refl, Str, str_beq_iff, Dict, put, get-delete, get-put, ◌≡◌,
  refl, ap, ◌∙◌, inl, inr, Option, none, some,
}
use yukimi.Errors.{Result, ok, err}

module _ {W : Type 0} (b : PoolBackend W) (cfg : PoolConfig) where
  cached_put :
      (key : TenantKey) (entry : TenantEntry) (entries : Dict TenantKey TenantEntry)
      → cached_tenant key entry.locator entry.region (put key entry entries) ≡ some entry.db
  unfolding cached_tenant matching
  cached_put key entry entries =
      rw
        (
          get-put key key entry entries,
          beq_refl key,
          (str_beq_iff entry.locator entry.locator).1 refl,
          (str_beq_iff entry.region entry.region).1 refl,
        )
        refl

  dialed :
      (key : TenantKey) (id : Identifier) (locator region : Str) (r : Result Db × W)
      (s : PoolState W) (db : Db)
      → (tenant_dialed b cfg key id locator region r s).0 ≡ ok db
      → cached_tenant key locator region (tenant_dialed b cfg key id locator region r s).1.entries
        ≡ some db
  unfolding tenant_dialed install
  dialed key id locator region (err e, w) s db h = err-not-ok h
  dialed key id locator region (ok db', w) s db h =
      cached_put key (record { db = db'; locator = locator; region = region }) s.entries
      ∙ ap some (ok_inj db' db h)

  known :
      (key : TenantKey) (id : Identifier) (locator region : Str) (c : Option Db) (s : PoolState W)
      (db : Db)
      → cached_tenant key locator region s.entries ≡ c
      → (tenant_known b cfg key id locator region c s).0 ≡ ok db
      → cached_tenant key locator region (tenant_known b cfg key id locator region c s).1.entries
        ≡ some db
  unfolding tenant_known
  known key id locator region (some db') s db k h = k ∙ ap some (ok_inj db' db h)
  known key id locator region none s db k h = dialed key id locator region _ s db h

  -- Where `TenantDB` returns a connection, that connection is the one the pool then holds for the
  -- namespace, the name, the locator and the region asked for.
  pub cached_tenant-pool_tenant_db :
      (namespace account_name locator region : Str) (s : PoolState W) (db : Db)
      → (pool_tenant_db b cfg namespace account_name locator region s).0 ≡ ok db
      → cached_tenant
          (tenant_key namespace account_name)
          locator
          region
          (pool_tenant_db b cfg namespace account_name locator region s).1.entries
        ≡ some db
  unfolding pool_tenant_db
  cached_tenant-pool_tenant_db namespace account_name locator region s db =
      elim (Result-cases (new_tenant_identifier cfg.org namespace account_name)) [
        | inl (id, k) ↦
            rw k (known (tenant_key namespace account_name) id locator region _ s db refl)
        | inr (e, k) ↦ rw k (λ h. err-not-ok h)
      ]

  -- Evicting a key leaves no connection for it, under any locator and region, and the others as
  -- they were.
  pub cached_tenant-pool_evict_tenant :
      (namespace account_name : Str) (key : TenantKey) (locator region : Str) (s : PoolState W)
      → cached_tenant key locator region (pool_evict_tenant b cfg namespace account_name s).entries
        ≡ (if tenant_key namespace account_name == key
            then none
            else cached_tenant key locator region s.entries)
  unfolding cached_tenant pool_evict_tenant matching
  cached_tenant-pool_evict_tenant namespace account_name key locator region s =
      elim (Bool-cases (tenant_key namespace account_name == key)) [
        | inl h ↦ rw (get-delete (tenant_key namespace account_name) key s.entries, h) refl
        | inr h ↦ rw (get-delete (tenant_key namespace account_name) key s.entries, h) refl
      ]
