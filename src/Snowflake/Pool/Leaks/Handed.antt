-- ===== src/Snowflake/Pool/Leaks/Handed.antt =====
-- internal/snowflake/pool/pool.go: the connections that OrgAdminDB and TenantDB return.
use yukimi.Base.{
  nat_beq, if◌then◌else◌, Bool-cases, some_inj, ◌==◌, Str, str_beq, Dict, get, put, ℕ, ◌+◌, ◌≤◌,
  ◌≡◌, refl, ap, ◌∙◌, inl, inr, Bool, true, false, ◌&&◌, Option, none, some, [], ◌∷◌, arith,
}
use yukimi.Errors.{Result, ok, err}
use yukimi.Results.{ok_inj, err-not-ok}
use yukimi.Effects.{Action, proceed, lift}
use yukimi.Account.ResourceData.{Db}
use yukimi.Secrets.Identifier.{Identifier, new_tenant_identifier, new_org_admin_identifier}
use yukimi.Snowflake.Pool.Backend.{PoolConfig, PoolBackend}
use yukimi.Snowflake.Pool.Cache.{
  tenant_key_eq, TenantKey, TenantEntry, PoolState, matching, cached_tenant, tenant_key,
  org_admin_dialed, org_admin_known, pool_org_admin_db, install, tenant_dialed, tenant_known,
  pool_tenant_db,
}
use yukimi.Snowflake.Pool.Leaks.{one_if, org_admin_holds, entries_hold}
use yukimi.Snowflake.Pool.Leaks.Operations.{IsTight}

-- The pool holds a connection as that of the org-admin account, or in an entry.
pub holds : {W : Type 0} → Db → PoolState W → ℕ
holds db s = org_admin_holds db s.org_admin_db + entries_hold db s.entries

-- What is held in a state in step with the driver is open.
pub held-open :
    {W : Type 0} (is_open : Db → W → Bool) (db : Db) (s : PoolState W)
    → IsTight is_open s
    → 1 ≤ holds db s
    → is_open db s.world ≡ true
unfolding holds
held-open is_open db s h k = open_if (is_open db s.world) (h.exact db)
  where
    open_if :
        (v : Bool)
        → org_admin_holds db s.org_admin_db + entries_hold db s.entries ≡ one_if v
        → v ≡ true
    open_if true e = refl
    open_if false e = ground (arith, e, k)

one_if-same : (db : Db) → one_if (nat_beq db db) ≡ 1
one_if-same db = ground arith

found_held :
    (db : Db) (key : TenantKey) (locator region : Str) (m : Dict TenantKey TenantEntry)
    → cached_tenant key locator region m ≡ some db
    → 1 ≤ entries_hold db m
unfolding cached_tenant matching get entries_hold
found_held db key locator region [] h = ground arith
found_held db key locator region ((j, entry) ∷ m) h = elim (Bool-cases (j == key)) [
  | inl e ↦ matched (str_beq entry.locator locator && str_beq entry.region region) (rw e at h)
  | inr e ↦ omega (arith, found_held db key locator region m (rw e at h))
]
  where
    matched :
        (v : Bool)
        → (if v then some entry.db else none) ≡ some db
        → 1 ≤ one_if (nat_beq db entry.db) + entries_hold db m
    matched true k = rw (some_inj k) (omega (arith, one_if-same db))
    matched false k = ground arith

-- A call that succeeds returns a connection that the pool holds when it returns.
abbrev pub HoldsResult : {W : Type 0} → Result Db × PoolState W → Type 0
HoldsResult r = (db : Db) → r.0 ≡ ok db → 1 ≤ holds db r.1

module _ {W : Type 0} (b : PoolBackend W) (cfg : PoolConfig) where
  identified_held :
      (r : Result Identifier) (f : Identifier → Action (PoolState W) Db) (s : PoolState W)
      → ((id : Identifier) → HoldsResult (f id s))
      → HoldsResult (proceed (lift r s) f)
  identified_held (ok id) f s k = k id
  identified_held (err e) f s k = λ db h. err-not-ok h

  org_admin_dialed_held :
      (id : Identifier) (r : Result Db × W) (s : PoolState W)
      → HoldsResult (org_admin_dialed b cfg id r s)
  unfolding org_admin_dialed holds
  org_admin_dialed_held id (err e, w) s db h = err-not-ok h
  org_admin_dialed_held id (ok db', w) s db h = rw (ok_inj db' db h) (omega (arith, one_if-same db))

  org_admin_known_held :
      (id : Identifier) (held : Option Db) (s : PoolState W)
      → s.org_admin_db ≡ held
      → HoldsResult (org_admin_known b cfg id held s)
  unfolding org_admin_known holds
  org_admin_known_held id (some db') s e db h =
      rw (e, ok_inj db' db h) (omega (arith, one_if-same db))
  org_admin_known_held id none s e db h = org_admin_dialed_held id _ s db h

  pub org_admin_held : (s : PoolState W) → HoldsResult (pool_org_admin_db b cfg s)
  unfolding pool_org_admin_db
  org_admin_held s =
      identified_held (new_org_admin_identifier cfg.org cfg.org_admin_account)
        (λ id s'. org_admin_known b cfg id s'.org_admin_db s') s
        (λ id. org_admin_known_held id s.org_admin_db s refl)

  tenant_dialed_held :
      (key : TenantKey) (id : Identifier) (locator region : Str) (r : Result Db × W)
      (s : PoolState W)
      → HoldsResult (tenant_dialed b cfg key id locator region r s)
  unfolding tenant_dialed install holds put entries_hold
  tenant_dialed_held key id locator region (err e, w) s db h = err-not-ok h
  tenant_dialed_held key id locator region (ok db', w) s db h =
      rw (ok_inj db' db h) (omega (arith, one_if-same db))

  tenant_known_held :
      (key : TenantKey) (id : Identifier) (locator region : Str) (held : Option Db)
      (s : PoolState W)
      → cached_tenant key locator region s.entries ≡ held
      → HoldsResult (tenant_known b cfg key id locator region held s)
  unfolding tenant_known holds
  tenant_known_held key id locator region (some db') s e db h =
      omega (arith, found_held db key locator region s.entries (e ∙ ap some (ok_inj db' db h)))
  tenant_known_held key id locator region none s e db h =
      tenant_dialed_held key id locator region _ s db h

  pub tenant_held :
      (namespace account_name locator region : Str) (s : PoolState W)
      → HoldsResult (pool_tenant_db b cfg namespace account_name locator region s)
  unfolding pool_tenant_db
  tenant_held namespace account_name locator region s =
      let key = tenant_key namespace account_name in
      identified_held (new_tenant_identifier cfg.org namespace account_name)
        (λ id s'.
          tenant_known b cfg key id locator region (cached_tenant key locator region s'.entries) s')
        s
        (λ id.
          tenant_known_held key id locator region (cached_tenant key locator region s.entries) s
            refl)
