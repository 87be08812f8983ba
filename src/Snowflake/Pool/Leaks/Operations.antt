-- ===== src/Snowflake/Pool/Leaks/Operations.antt =====
-- The calls of internal/snowflake/pool: each keeps the pool and the driver in step.
use yukimi.Snowflake.Pool.Shutdown.{pool_close, open_databases, attempt_all, pool_close-attempts}
use yukimi.Effects.{Action, proceed, lift}
use yukimi.Snowflake.Pool.Leaks.{
  one_if, org_admin_holds, entry_holds, entries_hold, IsMap, delete-IsMap, put-IsMap,
  entries_hold-delete, opened_count, closed_count, replaced_count,
}
use yukimi.Snowflake.Pool.Leaks.Keeps.{IsTidy, maybe_rotate-is_open, connect-OpensOne}
use yukimi.Snowflake.Pool.Connect.Probe.{opens_result, is_fresh_result}
use yukimi.Snowflake.Pool.Cache.{
  tenant_key_eq, TenantKey, TenantEntry, PoolState, cached_tenant, tenant_key, whose,
  org_admin_dialed, org_admin_known, pool_org_admin_db, close_stale, install, tenant_dialed,
  tenant_known, pool_tenant_db, pool_evict_tenant,
}
use yukimi.Snowflake.Pool.Backend.{PoolConfig, PoolBackend}
use yukimi.Secrets.Identifier.{Identifier, new_tenant_identifier, new_org_admin_identifier}
use yukimi.Account.ResourceData.{Db}
use yukimi.Errors.{Result, ok, err}
use yukimi.Base.{
  nat_beq, nat_beq_iff, Str, text, Dict, get, delete, put, ℕ, ◌+◌, ◌≡◌, refl, sym, ap, ◌∙◌, Bool,
  true, false, not, ◌&&◌, ◌||◌, Option, none, some, List, [], ◌∷◌, ◌++◌, map, arith,
}

module _ {W : Type 0} (is_open : Db → W → Bool) where
  -- The connections that are open are those of the pool, each held once.
  pub record IsTight (s : PoolState W) : Type 0 where
    pub keyed : IsMap s.entries
    pub exact :
        (x : Db)
        → org_admin_holds x s.org_admin_db + entries_hold x s.entries ≡ one_if (is_open x s.world)

  -- A change of the world that opens and closes nothing.
  same-IsTight :
      (s : PoolState W) (w : W)
      → ((x : Db) → is_open x w ≡ is_open x s.world)
      → IsTight s
      → IsTight (record s { world = w })
  same-IsTight s w k h = record { keyed = h.keyed; exact = λ x. h.exact x ∙ ap one_if (sym (k x)) }

  closed_before :
      (db x : Db) (w : W) → not (is_open db w) ≡ true → nat_beq x db ≡ true → is_open x w ≡ false
  closed_before db x w h e = rw ((nat_beq_iff x db).0 e) (ground arith)

module _ {W : Type 0} (b : PoolBackend W) (cfg : PoolConfig) (is_open : Db → W → Bool)
    (law : IsTidy b is_open) where
  evict_world :
      (x : Db) (entry : Option TenantEntry) (w : W) (org rest : ℕ)
      → org + (rest + entry_holds x entry) ≡ one_if (is_open x w)
      → org + rest ≡ one_if (is_open x (close_stale b cfg entry w))
  unfolding close_stale
  evict_world x none w org rest h = omega arith
  evict_world x (some entry) w org rest h =
      rw (law.closes entry.db w x) (closed_count (nat_beq x entry.db) (is_open x w) org rest h)

  pub evict-IsTight :
      (namespace account_name : Str) (s : PoolState W)
      → IsTight is_open s
      → IsTight is_open (pool_evict_tenant b cfg namespace account_name s)
  unfolding pool_evict_tenant
  evict-IsTight namespace account_name s h =
      let key = tenant_key namespace account_name in
      record {
        keyed = delete-IsMap key s.entries h.keyed;
        exact = λ x.
            evict_world x (get key s.entries) s.world (org_admin_holds x s.org_admin_db)
              (entries_hold x (delete key s.entries))
              (ap (λ n. org_admin_holds x s.org_admin_db + n)
                  (entries_hold-delete x key s.entries h.keyed)
                ∙ h.exact x);
      }

  org_admin_dialed-IsTight :
      (id : Identifier) (r : Result Db × W) (s : PoolState W)
      → s.org_admin_db ≡ none
      → is_fresh_result is_open r.0 s.world ≡ true
      → ((x : Db) → is_open x r.1 ≡ opens_result is_open r.0 x s.world)
      → IsTight is_open s
      → IsTight is_open (org_admin_dialed b cfg id r s).1
  unfolding org_admin_dialed
  org_admin_dialed-IsTight id (err e, w) s absent fresh opened h = same-IsTight is_open s w opened h
  org_admin_dialed-IsTight id (ok db, w) s absent fresh opened h = record {
    keyed = h.keyed;
    exact = λ x.
        opened_count (nat_beq x db) (is_open x s.world) (entries_hold x s.entries)
          (omega (arith, ap (org_admin_holds x) absent, h.exact x))
          (closed_before is_open db x s.world fresh)
        ∙ ap one_if (sym (opened x))
        ∙ ap one_if (sym (maybe_rotate-is_open b cfg law db id w x));
  }

  org_admin_known-IsTight :
      (id : Identifier) (held : Option Db) (s : PoolState W)
      → s.org_admin_db ≡ held
      → IsTight is_open s
      → IsTight is_open (org_admin_known b cfg id held s).1
  unfolding org_admin_known
  org_admin_known-IsTight id (some db) s e h =
      same-IsTight is_open s _ (maybe_rotate-is_open b cfg law db id s.world) h
  org_admin_known-IsTight id none s e h =
      let dial =
        connect-OpensOne b cfg law id (text "org-admin credentials") (text "org-admin")
          (λ username. text "org-admin " ++ username) (text "tip") cfg.org_admin_account_locator
          cfg.org_admin_account_region (text "GLOBALORGADMIN") in
      org_admin_dialed-IsTight id _ s e (dial.fresh s.world) (λ x. dial.opened x s.world) h

  identified-IsTight :
      {A : Type 0} (r : Result A) (f : A → Action (PoolState W) Db) (s : PoolState W)
      → IsTight is_open s
      → ((a : A) → IsTight is_open (f a s).1)
      → IsTight is_open (proceed (lift r s) f).1
  identified-IsTight (ok a) f s h k = k a
  identified-IsTight (err e) f s h k = h

  pub org_admin-IsTight :
      (s : PoolState W) → IsTight is_open s → IsTight is_open (pool_org_admin_db b cfg s).1
  unfolding pool_org_admin_db
  org_admin-IsTight s h =
      identified-IsTight (new_org_admin_identifier cfg.org cfg.org_admin_account)
        (λ id s'. org_admin_known b cfg id s'.org_admin_db s') s h
        (λ id. org_admin_known-IsTight id s.org_admin_db s refl h)

  stale_world :
      (x db : Db) (entry : Option TenantEntry) (w w' : W) (org rest : ℕ)
      → org + (rest + entry_holds x entry) ≡ one_if (is_open x w)
      → not (is_open db w) ≡ true
      → is_open x w' ≡ (nat_beq x db || is_open x w)
      → org + (one_if (nat_beq x db) + rest) ≡ one_if (is_open x (close_stale b cfg entry w'))
  unfolding close_stale
  stale_world x db none w w' org rest h fresh opened = rw opened (
      omega (
        arith,
        opened_count (nat_beq x db) (is_open x w) (org + rest) (omega arith)
            (closed_before is_open db x w fresh),
      ))
  stale_world x db (some entry) w w' org rest h fresh opened =
      rw (law.closes entry.db w' x, opened)
        (replaced_count (nat_beq x db) (nat_beq x entry.db) (is_open x w) org rest h
          (closed_before is_open db x w fresh))

  tenant_dialed-IsTight :
      (key : TenantKey) (id : Identifier) (locator region : Str) (r : Result Db × W)
      (s : PoolState W)
      → is_fresh_result is_open r.0 s.world ≡ true
      → ((x : Db) → is_open x r.1 ≡ opens_result is_open r.0 x s.world)
      → IsTight is_open s
      → IsTight is_open (tenant_dialed b cfg key id locator region r s).1
  unfolding tenant_dialed install put entries_hold
  tenant_dialed-IsTight key id locator region (err e, w) s fresh opened h =
      same-IsTight is_open s w opened h
  tenant_dialed-IsTight key id locator region (ok db, w) s fresh opened h = record {
    keyed =
        put-IsMap key (record { db = db; locator = locator; region = region }) s.entries h.keyed;
    exact = λ x.
        stale_world x db (get key s.entries) s.world w (org_admin_holds x s.org_admin_db)
          (entries_hold x (delete key s.entries))
          (ap (λ n. org_admin_holds x s.org_admin_db + n)
              (entries_hold-delete x key s.entries h.keyed)
            ∙ h.exact x)
          fresh (opened x)
        ∙ ap one_if (sym (maybe_rotate-is_open b cfg law db id _ x));
  }

  tenant_known-IsTight :
      (key : TenantKey) (id : Identifier) (locator region : Str) (held : Option Db)
      (s : PoolState W)
      → IsTight is_open s
      → IsTight is_open (tenant_known b cfg key id locator region held s).1
  unfolding tenant_known
  tenant_known-IsTight key id locator region (some db) s h =
      same-IsTight is_open s _ (maybe_rotate-is_open b cfg law db id s.world) h
  tenant_known-IsTight key id locator region none s h =
      let dial =
        connect-OpensOne b cfg law id (text "tenant credentials for " ++ whose key) (whose key)
          (λ _. whose key) (text "debugging tip") locator region (text "ACCOUNTADMIN") in
      tenant_dialed-IsTight key id locator region _ s (dial.fresh s.world)
        (λ x. dial.opened x s.world) h

  pub tenant-IsTight :
      (namespace account_name locator region : Str) (s : PoolState W)
      → IsTight is_open s
      → IsTight is_open (pool_tenant_db b cfg namespace account_name locator region s).1
  unfolding pool_tenant_db
  tenant-IsTight namespace account_name locator region s h =
      let key = tenant_key namespace account_name in
      identified-IsTight (new_tenant_identifier cfg.org namespace account_name)
        (λ id s'.
          tenant_known b cfg key id locator region (cached_tenant key locator region s'.entries) s')
        s h
        (λ id.
          tenant_known-IsTight key id locator region (cached_tenant key locator region s.entries) s
            h)

-- How often a list holds a connection.
list_holds : Db → List Db → ℕ
list_holds x [] = 0
list_holds x (db ∷ dbs) = one_if (nat_beq x db) + list_holds x dbs

list_holds-entries :
    (x : Db) (entries : Dict TenantKey TenantEntry)
    → list_holds x (map (λ (p : TenantKey × TenantEntry). p.1.db) entries) ≡ entries_hold x entries
unfolding list_holds entries_hold
list_holds-entries x [] = refl
list_holds-entries x ((key, entry) ∷ entries) = omega (arith, list_holds-entries x entries)

module _ {W : Type 0} (is_open : Db → W → Bool) (close_db : Db → Action W (Unit {0}))
    (closes : (db : Db) (w : W) (x : Db)
      → is_open x (close_db db w).1 ≡ (not (nat_beq x db) && is_open x w)) where
  attempt_all-closes :
      (x : Db) (dbs : List Db) (w : W)
      → list_holds x dbs ≡ one_if (is_open x w)
      → one_if (is_open x (attempt_all close_db dbs w)) ≡ 0
  unfolding attempt_all list_holds
  attempt_all-closes x [] w h = sym h
  attempt_all-closes x (db ∷ dbs) w h = attempt_all-closes x dbs (close_db db w).1 (
      rw (closes db w x) (
        omega
          (arith, closed_count (nat_beq x db) (is_open x w) 0 (list_holds x dbs) (omega arith))))

  held_by :
      (x : Db) (org_admin_db : Option Db) (entries : Dict TenantKey TenantEntry) (w : W)
      → list_holds x (
          open_databases close_db
            (record { org_admin_db = org_admin_db; entries = entries; world = w }))
        ≡ org_admin_holds x org_admin_db + entries_hold x entries
  unfolding open_databases list_holds
  held_by x none entries w = omega (arith, list_holds-entries x entries)
  held_by x (some db) entries w = omega (arith, list_holds-entries x entries)

  pub close-IsTight :
      (s : PoolState W) → IsTight is_open s → IsTight is_open (pool_close close_db s).1
  unfolding entries_hold attempt_all
  close-IsTight s h = rw (pool_close-attempts close_db s).0 (record {
    keyed = tt;
    exact = λ x. omega (
      arith,
      attempt_all-closes x (open_databases close_db s) s.world
          (held_by x s.org_admin_db s.entries s.world ∙ h.exact x),
    );
  })
