-- ===== src/Snowflake/Pool/Locks/Alone.antt =====
-- A goroutine that meets no other: the steps of internal/snowflake/pool/pool.go between the mutexes
-- add up to the calls as Snowflake/Pool/Cache has them.
use yukimi.Snowflake.Pool.Rotation.{maybe_rotate}
use yukimi.Snowflake.Pool.Locks.Owners.{key_lock-rest}
use yukimi.Snowflake.Pool.Locks.{
  Mutex, Shared, key_lock, Request, fetch, evict, Pc, idle, waiting, entered, leaving, opened, shut,
  owned_by, behind_entry, Move, lock, hit, miss, dial, install, remove, close, unlock,
}
use yukimi.Snowflake.Pool.Leaks.Keeps.{IsTidy, maybe_rotate-is_open, connect-OpensOne}
use yukimi.Snowflake.Pool.Connect.Probe.{opens_result, is_fresh_result}
use yukimi.Snowflake.Pool.Backend.{PoolConfig, PoolBackend}
use yukimi.Snowflake.Pool.Cache.{
  tenant_key_eq, TenantKey, TenantEntry, PoolState, cached_tenant, tenant_key, whose, connect,
  close_stale, tenant_dialed, tenant_known, pool_tenant_db, pool_evict_tenant,
}
use yukimi.Secrets.Identifier.{Identifier, new_tenant_identifier}
use yukimi.Account.ResourceData.{Db}
use yukimi.Errors.{Result, ok, err}
use yukimi.Base.{
  Str, text, get, delete, put, ℕ, ◌≡◌, refl, sym, ap, ◌∙◌, Bool, true, false, Option, none, some,
  ◌++◌, arith,
}

abbrev pub is_busy : Pc → Bool
is_busy idle = false
is_busy p = true

-- Steps of goroutine `i` alone within one call: none is taken after the call has ended.
pub data Alone (i : ℕ) (m : Shared) (p : Pc) : Shared → Pc → Type 0 where
  still : Alone i m p m p
  then_move :
      {m' m'' : Shared} {p' p'' : Pc}
      → Alone i m p m' p'
      → is_busy p' ≡ true
      → Move i m' p' m'' p''
      → Alone i m p m'' p''

-- What is shared and a state of the pool agree in the entries and the open connections.
pub record Mirrors {W : Type 0} (is_open : Db → W → Bool) (m : Shared) (s : PoolState W)
    : Type 0 where
  pub same_entries : m.entries ≡ s.entries
  pub same_open : (x : Db) → m.is_open x ≡ is_open x s.world

-- One call with a key and a request, from its arrival at the mutex of the key to its end outside it,
-- and what it leaves.
abbrev pub Carries :
    {W : Type 0}
    → (is_open : Db → W → Bool) → ℕ
    → TenantKey
    → Request
    → Shared
    → PoolState W
    → Type 0
Carries is_open i key r m s =
    (m' : Shared) × Alone i (key_lock key m).1 (waiting key r (key_lock key m).0) m' idle
    × Mirrors is_open m' s

closed_behind : Option TenantEntry → Shared → Shared
closed_behind none m = m
closed_behind (some e) m = shut e.db m

module _ (i : ℕ) (key : TenantKey) (m : Shared) (free : m.owner (key_lock key m).0 ≡ none) where
  abbrev mutex : Mutex
  mutex = (key_lock key m).0

  abbrev held : Shared
  held = owned_by (some i) mutex (key_lock key m).1

  -- The steps of a call that has arrived.
  abbrev Called : Request → Shared → Pc → Type 0
  Called r m' p = Alone i (key_lock key m).1 (waiting key r mutex) m' p

  enters : (r : Request) → Called r held (entered key r mutex)
  enters r = then_move still refl (lock (ap (λ f. f mutex) (key_lock-rest key m).2 ∙ free))

  leaves_stale :
      (r : Request) {m' : Shared} (c : Option TenantEntry)
      → Called r m' (behind_entry key mutex c)
      → Called r (owned_by none mutex (closed_behind c m')) idle
  unfolding closed_behind
  leaves_stale r none a = then_move a refl unlock
  leaves_stale r (some e) a = then_move (then_move a refl close) refl unlock

module _ {W : Type 0} (b : PoolBackend W) (cfg : PoolConfig) {is_open : Db → W → Bool}
    (law : IsTidy b is_open) (i : ℕ) (key : TenantKey) (m : Shared)
    (free : m.owner (key_lock key m).0 ≡ none) (s : PoolState W) (same : Mirrors is_open m s) where
  held_entries : (held i key m free).entries ≡ s.entries
  held_entries = (key_lock-rest key m).0 ∙ same.same_entries

  held_open : (x : Db) → (held i key m free).is_open x ≡ is_open x s.world
  held_open x = ap (λ f. f x) (key_lock-rest key m).1 ∙ same.same_open x

  closed_open :
      (c : Option TenantEntry) (m' : Shared) (w : W)
      → ((x : Db) → m'.is_open x ≡ is_open x w)
      → (x : Db) → (closed_behind c m').is_open x ≡ is_open x (close_stale b cfg c w)
  unfolding closed_behind close_stale
  closed_open none m' w h x = h x
  closed_open (some e) m' w h x = ground (arith, law.closes e.db w x, h x)

  closed_entries :
      (c : Option TenantEntry) (m' : Shared) → (closed_behind c m').entries ≡ m'.entries
  unfolding closed_behind
  closed_entries none m' = refl
  closed_entries (some e) m' = refl

  quiet_call :
      (r : Request) (m' : Shared) (w : W)
      → Called i key m free r m' (leaving key (mutex i key m free))
      → m'.entries ≡ s.entries
      → ((x : Db) → m'.is_open x ≡ is_open x w)
      → Carries is_open i key r m (record s { world = w })
  quiet_call r m' w a entries open_in = (
    owned_by none (mutex i key m free) m',
    then_move a refl unlock,
    record { same_entries = entries; same_open = open_in },
  )

  still_absent :
      (locator region : Str)
      → cached_tenant key locator region s.entries ≡ none
      → cached_tenant key locator region (held i key m free).entries ≡ none
  still_absent locator region absent = ap (cached_tenant key locator region) held_entries ∙ absent

  dialed_alone :
      (id : Identifier) (locator region : Str) (r : Result Db × W)
      → cached_tenant key locator region s.entries ≡ none
      → is_fresh_result is_open r.0 s.world ≡ true
      → ((x : Db) → is_open x r.1 ≡ opens_result is_open r.0 x s.world)
      → Carries is_open i key
          (fetch locator region)
          m
          (tenant_dialed b cfg key id locator region r s).1
  unfolding tenant_dialed put
  dialed_alone id locator region (err e, w) absent fresh opened_in =
      quiet_call (fetch locator region) (held i key m free) w
        (then_move
          (then_move (enters i key m free (fetch locator region)) refl
            (miss (still_absent locator region absent)))
          refl Move.fail)
        held_entries (λ x. held_open x ∙ sym (opened_in x))
  dialed_alone id locator region (ok db, w) absent fresh opened_in =
      let l = mutex i key m free in
      let before = held i key m free in
      let closed : before.is_open db ≡ false = held_open db ∙ ground arith in
      let entry : TenantEntry = record { db = db; locator = locator; region = region } in
      let after : Shared = record (opened db before) { entries = put key entry before.entries } in
      let old = get key before.entries in
      let path : Called i key m free (fetch locator region) after (behind_entry key l old) =
        then_move
          (then_move
            (then_move (enters i key m free (fetch locator region)) refl
              (miss (still_absent locator region absent)))
            refl (dial db closed))
          refl install in
      let open_after : (x : Db) → after.is_open x ≡ is_open x w =
        λ x. ground (arith, held_open x, opened_in x) in
      (
        owned_by none l (closed_behind old after),
        leaves_stale i key m free (fetch locator region) old path,
        record {
          same_entries = closed_entries old after ∙ ap (put key entry) held_entries;
          same_open = λ x.
              closed_open old after w open_after x
              ∙ ap (λ es. is_open x (close_stale b cfg (get key es) w)) held_entries
              ∙ sym (
                  maybe_rotate-is_open b cfg law db id (close_stale b cfg (get key s.entries) w) x);
        },
      )

  known_alone :
      (id : Identifier) (locator region : Str) (c : Option Db)
      → cached_tenant key locator region s.entries ≡ c
      → Carries is_open i key
          (fetch locator region)
          m
          (tenant_known b cfg key id locator region c s).1
  unfolding tenant_known
  known_alone id locator region (some db) found =
      quiet_call (fetch locator region) (held i key m free) (maybe_rotate b cfg db id s.world)
        (then_move (enters i key m free (fetch locator region)) refl
          (hit db (ap (cached_tenant key locator region) held_entries ∙ found)))
        held_entries (λ x. held_open x ∙ sym (maybe_rotate-is_open b cfg law db id s.world x))
  known_alone id locator region none absent =
      let connection =
        connect-OpensOne b cfg law id (text "tenant credentials for " ++ whose key) (whose key)
          (λ _. whose key) (text "debugging tip") locator region (text "ACCOUNTADMIN") in
      dialed_alone id locator region
        (connect b cfg id (text "tenant credentials for " ++ whose key) (whose key) (λ _. whose key)
          (text "debugging tip") locator region (text "ACCOUNTADMIN") s.world)
        absent (connection.fresh s.world) (λ x. connection.opened x s.world)

  evicted_alone : Carries is_open i key evict m (record s {
    entries = delete key s.entries;
    world = close_stale b cfg (get key s.entries) s.world;
  })
  evicted_alone =
      let before = held i key m free in
      let old = get key before.entries in
      let after : Shared = record before { entries = delete key before.entries } in
      let path : Called i key m free evict after (behind_entry key (mutex i key m free) old) =
        then_move (enters i key m free evict) refl remove in
      (
        owned_by none (mutex i key m free) (closed_behind old after),
        leaves_stale i key m free evict old path,
        record {
          same_entries = closed_entries old after ∙ ap (delete key) held_entries;
          same_open = λ x.
              closed_open old after s.world held_open x
              ∙ ap (λ es. is_open x (close_stale b cfg (get key es) s.world)) held_entries;
        },
      )

-- Where the mutex of a key is free, the shared fields are those of a pool and the tenant has an
-- identifier, a goroutine that calls TenantDB with the key, and meets no other, can go step by step
-- from its arrival at that mutex to the end of the call; so can one that calls EvictTenant. What
-- it leaves is what the call as one step leaves: the same entries and the same connections open.
pub calls_refine :
    {W : Type 0} (b : PoolBackend W) (cfg : PoolConfig) (is_open : Db → W → Bool)
    (law : IsTidy b is_open) (namespace account_name locator region : Str) (id : Identifier) (i : ℕ)
    (m : Shared) (s : PoolState W)
    → new_tenant_identifier cfg.org namespace account_name ≡ ok id
    → m.owner (key_lock (tenant_key namespace account_name) m).0 ≡ none
    → Mirrors is_open m s
    → let key = tenant_key namespace account_name in
      Carries is_open i key
        (fetch locator region)
        m
        (pool_tenant_db b cfg namespace account_name locator region s).1
      × Carries is_open i key evict m (pool_evict_tenant b cfg namespace account_name s)
unfolding pool_tenant_db pool_evict_tenant
calls_refine b cfg is_open law namespace account_name locator region id i m s h free same =
    let key = tenant_key namespace account_name in
    (
      rw h (
          known_alone b cfg law i key m free s same id locator region
            (cached_tenant key locator region s.entries) refl),
      evicted_alone b cfg law i key m free s same,
    )
