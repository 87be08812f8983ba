-- ===== src/Snowflake/Pool/Locks.antt =====
-- The locks of internal/snowflake/pool/pool.go: goroutines that call TenantDB and EvictTenant at
-- once. A step is one critical section of a mutex, or one call between two of them. Close, which
-- runs once when the others have ended, and the org-admin connection, which has a mutex of its own,
-- are left out here.
pub mod Places
pub mod Owners
pub mod Holdings
pub mod Moves
pub mod Safety
pub mod Alone
use yukimi.Snowflake.Pool.Cache.{tenant_key_eq, TenantKey, TenantEntry, cached_tenant}
use yukimi.Account.ResourceData.{Db}
use yukimi.Base.{
  nat_beq, if◌then◌else◌, Str, Dict, get, delete, put, ℕ, suc, ◌≡◌, Bool, true, false, Option, none,
  some, [],
}

-- A `*sync.Mutex`, as the number of its allocation
abbrev pub Mutex : Type 0
Mutex = ℕ

abbrev pub update {ℓ} : {A : Type ℓ} → (ℕ → A) → ℕ → A → ℕ → A
update f i v j = if nat_beq j i then v else f j

-- What goroutines share: the fields of `Pool`, who holds which mutex, and which connections the
-- driver has open.
pub record Shared : Type 0 where
  pub entries : Dict TenantKey TenantEntry
  pub key_locks : Dict TenantKey Mutex
  pub next_mutex : Mutex
  pub owner : Mutex → Option ℕ
  pub is_open : Db → Bool

allocated : TenantKey → Shared → Mutex × Shared
allocated key m = (
  m.next_mutex,
  record m { key_locks = put key m.next_mutex m.key_locks; next_mutex = suc m.next_mutex },
)

found_lock : TenantKey → Option Mutex → Shared → Mutex × Shared
unfolding allocated
found_lock key (some l) m = (l, m)
found_lock key none m = allocated key m

-- `Pool.keyLock`
unfoldable pub key_lock : TenantKey → Shared → Mutex × Shared
unfolding found_lock
key_lock key m = found_lock key (get key m.key_locks) m

-- `TenantDB` with a locator and a region, or `EvictTenant`
pub data Request : Type 0 where
  fetch : Str → Str → Request
  evict : Request

-- Where a goroutine stands, with its key and mutex and the connection in its hands.
pub data Pc : Type 0 where
  idle : Pc
  waiting : TenantKey → Request → Mutex → Pc
  entered : TenantKey → Request → Mutex → Pc
  missed : TenantKey → Str → Str → Mutex → Pc
  dialed : TenantKey → Str → Str → Mutex → Db → Pc
  stale : TenantKey → Mutex → Db → Pc
  leaving : TenantKey → Mutex → Pc

abbrev pub opened : Db → Shared → Shared
opened db m = record m { is_open = update m.is_open db true }

abbrev pub shut : Db → Shared → Shared
shut db m = record m { is_open = update m.is_open db false }

abbrev pub owned_by : Option ℕ → Mutex → Shared → Shared
owned_by i l m = record m { owner = update m.owner l i }

-- After the entry was replaced or deleted: the old one, if any, is still to be closed.
abbrev behind_entry : TenantKey → Mutex → Option TenantEntry → Pc
behind_entry key l none = leaving key l
behind_entry key l (some entry) = stale key l entry.db

-- One step of goroutine `i`.
pub data Move (i : ℕ) (m : Shared) : Pc → Shared → Pc → Type 0 where
  -- `p.keyLock(key)`
  arrive :
      (key : TenantKey) (r : Request)
      → Move i m idle (key_lock key m).1 (waiting key r (key_lock key m).0)
  -- `lock.Lock()` returns
  lock :
      {key : TenantKey} {r : Request} {l : Mutex}
      → m.owner l ≡ none
      → Move i m (waiting key r l) (owned_by (some i) l m) (entered key r l)
  -- `p.cachedTenant`, and the return of what it finds
  hit :
      {key : TenantKey} {locator region : Str} {l : Mutex} (db : Db)
      → cached_tenant key locator region m.entries ≡ some db
      → Move i m (entered key (fetch locator region) l) m (leaving key l)
  miss :
      {key : TenantKey} {locator region : Str} {l : Mutex}
      → cached_tenant key locator region m.entries ≡ none
      → Move i m (entered key (fetch locator region) l) m (missed key locator region l)
  -- the host, the credentials, the key or `p.dial` fails
  fail :
      {key : TenantKey} {locator region : Str} {l : Mutex}
      → Move i m (missed key locator region l) m (leaving key l)
  -- `p.dial` opens a new connection
  dial :
      {key : TenantKey} {locator region : Str} {l : Mutex} (db : Db)
      → m.is_open db ≡ false
      → Move i m (missed key locator region l) (opened db m) (dialed key locator region l db)
  -- the section of `entriesMu` that replaces the entry
  install :
      {key : TenantKey} {locator region : Str} {l : Mutex} {db : Db}
      → Move i m
          (dialed key locator region l db)
          (record m {
            entries = put key (record { db = db; locator = locator; region = region }) m.entries;
          })
          (behind_entry key l (get key m.entries))
  -- the section of `entriesMu` that deletes the entry
  remove :
      {key : TenantKey} {l : Mutex}
      → Move i m
          (entered key evict l)
          (record m { entries = delete key m.entries })
          (behind_entry key l (get key m.entries))
  -- `stale.db.Close()`, `entry.db.Close()`
  close :
      {key : TenantKey} {l : Mutex} {db : Db}
      → Move i m (stale key l db) (shut db m) (leaving key l)
  -- the deferred `lock.Unlock()`
  unlock : {key : TenantKey} {l : Mutex} → Move i m (leaving key l) (owned_by none l m) idle

pub record System : Type 0 where
  pub mem : Shared
  pub pc : ℕ → Pc

pub data Step (s : System) : System → Type 0 where
  step :
      (i : ℕ) {m : Shared} {p : Pc}
      → Move i s.mem (s.pc i) m p
      → Step s (record { mem = m; pc = update s.pc i p })

-- `New`
abbrev pub new_shared : Shared
new_shared = record {
  entries = [];
  key_locks = [];
  next_mutex = 0;
  owner = λ l. none;
  is_open = λ db. false;
}

pub data Reach : System → Type 0 where
  start : Reach (record { mem = new_shared; pc = λ i. idle })
  later : {s t : System} → Reach s → Step s t → Reach t

-- The key for which a goroutine is between `lock.Lock()` and `lock.Unlock()`, and its mutex.
abbrev pub inside : Pc → Option (TenantKey × Mutex)
inside idle = none
inside (waiting key r l) = none
inside (entered key r l) = some (key, l)
inside (missed key locator region l) = some (key, l)
inside (dialed key locator region l db) = some (key, l)
inside (stale key l db) = some (key, l)
inside (leaving key l) = some (key, l)

-- A connection that is open in the hands of a goroutine alone.
abbrev pub carried : Pc → Option Db
carried (dialed key locator region l db) = some db
carried (stale key l db) = some db
carried p = none
