-- ===== src/Tests/Pools.antt =====
-- Goroutines of the pool in one schedule.
use yukimi.Snowflake.Pool.Locks.Safety.{
  mutual_exclusion, entries_open, no_leak, CanMove, no_deadlock,
}
use yukimi.Snowflake.Pool.Locks.{
  update, Shared, key_lock, Request, fetch, evict, Pc, idle, waiting, entered, missed, dialed,
  leaving, opened, owned_by, arrive, lock, miss, dial, install, step, Reach, start, later, inside,
  carried,
}
use yukimi.Snowflake.Pool.Cache.{
  tenant_key_eq, TenantKey, tenant_key_beq, TenantEntry, cached_tenant, tenant_key,
}
use yukimi.Base.{
  nat_beq, str_beq, get, delete, put, ℕ, ◌≡◌, refl, ◌⊎◌, true, false, none, some, [], ◌∷◌, arith,
}

abbrev key : TenantKey
key = tenant_key (b't' ∷ []) (b's' ∷ [])

abbrev frankfurt : Request
frankfurt = fetch (b'l' ∷ []) (b'r' ∷ [])

abbrev locked_once : Shared
locked_once = record {
  entries = [];
  key_locks = (key, 0) ∷ [];
  next_mutex = 1;
  owner = λ l. none;
  is_open = λ db. false;
}

abbrev pc_waiting : ℕ → Pc
pc_waiting = update (λ i. idle) 0 (waiting key frankfurt 0)

arrived : Reach (record { mem = locked_once; pc = pc_waiting })
unfolding key_lock put delete get
arrived = later start (step 0 (arrive key frankfurt))

abbrev held_once : Shared
held_once = owned_by (some 0) 0 locked_once

abbrev pc_entered : ℕ → Pc
pc_entered = update pc_waiting 0 (entered key frankfurt 0)

locked : Reach (record { mem = held_once; pc = pc_entered })
locked = later arrived (step 0 (lock refl))

abbrev pc_missed : ℕ → Pc
pc_missed = update pc_entered 0 (missed key (b'l' ∷ []) (b'r' ∷ []) 0)

searched : Reach (record { mem = held_once; pc = pc_missed })
unfolding cached_tenant get
searched = later locked (step 0 (miss refl))

abbrev pc_dialed : ℕ → Pc
pc_dialed = update pc_missed 0 (dialed key (b'l' ∷ []) (b'r' ∷ []) 0 7)

connected : Reach (record { mem = opened 7 held_once; pc = pc_dialed })
connected = later searched (step 0 (dial 7 refl))

mutual_exclusion_example : ◌≡◌ {A = ℕ} 0 0
mutual_exclusion_example = mutual_exclusion connected 0 0 key refl refl

-- A second goroutine waits for the same mutex.
abbrev pc_queued : ℕ → Pc
pc_queued = update pc_dialed 1 (waiting key evict 0)

queued : Reach (record { mem = opened 7 held_once; pc = pc_queued })
unfolding key_lock get str_beq tenant_key_beq
queued = later connected (step 1 (arrive key evict))

no_deadlock_example :
    CanMove (opened 7 held_once) 1 (pc_queued 1)
    ⊎ ((j : ℕ) × (inside (pc_queued j) ≡ some (key, 0))
        × CanMove (opened 7 held_once) j (pc_queued j))
no_deadlock_example = no_deadlock queued 1 refl

abbrev seven : TenantEntry
seven = record { db = 7; locator = b'l' ∷ []; region = b'r' ∷ [] }

abbrev with_entry : Shared
with_entry = record (opened 7 held_once) { entries = (key, seven) ∷ [] }

abbrev pc_leaving : ℕ → Pc
pc_leaving = update pc_dialed 0 (leaving key 0)

installed : Reach (record { mem = with_entry; pc = pc_leaving })
unfolding get put delete
installed = later connected (step 0 install)

entry_found : get key with_entry.entries ≡ some seven
unfolding get str_beq tenant_key_beq
entry_found = refl

entries_open_example : (with_entry.is_open 7 ≡ true) × (nat_beq 7 7 ≡ tenant_key_beq key key)
entries_open_example = entries_open installed key key seven seven entry_found entry_found

empty_hands : (i : ℕ) → carried (pc_leaving i) ≡ none
empty_hands i = ground arith

no_leak_example :
    (k : TenantKey) × (e : TenantEntry) × (get k with_entry.entries ≡ some e) × (e.db ≡ 7)
no_leak_example = no_leak installed empty_hands 7 refl
