-- ===== src/Snowflake/Pool/Locks/Holdings.antt =====
-- Where the connections of internal/snowflake/pool are: in an entry, or in a goroutine's hands.
use yukimi.Snowflake.Pool.Locks.Owners.{same_at}
use yukimi.Snowflake.Pool.Locks.Places.{Exact, acquire, release, swapped, swap, Exact-same}
use yukimi.Snowflake.Pool.Locks.{Mutex, update, Shared, Pc, opened, shut, behind_entry, carried}
use yukimi.Snowflake.Pool.Cache.{
  tenant_key_eq, TenantKey, tenant_key_beq, tenant_key_beq_iff, TenantEntry,
}
use yukimi.Account.ResourceData.{Db}
use yukimi.Base.{
  nat_beq, if◌then◌else◌, nat_beq_iff, Bool-cases, Eq, Dict, get, delete, put, get-delete, get-put,
  ℕ, ◌≡◌, refl, ap, ◌∙◌, ◌↔◌, inl, inr, Bool, true, false, Option, none, some, arith,
}

pub data Place : Type 0 where
  entry : TenantKey → Place
  hands : ℕ → Place

abbrev pub place_beq : Place → Place → Bool
place_beq (entry k) (entry j) = tenant_key_beq k j
place_beq (entry k) (hands j) = false
place_beq (hands i) (entry j) = false
place_beq (hands i) (hands j) = nat_beq i j

pub place_beq_iff : (p q : Place) → (place_beq p q ≡ true) ↔ (p ≡ q)
place_beq_iff (entry k) (entry j) = ground (arith, tenant_key_beq_iff k j)
place_beq_iff (entry k) (hands j) = ground arith
place_beq_iff (hands i) (entry j) = ground arith
place_beq_iff (hands i) (hands j) = ground (arith, nat_beq_iff i j)

instance abbrev pub place_eq : Eq Place
place_eq = record { beq = place_beq; beq_iff = place_beq_iff }

abbrev pub entry_db : Option TenantEntry → Option Db
entry_db none = none
entry_db (some e) = some e.db

abbrev pub holdings : Shared → (ℕ → Pc) → Place → Option Db
holdings m pc (entry key) = entry_db (get key m.entries)
holdings m pc (hands i) = carried (pc i)

-- A step that touches no connection.
pub Exact-quiet :
    (m m' : Shared) (pc : ℕ → Pc) (i : ℕ) (p' : Pc)
    → Exact (holdings m pc) m.is_open
    → m'.entries ≡ m.entries
    → carried p' ≡ carried (pc i)
    → Exact (holdings m' (update pc i p')) m.is_open
Exact-quiet m m' pc i p' x same_entries same_hands = Exact-same x quiet
  where
    quiet : (r : Place) → holdings m' (update pc i p') r ≡ holdings m pc r
    quiet (entry key) = ap (λ es. entry_db (get key es)) same_entries
    quiet (hands j) = same_at carried pc i p' j same_hands

elsewhere : (pc : ℕ → Pc) (i : ℕ) (p' : Pc) (j : ℕ) → nat_beq j i ≡ false → update pc i p' j ≡ pc j
elsewhere pc i p' j h = rw h refl

at_hand : (pc : ℕ → Pc) (i : ℕ) (p' : Pc) → update pc i p' i ≡ p'
at_hand pc i p' = rw ((nat_beq_iff i i).1 refl) refl

-- A step in which only the hands of `i` change.
only_hands :
    (m m' : Shared) (pc : ℕ → Pc) (i : ℕ) (p' : Pc)
    → m'.entries ≡ m.entries
    → (q : Place) → place_beq q (hands i) ≡ false
    → holdings m' (update pc i p') q ≡ holdings m pc q
only_hands m m' pc i p' same (entry key) h = ap (λ es. entry_db (get key es)) same
only_hands m m' pc i p' same (hands j) h = ap carried (elsewhere pc i p' j h)

pub Exact-dial :
    (m : Shared) (pc : ℕ → Pc) (i : ℕ) (p' : Pc) (db : Db)
    → Exact (holdings m pc) m.is_open
    → carried (pc i) ≡ none
    → m.is_open db ≡ false
    → carried p' ≡ some db
    → Exact (holdings (opened db m) (update pc i p')) (update m.is_open db true)
Exact-dial m pc i p' db x empty closed now =
    acquire x (hands i) db (only_hands m (opened db m) pc i p' refl) empty closed
      (ap carried (at_hand pc i p') ∙ now)

pub Exact-close :
    (m : Shared) (pc : ℕ → Pc) (i : ℕ) (p' : Pc) (db : Db)
    → Exact (holdings m pc) m.is_open
    → carried (pc i) ≡ some db
    → carried p' ≡ none
    → Exact (holdings (shut db m) (update pc i p')) (update m.is_open db false)
Exact-close m pc i p' db x full now =
    release x (hands i) db (only_hands m (shut db m) pc i p' refl) full
      (ap carried (at_hand pc i p') ∙ now)

pub carried-behind_entry :
    (key : TenantKey) (l : Mutex) (c : Option TenantEntry)
    → carried (behind_entry key l c) ≡ entry_db c
carried-behind_entry key l none = refl
carried-behind_entry key l (some e) = refl

-- A step in which an entry takes what the hands of `i` hold, and these take what it held.
pub Exact-exchange :
    (m : Shared) (pc : ℕ → Pc) (i : ℕ) (p' : Pc) (key : TenantKey)
    (entries : Dict TenantKey TenantEntry)
    → Exact (holdings m pc) m.is_open
    → ((k : TenantKey)
        → entry_db (get k entries)
          ≡ (if tenant_key_beq key k then carried (pc i) else entry_db (get k m.entries)))
    → carried p' ≡ entry_db (get key m.entries)
    → Exact (holdings (record m { entries = entries }) (update pc i p')) m.is_open
Exact-exchange m pc i p' key entries x written taken = swap (entry key) (hands i) x exchanged
  where
    exchanged :
        (r : Place)
        → holdings (record m { entries = entries }) (update pc i p') r
          ≡ holdings m pc (swapped (entry key) (hands i) r)
    exchanged (entry k) =
        ground (arith, written k, tenant_key_beq_iff key k, tenant_key_beq_iff k key)
    exchanged (hands j) = elim (Bool-cases (nat_beq j i)) [
      | inl here ↦ rw here taken
      | inr there ↦ rw there refl
    ]

pub entry_written :
    (key k : TenantKey) (e : TenantEntry) (m : Dict TenantKey TenantEntry)
    → entry_db (get k (put key e m))
      ≡ (if tenant_key_beq key k then some e.db else entry_db (get k m))
entry_written key k e m = ground (arith, get-put key k e m)

pub entry_removed :
    (key k : TenantKey) (m : Dict TenantKey TenantEntry)
    → entry_db (get k (delete key m)) ≡ (if tenant_key_beq key k then none else entry_db (get k m))
entry_removed key k m = ground (arith, get-delete key k m)
