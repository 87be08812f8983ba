-- ===== src/Snowflake/Pool/Locks/Safety.antt =====
-- What holds whatever way goroutines interleave in internal/snowflake/pool/pool.go.
use yukimi.Snowflake.Pool.Locks.Holdings.{Place, entry, hands, entry_db, holdings}
use yukimi.Snowflake.Pool.Locks.Owners.{asked}
use yukimi.Snowflake.Pool.Locks.Moves.{Inv, Inv-start, Move-Inv}
use yukimi.Snowflake.Pool.Locks.{
  Mutex, Shared, Request, fetch, evict, Pc, idle, waiting, entered, missed, dialed, stale, leaving,
  owned_by, Move, lock, hit, miss, fail, install, remove, close, unlock, System, step, Reach, start,
  later, inside, carried,
}
use yukimi.Snowflake.Pool.Cache.{
  tenant_key_eq, TenantKey, tenant_key_beq, tenant_key_beq_iff, TenantEntry, cached_tenant,
}
use yukimi.Account.ResourceData.{Db}
use yukimi.Base.{
  nat_beq, nat_beq_iff, Option-cases, some_inj, some-not-none, get, ℕ, ◌≡◌, refl, sym, ap, subst,
  ◌∙◌, ◌⊎◌, inl, inr, true, Option, none, some, arith,
}

pub Reach-Inv : {s : System} → Reach s → Inv s.mem s.pc
Reach-Inv start = Inv-start
Reach-Inv (later r (step i mv)) = Move-Inv (Reach-Inv r) i mv refl

asked-inside :
    {key : TenantKey} {l : Mutex} (p : Pc) → inside p ≡ some (key, l) → asked p ≡ some (key, l)
asked-inside idle h = h
asked-inside (waiting k r x) h = cc
asked-inside (entered k r x) h = h
asked-inside (missed k locator region x) h = h
asked-inside (dialed k locator region x db) h = h
asked-inside (stale k x db) h = h
asked-inside (leaving k x) h = h

-- In every reachable state at most one goroutine is between the lock and the unlock of a key: no
-- two dial, replace or evict one tenant's connection at once.
pub mutual_exclusion :
    {s : System} {l l' : Mutex}
    → Reach s
    → (i j : ℕ) (key : TenantKey) → inside (s.pc i) ≡ some (key, l)
    → inside (s.pc j) ≡ some (key, l')
    → i ≡ j
mutual_exclusion {s} {l} {l'} r i j key in_i in_j =
    let o = (Reach-Inv r).owned in
    let same : l ≡ l' = some_inj (
      sym (o.known i key l (asked-inside (s.pc i) in_i))
      ∙ o.known j key l' (asked-inside (s.pc j) in_j)) in
    some_inj (sym (o.owns i key l in_i) ∙ ap s.mem.owner same ∙ o.owns j key l' in_j)

entry_key : Place → TenantKey → TenantKey
entry_key (entry k) other = k
entry_key (hands i) other = other

-- In every reachable state each connection that the pool has an entry for is open, and two entries
-- share a connection exactly if their keys are the same.
pub entries_open :
    {s : System} (r : Reach s) (key key' : TenantKey) (e e' : TenantEntry)
    → get key s.mem.entries ≡ some e
    → get key' s.mem.entries ≡ some e'
    → (s.mem.is_open e.db ≡ true) × (nat_beq e.db e'.db ≡ tenant_key_beq key key')
unfolding entry_key
entries_open {s} r key key' e e' h h' =
    let x = (Reach-Inv r).exact in
    (
      x.live (entry key) e.db (ap entry_db h),
      ground (
        arith,
        tenant_key_beq_iff key key',
        nat_beq_iff e.db e'.db,
        ap entry_db h,
        ap entry_db h',
        x.unique (entry key) (entry key') e.db,
      ),
    )

held_entry :
    (c : Option TenantEntry) (db : Db)
    → entry_db c ≡ some db
    → (e : TenantEntry) × (c ≡ some e) × (e.db ≡ db)
held_entry none db h = cc
held_entry (some e) db h = (e, refl, some_inj h)

in_entry :
    (m : Shared) (pc : ℕ → Pc) (db : Db) (p : Place)
    → ((i : ℕ) → carried (pc i) ≡ none)
    → holdings m pc p ≡ some db
    → (key : TenantKey) × (e : TenantEntry) × (get key m.entries ≡ some e) × (e.db ≡ db)
in_entry m pc db (entry key) quiet h =
    let (e, found, same) = held_entry (get key m.entries) db h in (key, e, found, same)
in_entry m pc db (hands i) quiet h = some-not-none (sym h ∙ quiet i)

-- In every reachable state in which no goroutine is between a dial and its entry or between an
-- entry and its close, each connection that is open is in an entry of the pool: no interleaving
-- leaks one.
pub no_leak :
    {s : System}
    → Reach s
    → ((i : ℕ) → carried (s.pc i) ≡ none)
    → (db : Db) → s.mem.is_open db ≡ true
    → (key : TenantKey) × (e : TenantEntry) × (get key s.mem.entries ≡ some e) × (e.db ≡ db)
no_leak {s} r quiet db h =
    let (p, k) = (Reach-Inv r).exact.found db h in in_entry s.mem s.pc db p quiet k

-- Goroutine `j` has a step that it can make.
pub CanMove : Shared → ℕ → Pc → Type 0
CanMove m j p = (m' : Shared) × (p' : Pc) × Move j m p m' p'

inside-CanMove :
    (m : Shared) (j : ℕ) (p : Pc) (key : TenantKey) (l : Mutex)
    → inside p ≡ some (key, l)
    → CanMove m j p
unfolding CanMove
inside-CanMove m j idle key l h = cc
inside-CanMove m j (waiting k r x) key l h = cc
inside-CanMove m j (entered k (fetch locator region) x) key l h =
    elim (Option-cases (cached_tenant k locator region m.entries)) [
      | inl absent ↦ (m, missed k locator region x, miss absent)
      | inr (db, found) ↦ (m, leaving k x, hit db found)
    ]
inside-CanMove m j (entered k evict x) key l h = (_, _, remove)
inside-CanMove m j (missed k locator region x) key l h = (_, _, fail)
inside-CanMove m j (dialed k locator region x db) key l h = (_, _, install)
inside-CanMove m j (stale k x db) key l h = (_, _, close)
inside-CanMove m j (leaving k x) key l h = (_, _, unlock)

-- In every reachable state a goroutine that waits for a key's mutex can take it, or the mutex has
-- an owner, which is inside that lock and has a step to make: the locks never come to a standstill.
pub no_deadlock :
    {s : System} {key : TenantKey} {q : Request} {l : Mutex}
    → Reach s
    → (i : ℕ) → s.pc i ≡ waiting key q l
    → CanMove s.mem i (s.pc i)
      ⊎ ((j : ℕ) × (inside (s.pc j) ≡ some (key, l)) × CanMove s.mem j (s.pc j))
unfolding CanMove
no_deadlock {s} {key} {q} {l} r i here = elim (Option-cases (s.mem.owner l)) [
  | inl free ↦ inl (rw here (owned_by (some i) l s.mem, entered key q l, lock free))
  | inr (j, owned) ↦
      let o = (Reach-Inv r).owned in
      let (key', k) = o.holder l j owned in
      let same : key' ≡ key =
        o.apart key' key l (o.known j key' l (asked-inside (s.pc j) k))
          (o.known i key l (ap asked here)) in
      inr (
        j,
        subst (λ x. inside (s.pc j) ≡ some (x, l)) same k,
        inside-CanMove s.mem j (s.pc j) key' l k,
      )
]
