-- ===== src/Snowflake/Pool/Locks/Owners.antt =====
-- Who is inside the lock of which key, over internal/snowflake/pool/pool.go.
use yukimi.Snowflake.Pool.Locks.{
  Mutex, update, Shared, found_lock, key_lock, Request, Pc, idle, waiting, entered, leaving,
  owned_by, new_shared, inside,
}
use yukimi.Snowflake.Pool.Cache.{tenant_key_eq, TenantKey, tenant_key_beq_iff}
use yukimi.Base.{
  nat_beq, nat_beq_iff, Bool-cases, beq_refl, get, get-put, ℕ, ◌<◌, ◌≡◌, refl, sym, ap, ◌∙◌, inl,
  inr, Option, none, some, arith,
}

-- The key and the mutex that a goroutine has asked for.
abbrev pub asked : Pc → Option (TenantKey × Mutex)
asked (waiting key r l) = some (key, l)
asked p = inside p

-- A key has one mutex, and who is inside a mutex is its owner.
pub record Owned (m : Shared) (pc : ℕ → Pc) : Type 0 where
  pub known :
      (i : ℕ) (key : TenantKey) (l : Mutex)
      → asked (pc i) ≡ some (key, l)
      → get key m.key_locks ≡ some l
  pub below : (key : TenantKey) (l : Mutex) → get key m.key_locks ≡ some l → l < m.next_mutex
  pub apart :
      (key other : TenantKey) (l : Mutex)
      → get key m.key_locks ≡ some l
      → get other m.key_locks ≡ some l
      → key ≡ other
  pub owns :
      (i : ℕ) (key : TenantKey) (l : Mutex) → inside (pc i) ≡ some (key, l) → m.owner l ≡ some i
  pub holder :
      (l : Mutex) (j : ℕ) → m.owner l ≡ some j → (key : TenantKey) × (inside (pc j) ≡ some (key, l))

pub Owned-start : Owned new_shared (λ i. idle)
unfolding get
Owned-start = record {
  known = λ i key l h. cc;
  below = λ key l h. cc;
  apart = λ key other l h k. cc;
  owns = λ i key l h. cc;
  holder = λ l j h. cc;
}

-- A view of a goroutine's place that a step leaves alone.
pub same_at :
    {A : Type 0} (f : Pc → A) (pc : ℕ → Pc) (i : ℕ) (p' : Pc) (j : ℕ)
    → f p' ≡ f (pc i)
    → f (update pc i p' j) ≡ f (pc j)
same_at f pc i p' j same = elim (Bool-cases (nat_beq j i)) [
  | inl here ↦ rw here (same ∙ ap (λ k. f (pc k)) (sym ((nat_beq_iff j i).0 here)))
  | inr elsewhere ↦ rw elsewhere refl
]

-- A step that leaves the locks alone, by a goroutine that stays where it is in this respect.
pub Owned-inside :
    {m m' : Shared} {pc : ℕ → Pc} (o : Owned m pc) (i : ℕ) (p' : Pc)
    → m'.key_locks ≡ m.key_locks
    → m'.next_mutex ≡ m.next_mutex
    → m'.owner ≡ m.owner
    → asked p' ≡ asked (pc i)
    → inside p' ≡ inside (pc i)
    → Owned m' (update pc i p')
Owned-inside {m} {m'} {pc} o i p' same_locks same_next same_owner same_asked same_inside = record {
  known = λ j key l h.
      ap (get key) same_locks ∙ o.known j key l (sym (same_at asked pc i p' j same_asked) ∙ h);
  below = λ key l h.
      let lt = o.below key l (sym (ap (get key) same_locks) ∙ h) in omega (arith, same_next);
  apart = λ key other l h k.
      o.apart key other l (sym (ap (get key) same_locks) ∙ h) (sym (ap (get other) same_locks) ∙ k);
  owns = λ j key l h.
      ap (λ f. f l) same_owner ∙ o.owns j key l (sym (same_at inside pc i p' j same_inside) ∙ h);
  holder = λ l j h.
      let (key, k) = o.holder l j (sym (ap (λ f. f l) same_owner) ∙ h) in
      (key, same_at inside pc i p' j same_inside ∙ k);
}

pub Owned-lock :
    {m : Shared} {pc : ℕ → Pc} (o : Owned m pc) (i : ℕ) (key : TenantKey) (r : Request) (l : Mutex)
    → pc i ≡ waiting key r l
    → m.owner l ≡ none
    → Owned (owned_by (some i) l m) (update pc i (entered key r l))
Owned-lock {m} {pc} o i key r l here free = record {
  known = λ j k l' h.
      o.known j k l' (sym (same_at asked pc i (entered key r l) j (sym (ap asked here))) ∙ h);
  below = o.below;
  apart = o.apart;
  owns = λ j k l' h. ground (arith, o.owns j k l');
  holder = λ l' j h. elim (Bool-cases (nat_beq l' l)) [
    | inl same ↦ (key, ground arith)
    | inr other ↦ let (k, q) = o.holder l' j (ground arith) in (k, ground (arith, ap inside here))
  ];
}

pub Owned-unlock :
    {m : Shared} {pc : ℕ → Pc} (o : Owned m pc) (i : ℕ) (key : TenantKey) (l : Mutex)
    → pc i ≡ leaving key l
    → Owned (owned_by none l m) (update pc i idle)
Owned-unlock {m} {pc} o i key l here = record {
  known = λ j k l' h. ground (arith, o.known j k l');
  below = o.below;
  apart = o.apart;
  owns = λ j k l' h.
      let mine : m.owner l ≡ some i = o.owns i key l (ap inside here) in
      ground (arith, mine, o.owns j k l');
  holder =
      λ l' j h. let (k, q) = o.holder l' j (ground arith) in (k, ground (arith, ap inside here));
}

-- What keyLock does to the locks.
record Locked (key : TenantKey) (m : Shared) (l : Mutex) (m' : Shared) : Type 0 where
  found : get key m'.key_locks ≡ some l
  keeps : (k : TenantKey) (x : Mutex) → get k m.key_locks ≡ some x → get k m'.key_locks ≡ some x
  below : (k : TenantKey) (x : Mutex) → get k m'.key_locks ≡ some x → x < m'.next_mutex
  apart :
      (k other : TenantKey) (x : Mutex)
      → get k m'.key_locks ≡ some x
      → get other m'.key_locks ≡ some x
      → k ≡ other
  owner : m'.owner ≡ m.owner

found_lock-Locked :
    {m : Shared} {pc : ℕ → Pc} (o : Owned m pc) (key : TenantKey) (c : Option Mutex)
    → get key m.key_locks ≡ c
    → Locked key m (found_lock key c m).0 (found_lock key c m).1
unfolding found_lock
found_lock-Locked o key (some l) e = record {
  found = e;
  keeps = λ k x h. h;
  below = o.below;
  apart = o.apart;
  owner = refl;
}
found_lock-Locked {m} o key none e = record {
  found = get-put key key m.next_mutex m.key_locks ∙ rw (beq_refl key) refl;
  keeps =
      λ k x h. get-put key k m.next_mutex m.key_locks ∙ ground (arith, tenant_key_beq_iff key k);
  below = λ k x h. ground (arith, get-put key k m.next_mutex m.key_locks, o.below k x);
  apart = λ k other x h q. ground (
    arith,
    get-put key k m.next_mutex m.key_locks,
    get-put key other m.next_mutex m.key_locks,
    tenant_key_beq_iff key k,
    tenant_key_beq_iff key other,
    o.below k x,
    o.below other x,
    o.apart k other x,
  );
  owner = refl;
}

pub Owned-arrive :
    {m : Shared} {pc : ℕ → Pc} (o : Owned m pc) (i : ℕ) (key : TenantKey) (r : Request)
    → pc i ≡ idle
    → Owned (key_lock key m).1 (update pc i (waiting key r (key_lock key m).0))
unfolding key_lock
Owned-arrive {m} {pc} o i key r here =
    let q = found_lock-Locked o key (get key m.key_locks) refl in
    record {
      known = λ j k x h. ground (arith, q.found, q.keeps k x, o.known j k x);
      below = q.below;
      apart = q.apart;
      owns = λ j k x h.
          ap (λ f. f x) q.owner
          ∙ o.owns j k x (
              sym (
                same_at inside pc i (waiting key r (found_lock key (get key m.key_locks) m).0) j
                  (sym (ap inside here)))
              ∙ h);
      holder = λ x j h.
          let (k, u) = o.holder x j (sym (ap (λ f. f x) q.owner) ∙ h) in
          (
            k,
            same_at inside pc i (waiting key r (found_lock key (get key m.key_locks) m).0) j
                  (sym (ap inside here))
                ∙ u,
          );
    }

found_lock-rest :
    (key : TenantKey) (c : Option Mutex) (m : Shared)
    → ((found_lock key c m).1.entries ≡ m.entries)
      × ((found_lock key c m).1.is_open ≡ m.is_open)
      × ((found_lock key c m).1.owner ≡ m.owner)
unfolding found_lock
found_lock-rest key none m = (refl, refl, refl)
found_lock-rest key (some l) m = (refl, refl, refl)

-- keyLock touches neither the entries nor the connections nor who holds what.
pub key_lock-rest :
    (key : TenantKey) (m : Shared)
    → ((key_lock key m).1.entries ≡ m.entries)
      × ((key_lock key m).1.is_open ≡ m.is_open)
      × ((key_lock key m).1.owner ≡ m.owner)
unfolding key_lock
key_lock-rest key m = found_lock-rest key (get key m.key_locks) m
