-- ===== src/Snowflake/Pool/Locks/Moves.antt =====
-- Every step of internal/snowflake/pool/pool.go keeps the locks and the connections in order.
use yukimi.Snowflake.Pool.Locks.Holdings.{
  Place, entry, hands, entry_db, holdings, Exact-quiet, Exact-dial, Exact-close,
  carried-behind_entry, Exact-exchange, entry_written, entry_removed,
}
use yukimi.Snowflake.Pool.Locks.Owners.{
  asked, Owned, Owned-start, Owned-inside, Owned-lock, Owned-unlock, Owned-arrive, key_lock-rest,
}
use yukimi.Snowflake.Pool.Locks.Places.{Exact}
use yukimi.Snowflake.Pool.Locks.{
  Mutex, update, Shared, key_lock, Pc, idle, waiting, entered, missed, dialed, leaving, owned_by,
  behind_entry, Move, arrive, lock, hit, miss, fail, dial, install, remove, close, unlock,
  new_shared, inside, carried,
}
use yukimi.Snowflake.Pool.Cache.{tenant_key_eq, TenantKey, tenant_key_beq, TenantEntry}
use yukimi.Base.{
  if◌then◌else◌, some-not-none, Dict, get, delete, put, ℕ, ◌≡◌, refl, sym, ap, subst, ◌∙◌, Option,
  none, some,
}

pub record Inv (m : Shared) (pc : ℕ → Pc) : Type 0 where
  pub owned : Owned m pc
  pub exact : Exact (holdings m pc) m.is_open

nothing : (p : Place) → holdings new_shared (λ i. idle) p ≡ none
unfolding get
nothing (entry key) = refl
nothing (hands i) = refl

pub Inv-start : Inv new_shared (λ i. idle)
unfolding get
Inv-start = record {
  owned = Owned-start;
  exact = record {
    unique = λ p q d a c. some-not-none (sym a ∙ nothing p);
    live = λ p d a. some-not-none (sym a ∙ nothing p);
    found = λ d a. cc;
  };
}

behind_entry-place :
    (key : TenantKey) (l : Mutex) (c : Option TenantEntry)
    → (asked (behind_entry key l c) ≡ some (key, l))
      × (inside (behind_entry key l c) ≡ some (key, l))
behind_entry-place key l none = (refl, refl)
behind_entry-place key l (some e) = (refl, refl)

module _ {m : Shared} {pc : ℕ → Pc} (inv : Inv m pc) (i : ℕ) where
  -- A step inside the lock that changes neither the locks nor the connections.
  stays :
      (p' : Pc)
      → asked p' ≡ asked (pc i)
      → inside p' ≡ inside (pc i)
      → carried p' ≡ carried (pc i)
      → Inv m (update pc i p')
  stays p' same_asked same_inside same_hands = record {
    owned = Owned-inside inv.owned i p' refl refl refl same_asked same_inside;
    exact = Exact-quiet m m pc i p' inv.exact refl same_hands;
  }

  -- A step inside the lock in which an entry and the hands exchange what they hold.
  exchanges :
      (key : TenantKey) (l : Mutex) (entries : Dict TenantKey TenantEntry)
      → asked (pc i) ≡ some (key, l)
      → inside (pc i) ≡ some (key, l)
      → ((k : TenantKey)
          → entry_db (get k entries)
            ≡ (if tenant_key_beq key k then carried (pc i) else entry_db (get k m.entries)))
      → Inv (record m { entries = entries }) (update pc i (behind_entry key l (get key m.entries)))
  exchanges key l entries was_asked was_inside written =
      let p' = behind_entry key l (get key m.entries) in
      let (now_asked, now_inside) = behind_entry-place key l (get key m.entries) in
      record {
        owned =
            Owned-inside inv.owned i p' refl refl refl (now_asked ∙ sym was_asked)
              (now_inside ∙ sym was_inside);
        exact =
            Exact-exchange m pc i p' key entries inv.exact written
              (carried-behind_entry key l (get key m.entries));
      }

  -- Every step of a goroutine keeps the invariant.
  pub Move-Inv : {m' : Shared} {p p' : Pc} → Move i m p m' p' → pc i ≡ p → Inv m' (update pc i p')
  Move-Inv (arrive key r) here =
      let (same_entries, same_open, _) = key_lock-rest key m in
      record {
        owned = Owned-arrive inv.owned i key r here;
        exact =
            subst
              (Exact (holdings (key_lock key m).1 (update pc i (waiting key r (key_lock key m).0))))
              (sym same_open)
              (Exact-quiet m (key_lock key m).1 pc i (waiting key r (key_lock key m).0) inv.exact
                same_entries (sym (ap carried here)));
      }
  Move-Inv (lock {key} {r} {l} free) here = record {
    owned = Owned-lock inv.owned i key r l here free;
    exact =
        Exact-quiet m (owned_by (some i) l m) pc i (entered key r l) inv.exact refl
          (sym (ap carried here));
  }
  Move-Inv (hit {key} {l = l} db found) here =
      stays (leaving key l) (sym (ap asked here)) (sym (ap inside here)) (sym (ap carried here))
  Move-Inv (miss {key} {locator} {region} {l} absent) here =
      stays (missed key locator region l) (sym (ap asked here)) (sym (ap inside here))
        (sym (ap carried here))
  Move-Inv (fail {key} {l = l}) here =
      stays (leaving key l) (sym (ap asked here)) (sym (ap inside here)) (sym (ap carried here))
  Move-Inv (dial {key} {locator} {region} {l} db closed) here = record {
    owned =
        Owned-inside inv.owned i (dialed key locator region l db) refl refl refl
          (sym (ap asked here)) (sym (ap inside here));
    exact =
        Exact-dial m pc i (dialed key locator region l db) db inv.exact (ap carried here) closed
          refl;
  }
  Move-Inv (install {key} {locator} {region} {l} {db}) here =
      exchanges key l (put key (record { db = db; locator = locator; region = region }) m.entries)
        (ap asked here) (ap inside here)
        (λ k.
          rw (ap carried here) (
            entry_written key k (record { db = db; locator = locator; region = region }) m.entries))
  Move-Inv (remove {key} {l}) here =
      exchanges key l (delete key m.entries) (ap asked here) (ap inside here)
        (λ k. rw (ap carried here) (entry_removed key k m.entries))
  Move-Inv (close {key} {l} {db}) here = record {
    owned =
        Owned-inside inv.owned i (leaving key l) refl refl refl (sym (ap asked here))
          (sym (ap inside here));
    exact = Exact-close m pc i (leaving key l) db inv.exact (ap carried here) refl;
  }
  Move-Inv (unlock {key} {l}) here = record {
    owned = Owned-unlock inv.owned i key l here;
    exact = Exact-quiet m (owned_by none l m) pc i idle inv.exact refl (sym (ap carried here));
  }
