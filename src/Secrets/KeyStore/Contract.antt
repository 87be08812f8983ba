-- ===== src/Secrets/KeyStore/Contract.antt =====
-- What a client of the interface in internal/secrets/keystore.go relies on, and the in-memory
-- backend of fake.go.
use yukimi.Errors.{Error, ok, err, is_pending_deletion}
use yukimi.Base.{
  str_eq, if◌then◌else◌, Option-cases, ◌==◌, beq_refl, Str, str_beq_iff, get, delete, put,
  get-delete, get-put, ℕ, ◌≡◌, refl, ◌∙◌, inl, inr, Bool, true, false, Option, none, some, arith,
}
use yukimi.Secrets.Identifier.{identifier_eq, Identifier}
use yukimi.Secrets.KeyStore.{
  KeyStore, FakeEntry, FakeKeyStore, fake_get, occupied_error, fake_create, fake_update,
  fake_delete, fake_key_store, restore,
}

-- What a backend holds at an identifier.
pub data Slot : Type 0 where
  vacant : Slot
  live : Str → ℕ → Slot
  recoverable : Slot

abbrev pub is_live : Slot → Bool
is_live (live v t) = true
is_live vacant = false
is_live recoverable = false

-- What a client of the interface relies on, over a view of the backend's state, whatever becomes of
-- a deleted secret. A write that fails may have been carried out at its identifier, but for a create
-- at one that is occupied.
pub record IsKeyStore {S : Type 0} (slot : S → Identifier → Slot) (store : KeyStore S)
    : Type 0 where
  pub get_keeps : (id j : Identifier) (s : S) → slot (store.get_value id s).1 j ≡ slot s j
  pub get_live :
      (id : Identifier) (s : S) (v : Str) (t : ℕ)
      → (store.get_value id s).0 ≡ ok (v, t)
      → slot s id ≡ live v t
  pub create_vacant :
      (id : Identifier) (v : Str) (s : S)
      → (store.create_value id v s).0 ≡ ok tt
      → slot s id ≡ vacant
  pub create_live :
      (id : Identifier) (v : Str) (s : S)
      → (store.create_value id v s).0 ≡ ok tt
      → (t : ℕ) × (slot (store.create_value id v s).1 id ≡ live v t)
  pub create_other :
      (id j : Identifier) (v : Str) (s : S)
      → (id == j) ≡ false
      → slot (store.create_value id v s).1 j ≡ slot s j
  -- A create that fails leaves an occupying value untouched.
  pub create_untouched :
      (id : Identifier) (v : Str) (s : S) (e : Error) (held : Str) (t : ℕ)
      → (store.create_value id v s).0 ≡ err e
      → slot s id ≡ live held t
      → slot (store.create_value id v s).1 id ≡ live held t
  pub update_live :
      (id : Identifier) (v : Str) (s : S)
      → (store.update_value id v s).0 ≡ ok tt
      → (t : ℕ) × (slot (store.update_value id v s).1 id ≡ live v t)
  pub update_other :
      (id j : Identifier) (v : Str) (s : S)
      → (id == j) ≡ false
      → slot (store.update_value id v s).1 j ≡ slot s j
  pub update_found :
      (id : Identifier) (v : Str) (s : S)
      → (store.update_value id v s).0 ≡ ok tt
      → is_live (slot s id) ≡ true
  pub delete_gone :
      (id : Identifier) (s : S)
      → (store.delete_value id s).0 ≡ ok tt
      → is_live (slot (store.delete_value id s).1 id) ≡ false
  pub delete_other :
      (id j : Identifier) (s : S)
      → (id == j) ≡ false
      → slot (store.delete_value id s).1 j ≡ slot s j

unfoldable pub entry_slot : Option FakeEntry → Slot
entry_slot none = vacant
entry_slot (some e) = if e.pending then recoverable else live e.value e.modified_at

unfoldable pub fake_slot : FakeKeyStore → Identifier → Slot
unfolding entry_slot
fake_slot s id = entry_slot (get id s.entries)

abbrev pub written : Str → ℕ → FakeEntry
written v t = record { value = v; modified_at = t; pending = false }

abbrev pub marked : FakeEntry → FakeEntry
marked e = record e { pending = true }

-- Which slots a write or a removal at one identifier changes.
pub slot-write :
    (id j : Identifier) (e : FakeEntry) (s : FakeKeyStore)
    → fake_slot (record s { entries = put id e s.entries }) j
      ≡ (if id == j then entry_slot (some e) else fake_slot s j)
unfolding fake_slot
slot-write id j e s = rw (get-put id j e s.entries) (ground arith)

pub slot-remove :
    (id j : Identifier) (s : FakeKeyStore)
    → fake_slot (record s { entries = delete id s.entries }) j
      ≡ (if id == j then vacant else fake_slot s j)
unfolding fake_slot
slot-remove id j s = rw (get-delete id j s.entries) (ground arith)

pub slot-absent :
    (id : Identifier) (s : FakeKeyStore) → get id s.entries ≡ none → fake_slot s id ≡ vacant
unfolding fake_slot
slot-absent id s e = rw e refl

module _ (id j : Identifier) (s : FakeKeyStore) where
  fake_get_keeps : fake_slot (fake_get id s).1 j ≡ fake_slot s j
  unfolding fake_get
  fake_get_keeps = ground arith

  fake_get_live : (v : Str) (t : ℕ) → (fake_get id s).0 ≡ ok (v, t) → fake_slot s id ≡ live v t
  unfolding fake_get fake_slot
  fake_get_live v t h = ground arith

  fake_create_vacant : (v : Str) → (fake_create id v s).0 ≡ ok tt → fake_slot s id ≡ vacant
  unfolding fake_create fake_slot
  fake_create_vacant v h = ground arith

  fake_create_live :
      (v : Str)
      → (fake_create id v s).0 ≡ ok tt
      → fake_slot (fake_create id v s).1 id ≡ live v s.clock
  unfolding fake_create entry_slot
  fake_create_live v h =
      ground (arith, slot-write id id (written v s.clock) s, str_beq_iff id.value id.value)

  fake_create_other :
      (v : Str) → (id == j) ≡ false → fake_slot (fake_create id v s).1 j ≡ fake_slot s j
  unfolding fake_create
  fake_create_other v h = ground (arith, slot-write id j (written v s.clock) s)

  fake_create_failed :
      (v : Str) (e : Error)
      → (fake_create id v s).0 ≡ err e
      → fake_slot (fake_create id v s).1 j ≡ fake_slot s j
  unfolding fake_create
  fake_create_failed v e h = ground arith

  fake_update_live :
      (v : Str)
      → (fake_update id v s).0 ≡ ok tt
      → fake_slot (fake_update id v s).1 id ≡ live v s.clock
  unfolding fake_update entry_slot
  fake_update_live v h =
      ground (arith, slot-write id id (written v s.clock) s, str_beq_iff id.value id.value)

  fake_update_other :
      (v : Str) → (id == j) ≡ false → fake_slot (fake_update id v s).1 j ≡ fake_slot s j
  unfolding fake_update
  fake_update_other v h = ground (arith, slot-write id j (written v s.clock) s)

  fake_delete_other : (id == j) ≡ false → fake_slot (fake_delete id s).1 j ≡ fake_slot s j
  unfolding fake_delete
  fake_delete_other h = elim (Option-cases (get id s.entries)) [
    | inl e ↦ ground (arith, slot-remove id j s)
    | inr (x, e) ↦ ground (arith, slot-remove id j s, slot-write id j (marked x) s)
  ]

  fake_update_found : (v : Str) → (fake_update id v s).0 ≡ ok tt → is_live (fake_slot s id) ≡ true
  unfolding fake_update fake_slot
  fake_update_found v h = ground arith

  fake_delete_gone :
      (fake_delete id s).0 ≡ ok tt → is_live (fake_slot (fake_delete id s).1 id) ≡ false
  unfolding fake_delete entry_slot
  fake_delete_gone h = elim (Option-cases (get id s.entries)) [
    | inl e ↦ ground (arith, slot-remove id id s, slot-absent id s e, beq_refl id)
    | inr (x, e) ↦ ground (arith, slot-remove id id s, slot-write id id (marked x) s, beq_refl id)
  ]

-- A client can rely on the in-memory backend, with any hooks, also those that fail, and in both
-- deletion modes.
pub fake-IsKeyStore : IsKeyStore fake_slot fake_key_store
unfolding fake_key_store
fake-IsKeyStore = record {
  get_keeps = fake_get_keeps;
  get_live = λ id s. fake_get_live id id s;
  create_vacant = λ id v s. fake_create_vacant id id s v;
  create_live = λ id v s h. (s.clock, fake_create_live id id s v h);
  create_other = λ id j v s. fake_create_other id j s v;
  create_untouched = λ id v s e held t h k. fake_create_failed id id s v e h ∙ k;
  update_live = λ id v s h. (s.clock, fake_update_live id id s v h);
  update_other = λ id j v s. fake_update_other id j s v;
  delete_other = fake_delete_other;
  update_found = λ id v s. fake_update_found id id s v;
  delete_gone = λ id s. fake_delete_gone id id s;
}

-- Where no hook fails it, creating at an occupied identifier fails and changes nothing, and the
-- error says that a deletion is pending exactly when the occupying secret is scheduled for
-- deletion.
pub fake_create_occupied :
    (id : Identifier) (v : Str) (s : FakeKeyStore) (e : FakeEntry)
    → s.on_create id ≡ none
    → get id s.entries ≡ some e
    → (x : Error) × (fake_key_store.create_value id v s ≡ (err x, s))
      × (is_pending_deletion x ≡ e.pending)
unfolding fake_key_store fake_create is_pending_deletion
fake_create_occupied id v s e quiet h = (occupied_error id e, ground arith, ground arith)

fake_delete_scheduled :
    (id : Identifier) (s : FakeKeyStore) (e : FakeEntry)
    → s.on_delete id ≡ none
    → s.schedules_deletion ≡ true
    → get id s.entries ≡ some e
    → fake_delete id s ≡ (ok tt, record s { entries = put id (marked e) s.entries })
unfolding fake_delete
fake_delete_scheduled id s e quiet mode h = ground arith

restore_marked :
    (id : Identifier) (s : FakeKeyStore) (e : FakeEntry)
    → get id s.entries ≡ some e
    → e.pending ≡ true
    → (restore id s).1 ≡ record s { entries = put id (record e { pending = false }) s.entries }
unfolding restore
restore_marked id s e h p = ground arith

-- In the mode that schedules deletions, a live secret whose deletion no hook fails is recoverable
-- after the deletion, and after `Restore` it is live again with its value and time.
pub restore-delete :
    (id : Identifier) (s : FakeKeyStore) (e : FakeEntry)
    → s.on_delete id ≡ none
    → s.schedules_deletion ≡ true
    → get id s.entries ≡ some e
    → e.pending ≡ false
    → let t = (fake_key_store.delete_value id s).1 in
      (fake_slot t id ≡ recoverable) × (fake_slot (restore id t).1 id ≡ live e.value e.modified_at)
unfolding fake_key_store entry_slot
restore-delete id s e quiet mode h fresh =
    let t : FakeKeyStore = record s { entries = put id (marked e) s.entries } in
    let same = beq_refl id in
    let at = get-put id id (marked e) s.entries in
    (
      rw (fake_delete_scheduled id s e quiet mode h)
          (ground (arith, slot-write id id (marked e) s, same)),
      rw (fake_delete_scheduled id s e quiet mode h) (
          rw (restore_marked id t (marked e) (ground (arith, at, same)) refl)
            (ground (arith, slot-write id id (record e { pending = false }) t, same))),
    )
