-- ===== src/Secrets/KeyStore/Refinement.antt =====
-- What internal/secrets/keystore.go promises of an identifier, as functions of what is there, and
-- the in-memory backend of fake.go against it.
use yukimi.Base.{
  if◌then◌else◌, Option-cases, ◌==◌, Str, get, ℕ, ◌≡◌, refl, inl, inr, Bool, true, false, Option,
  none, some, arith,
}
use yukimi.Errors.{Result, ok, err, is_pending_deletion}
use yukimi.Secrets.Identifier.{identifier_eq, Identifier, identifier_beq_iff}
use yukimi.Secrets.KeyStore.{
  KeyStore, FakeEntry, FakeKeyStore, fake_get, fake_create, fake_update, fake_delete,
  fake_key_store,
}
use yukimi.Secrets.KeyStore.Contract.{
  Slot, vacant, live, recoverable, is_live, entry_slot, fake_slot, written, marked, slot-write,
  slot-remove, slot-absent,
}

pub is_ok : {A : Type 0} → Result A → Bool
is_ok (ok a) = true
is_ok (err e) = false

-- The error of a create wraps ErrPendingDeletion.
pub tells_pending : Result (Unit {0}) → Bool
tells_pending (ok t) = false
tells_pending (err e) = is_pending_deletion e

abbrev pub is_vacant : Slot → Bool
is_vacant vacant = true
is_vacant (live v t) = false
is_vacant recoverable = false

abbrev pub is_recoverable : Slot → Bool
is_recoverable vacant = false
is_recoverable (live v t) = false
is_recoverable recoverable = true

-- What the three writes make of an identifier.
abbrev pub created : Str → ℕ → Slot → Slot
created v now vacant = live v now
created v now (live w t) = live w t
created v now recoverable = recoverable

abbrev pub updated : Str → ℕ → Slot → Slot
updated v now vacant = vacant
updated v now (live w t) = live v now
updated v now recoverable = recoverable

-- A deletion that is scheduled leaves the secret recoverable and changes nothing on an identifier
-- that holds none or one already pending; a deletion outright empties the identifier.
abbrev pub deleted : Bool → Slot → Slot
deleted true vacant = vacant
deleted true (live v t) = recoverable
deleted true recoverable = recoverable
deleted false s = vacant

abbrev pub read_of : Slot → Option (Str × ℕ)
read_of vacant = none
read_of (live v t) = some (v, t)
read_of recoverable = none

pub value_of : {A : Type 0} → Result A → Option A
value_of (ok a) = some a
value_of (err e) = none

-- One backend in one state, at one identifier and in view of another: the result of each call and
-- what it leaves. `schedules` says how the backend deletes.
pub record Implements {S : Type 0} (slot : S → Identifier → Slot) (store : KeyStore S)
    (schedules : Bool) (now : ℕ) (id j : Identifier) (v : Str) (s : S) : Type 0 where
  pub get_value : value_of (store.get_value id s).0 ≡ read_of (slot s id)
  pub get_slot : slot (store.get_value id s).1 j ≡ slot s j
  pub create_ok : is_ok (store.create_value id v s).0 ≡ is_vacant (slot s id)
  pub create_pending : tells_pending (store.create_value id v s).0 ≡ is_recoverable (slot s id)
  pub create_slot :
      slot (store.create_value id v s).1 j
      ≡ (if id == j then created v now (slot s id) else slot s j)
  pub update_ok : is_ok (store.update_value id v s).0 ≡ is_live (slot s id)
  pub update_slot :
      slot (store.update_value id v s).1 j
      ≡ (if id == j then updated v now (slot s id) else slot s j)
  pub delete_ok : is_ok (store.delete_value id s).0 ≡ true
  pub delete_slot :
      slot (store.delete_value id s).1 j
      ≡ (if id == j then deleted schedules (slot s id) else slot s j)

-- The four hooks let the calls at an identifier through.
abbrev pub IsQuiet : FakeKeyStore → Identifier → Type 0
IsQuiet s id =
    (s.on_get id ≡ none)
    × (s.on_create id ≡ none)
    × (s.on_update id ≡ none)
    × (s.on_delete id ≡ none)

slot-occupied :
    (id : Identifier) (s : FakeKeyStore) (e : FakeEntry)
    → get id s.entries ≡ some e
    → fake_slot s id ≡ entry_slot (some e)
unfolding fake_slot
slot-occupied id s e h = rw h refl

module _ (id j : Identifier) (v : Str) (s : FakeKeyStore) where
  read_value : s.on_get id ≡ none → value_of (fake_get id s).0 ≡ read_of (fake_slot s id)
  unfolding fake_get fake_slot entry_slot value_of
  read_value h = ground arith

  read_slot : fake_slot (fake_get id s).1 j ≡ fake_slot s j
  unfolding fake_get
  read_slot = ground arith

  created_ok : s.on_create id ≡ none → is_ok (fake_create id v s).0 ≡ is_vacant (fake_slot s id)
  unfolding fake_create fake_slot entry_slot is_ok
  created_ok h = ground arith

  created_pending :
      s.on_create id ≡ none → tells_pending (fake_create id v s).0 ≡ is_recoverable (fake_slot s id)
  unfolding fake_create fake_slot entry_slot tells_pending is_pending_deletion
  created_pending h = ground arith

  created_slot :
      s.on_create id ≡ none
      → fake_slot (fake_create id v s).1 j
        ≡ (if id == j then created v s.clock (fake_slot s id) else fake_slot s j)
  unfolding fake_create entry_slot
  created_slot h = elim (Option-cases (get id s.entries)) [
    | inl e ↦ ground (arith, slot-write id j (written v s.clock) s, slot-absent id s e)
    | inr (x, e) ↦ ground (arith, slot-occupied id s x e, identifier_beq_iff id j)
  ]

  updated_ok : s.on_update id ≡ none → is_ok (fake_update id v s).0 ≡ is_live (fake_slot s id)
  unfolding fake_update fake_slot entry_slot is_ok
  updated_ok h = ground arith

  updated_slot :
      s.on_update id ≡ none
      → fake_slot (fake_update id v s).1 j
        ≡ (if id == j then updated v s.clock (fake_slot s id) else fake_slot s j)
  unfolding fake_update entry_slot
  updated_slot h = elim (Option-cases (get id s.entries)) [
    | inl e ↦ ground (arith, slot-absent id s e, identifier_beq_iff id j)
    | inr (x, e) ↦ ground (
      arith,
      slot-occupied id s x e,
      slot-write id j (written v s.clock) s,
      identifier_beq_iff id j,
    )
  ]

  deleted_ok : s.on_delete id ≡ none → is_ok (fake_delete id s).0 ≡ true
  unfolding fake_delete is_ok
  deleted_ok h = ground arith

  deleted_slot :
      s.on_delete id ≡ none
      → fake_slot (fake_delete id s).1 j
        ≡ (if id == j then deleted s.schedules_deletion (fake_slot s id) else fake_slot s j)
  unfolding fake_delete entry_slot
  deleted_slot h = elim (Option-cases (get id s.entries)) [
    | inl e ↦ ground (arith, slot-absent id s e, slot-remove id j s, identifier_beq_iff id j)
    | inr (x, e) ↦
        ground (arith, slot-occupied id s x e, slot-remove id j s, slot-write id j (marked x) s)
  ]

-- The in-memory backend, where no hook fails a call, does at every identifier what the interface
-- promises by what is there: the result of each operation, the error that tells of a pending
-- deletion, and what is there afterwards, at that identifier and at all others. In the mode that
-- schedules deletions a deletion is that of the interface; in the other mode it is outright.
pub fake-Implements :
    (id j : Identifier) (v : Str) (s : FakeKeyStore)
    → IsQuiet s id
    → Implements fake_slot fake_key_store s.schedules_deletion s.clock id j v s
unfolding fake_key_store
fake-Implements id j v s quiet = record {
  get_value = read_value id j v s quiet.0;
  get_slot = read_slot id j v s;
  create_ok = created_ok id j v s quiet.1;
  create_pending = created_pending id j v s quiet.1;
  create_slot = created_slot id j v s quiet.1;
  update_ok = updated_ok id j v s quiet.2;
  update_slot = updated_slot id j v s quiet.2;
  delete_ok = deleted_ok id j v s quiet.3;
  delete_slot = deleted_slot id j v s quiet.3;
}
