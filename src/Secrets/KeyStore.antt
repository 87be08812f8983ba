-- ===== src/Secrets/KeyStore.antt =====
-- internal/secrets/keystore.go: the interface of a credential backend, and
-- internal/secrets/fake.go, the in-memory backend that the repository implements itself.
pub mod Contract
pub mod Refinement
use yukimi.Base.{
  str_eq, if◌then◌else◌, Str, text, Dict, get, delete, put, ℕ, Bool, true, false, not, Option, none,
  some, [], ◌++◌,
}
use yukimi.Errors.{Error, plain, wrapped, pending_deletion, Result, ok, err}
use yukimi.Effects.{Action, fail, lift}
use yukimi.Secrets.Identifier.{identifier_eq, Identifier}

-- A backend over an unknown state. Times are nanoseconds since a fixed instant.
pub record KeyStore (S : Type 0) : Type 0 where
  pub get_value : Identifier → Action S (Str × ℕ)
  pub create_value : Identifier → Str → Action S (Unit {0})
  pub update_value : Identifier → Str → Action S (Unit {0})
  pub delete_value : Identifier → Action S (Unit {0})

pub record FakeEntry : Type 0 where
  pub value : Str
  pub modified_at : ℕ
  pub pending : Bool

-- The four hooks, the clock's reading, the deletion mode and the map.
pub record FakeKeyStore : Type 0 where
  pub on_get : Identifier → Option Error
  pub on_create : Identifier → Option Error
  pub on_update : Identifier → Option Error
  pub on_delete : Identifier → Option Error
  pub clock : ℕ
  pub schedules_deletion : Bool
  pub entries : Dict Identifier FakeEntry

abbrev pub no_hook : Identifier → Option Error
no_hook id = none

-- `NewFakeKeyStore`
abbrev pub new_fake_key_store : ℕ → FakeKeyStore
new_fake_key_store now = record {
  on_get = no_hook;
  on_create = no_hook;
  on_update = no_hook;
  on_delete = no_hook;
  clock = now;
  schedules_deletion = false;
  entries = [];
}

-- `if hook != nil { if err := hook(id); err != nil { return err } }`
abbrev hooked : {A : Type 0} → Option Error → Action FakeKeyStore A → Action FakeKeyStore A
hooked none m = m
hooked (some e) m = fail e

pub no_secret : Identifier → Error
no_secret id = plain (text "secrets: no secret stored at " ++ id.value)

pub no_scheduled : Identifier → Error
no_scheduled id = plain (text "secrets: no secret scheduled for deletion at " ++ id.value)

pub scheduled_message : Identifier → Str
scheduled_message id =
    text "secrets: the secret at " ++ id.value ++ text " is scheduled for deletion"

fake_write : Identifier → Str → FakeKeyStore → Result (Unit {0}) × FakeKeyStore
unfolding put
fake_write id value s = (
  ok tt,
  record s {
    entries = put id (record { value = value; modified_at = s.clock; pending = false }) s.entries;
  },
)

read_entry : Identifier → Option FakeEntry → Result (Str × ℕ)
read_entry id none = err (no_secret id)
read_entry id (some e) =
    if e.pending then err (plain (scheduled_message id)) else ok (e.value, e.modified_at)

fake_get : Identifier → Action FakeKeyStore (Str × ℕ)
unfolding read_entry get
fake_get id s = hooked (s.on_get id) (lift (read_entry id (get id s.entries))) s

occupied_error : Identifier → FakeEntry → Error
occupied_error id e =
    if e.pending
    then wrapped
        (text "secrets: the secret at "
          ++ id.value
          ++ text " is scheduled for deletion and its identifier cannot be reused: ")
        pending_deletion []
    else plain (text "secrets: a secret already exists at " ++ id.value)

create_entry : Identifier → Str → Option FakeEntry → Action FakeKeyStore (Unit {0})
create_entry id value none s = fake_write id value s
create_entry id value (some e) s = (err (occupied_error id e), s)

fake_create : Identifier → Str → Action FakeKeyStore (Unit {0})
unfolding create_entry fake_write occupied_error get
fake_create id value s = hooked (s.on_create id) (create_entry id value (get id s.entries)) s

update_entry : Identifier → Str → Option FakeEntry → Action FakeKeyStore (Unit {0})
update_entry id value none s = (err (no_secret id), s)
update_entry id value (some e) s =
    if e.pending then (err (plain (scheduled_message id)), s) else fake_write id value s

fake_update : Identifier → Str → Action FakeKeyStore (Unit {0})
unfolding update_entry fake_write get
fake_update id value s = hooked (s.on_update id) (update_entry id value (get id s.entries)) s

-- An absent identifier leaves nothing to schedule.
schedule_entry : Identifier → Option FakeEntry → Action FakeKeyStore (Unit {0})
unfolding put
schedule_entry id none s = (ok tt, s)
schedule_entry id (some e) s =
    (ok tt, record s { entries = put id (record e { pending = true }) s.entries })

remove_entry : Identifier → Action FakeKeyStore (Unit {0})
unfolding delete
remove_entry id s = (ok tt, record s { entries = delete id s.entries })

fake_delete : Identifier → Action FakeKeyStore (Unit {0})
unfolding schedule_entry remove_entry get
fake_delete id s =
    hooked (s.on_delete id)
      (if not s.schedules_deletion then remove_entry id else schedule_entry id (get id s.entries)) s

-- `FakeKeyStore` as a `KeyStore`.
unfoldable pub fake_key_store : KeyStore FakeKeyStore
unfolding fake_get fake_create fake_update fake_delete
fake_key_store = record {
  get_value = fake_get;
  create_value = fake_create;
  update_value = fake_update;
  delete_value = fake_delete;
}

restore_entry : Identifier → Option FakeEntry → Action FakeKeyStore (Unit {0})
unfolding put
restore_entry id none s = (err (no_scheduled id), s)
restore_entry id (some e) s =
    if not e.pending
    then (err (no_scheduled id), s)
    else (ok tt, record s { entries = put id (record e { pending = false }) s.entries })

-- `Restore`
unfoldable pub restore : Identifier → Action FakeKeyStore (Unit {0})
unfolding restore_entry get
restore id s = restore_entry id (get id s.entries) s
