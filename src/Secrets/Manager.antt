-- ===== src/Secrets/Manager.antt =====
-- internal/secrets/manager.go: a backend behind a cache. A call runs alone: the mutex only guards
-- the map, and what concurrent calls do to each other is not modelled.
pub mod Coherence
use yukimi.Errors.{ok}
use yukimi.Base.{ltb, if◌then◌else◌, Str, Dict, get, delete, put, ℕ, ◌+◌, Option, none, some, []}
use yukimi.Effects.{Action, ◌>>=◌, ◌>>◌, pure, lift}
use yukimi.Secrets.Identifier.{identifier_eq, Identifier}
use yukimi.Secrets.KeyStore.{KeyStore}
use yukimi.Secrets.Credentials.{
  Credentials, Codec, marshal_credentials, unmarshal_credentials, new_credentials,
}

pub record CacheEntry : Type 0 where
  pub value : Str
  pub modified_at : ℕ
  pub expires : ℕ

-- What is behind a manager: the clock, the store, the encoding and the key generator.
pub record Backend (S : Type 0) : Type 0 where
  pub clock : S → ℕ
  pub store : KeyStore S
  pub codec : Codec
  pub generate_key_pair : Action S (Str × Str)

pub record KeyManager (S : Type 0) : Type 0 where
  pub backend : S
  pub ttl : ℕ
  pub entries : Dict Identifier CacheEntry

-- `NewKeyManager`
abbrev pub new_key_manager : {S : Type 0} → S → ℕ → KeyManager S
new_key_manager s ttl = record { backend = s; ttl = ttl; entries = [] }

-- `Invalidate`
unfoldable pub invalidate : {S : Type 0} → Identifier → KeyManager S → KeyManager S
unfolding delete
invalidate id m = record m { entries = delete id m.entries }

on_backend : {S A : Type 0} → Action S A → Action (KeyManager S) A
on_backend act m = let (r, s) = act m.backend in (r, record m { backend = s })

abbrev invalidating : {S : Type 0} → Identifier → Action (KeyManager S) (Unit {0})
invalidating id m = (ok tt, invalidate id m)

module _ {S : Type 0} (b : Backend S) where
  -- `c.entries[id] = cacheEntry{...}` after a successful read
  remember : Identifier → Str × ℕ → Action (KeyManager S) (Str × ℕ)
  unfolding put
  remember id (value, modified_at) m = (
    ok (value, modified_at),
    record m {
      entries =
          put id
            (record {
              value = value;
              modified_at = modified_at;
              expires = b.clock m.backend + m.ttl;
            })
            m.entries;
    },
  )

  fetch : Identifier → Action (KeyManager S) (Str × ℕ)
  unfolding on_backend remember
  fetch id = do read ← on_backend (b.store.get_value id); remember id read

  cached_or : Identifier → Option CacheEntry → Action (KeyManager S) (Str × ℕ)
  unfolding fetch
  cached_or id none m = fetch id m
  cached_or id (some entry) m =
      if ltb (b.clock m.backend) entry.expires
      then (ok (entry.value, entry.modified_at), m)
      else fetch id m

  -- `KeyManager.get`
  unfoldable pub get_raw : Identifier → Action (KeyManager S) (Str × ℕ)
  unfolding cached_or get
  get_raw id m = cached_or id (get id m.entries) m

  -- `KeyManager.create`
  unfoldable pub create_raw : Identifier → Str → Action (KeyManager S) (Unit {0})
  unfolding on_backend invalidate
  create_raw id value = do on_backend (b.store.create_value id value); invalidating id

  -- `KeyManager.update`
  unfoldable pub update_raw : Identifier → Str → Action (KeyManager S) (Unit {0})
  unfolding on_backend invalidate
  update_raw id value = do on_backend (b.store.update_value id value); invalidating id

  -- `CreateCredentials`
  unfoldable pub create_credentials : Identifier → Str → Action (KeyManager S) Credentials
  unfolding create_raw new_credentials marshal_credentials
  create_credentials id username = do
    creds ← on_backend (new_credentials b.clock b.generate_key_pair username)
    create_raw id (marshal_credentials b.codec creds)
    pure creds

  -- `UpdateCredentials`
  unfoldable pub update_credentials : Identifier → Credentials → Action (KeyManager S) (Unit {0})
  unfolding update_raw marshal_credentials
  update_credentials id creds = update_raw id (marshal_credentials b.codec creds)

  -- `GetCredentials`
  unfoldable pub get_credentials : Identifier → Action (KeyManager S) Credentials
  unfolding get_raw unmarshal_credentials
  get_credentials id = do read ← get_raw id; lift (unmarshal_credentials b.codec read.0 read.1)

  -- `DeleteCredentials`
  unfoldable pub delete_credentials : Identifier → Action (KeyManager S) (Unit {0})
  unfolding on_backend invalidate
  delete_credentials id = do on_backend (b.store.delete_value id); invalidating id
