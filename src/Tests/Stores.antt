-- ===== src/Tests/Stores.antt =====
-- The key store, its cache, the connection pool and the log.
use yukimi.Snowflake.Pool.Rotation.Description.{first_row, second_row, Lists, here, there}
use yukimi.Results.{ok_inj, err-not-ok}
use yukimi.Secrets.Manager.Coherence.{reads, run, is_certain, read-run}
use yukimi.Secrets.Manager.{Backend, new_key_manager, get_raw}
use yukimi.Snowflake.Pool.Rotation.Access.{
  Keyring, CanConnect, put_slot, IsSlot, IsUserBackend, rotate_credential-CanConnect,
}
use yukimi.Snowflake.Pool.Rotation.{
  rsa_public_key_slot, rsa_public_key_2_slot, quote_username, desc_user_sql, alter_user_sql,
  rotate_credential,
}
use yukimi.Snowflake.Pool.Cache.{tenant_key_eq}
use yukimi.Snowflake.Pool.Backend.{PoolConfig, PoolBackend}
use yukimi.Tests.Fixtures.{small_credentials}
use yukimi.Secrets.Identifier.{identifier_eq, Identifier}
use yukimi.Secrets.KeyStore.{FakeEntry, FakeKeyStore, new_fake_key_store, fake_key_store}
use yukimi.Secrets.KeyStore.Refinement.{Implements, fake-Implements}
use yukimi.Secrets.KeyStore.Contract.{live, fake_slot, fake-IsKeyStore}
use yukimi.Base.{
  nat_beq, if◌then◌else◌, Str, text, str_beq, replace_all, to_upper, get, ℕ, zero, suc, ◌≡◌, refl,
  sym, subst, inl, inr, true, false, List, [], ◌∷◌,
}
use yukimi.Errors.{plain, ok, err, new_user_error, is_user_error}

abbrev one : Identifier
one = record { value = b'1' ∷ [] }

abbrev held : FakeEntry
held = record { value = b'v' ∷ []; modified_at = 4; pending = false }

abbrev occupied : FakeKeyStore
occupied = record (new_fake_key_store 7) { entries = (one, held) ∷ [] }

user_x : is_user_error (new_user_error (b'x' ∷ [])) ≡ true
unfolding is_user_error new_user_error
user_x = refl

abbrev fake_backend : Backend FakeKeyStore
fake_backend = record {
  clock = λ s. s.clock;
  store = fake_key_store;
  codec = record {
    encode = λ username public_key private_key. username;
    decode = λ s. ok (s, s, s);
  };
  generate_key_pair = λ s. (ok ([], []), s);
}

-- The second read is served from the cache.
read_twice :
    (get_raw fake_backend one (run fake_backend (new_key_manager occupied 60) (reads one ∷ []))).0
    ≡ ok (b'v' ∷ [], 4)
unfolding get_raw run str_beq get fake_key_store
read_twice = refl

read_is_certain :
    is_certain fake_backend one true (new_key_manager occupied 60) (reads one ∷ []) ≡ true
unfolding is_certain
read_is_certain = refl

read-run_example :
    fake_slot (run fake_backend (new_key_manager occupied 60) (reads one ∷ [])).backend one
    ≡ live (b'v' ∷ []) 4
read-run_example =
    read-run fake_backend fake_slot fake-IsKeyStore occupied 60 (reads one ∷ []) one (b'v' ∷ []) 4
      read_is_certain read_twice

abbrev scheduling : FakeKeyStore
scheduling = record occupied { schedules_deletion = true }

fake-Implements_example : Implements fake_slot fake_key_store true 7 one one (b'w' ∷ []) scheduling
fake-Implements_example = fake-Implements one one (b'w' ∷ []) scheduling (refl, refl, refl, refl)

-- A user with a credential in the first slot, whose other slot is free. ALTER USER is read from
-- its text, every generated key has the fingerprint `n`, and no write of the store succeeds.
abbrev next_fingerprint : Str
next_fingerprint = b'n' ∷ []

abbrev byte_at : ℕ → Str → ℕ
byte_at n [] = 0
byte_at zero (c ∷ s) = c
byte_at (suc n) (c ∷ s) = byte_at n s

abbrev fingerprint_row : Str → Str → List Str
fingerprint_row property v = property ∷ v ∷ []

abbrev alter_ring : Str → Keyring → Keyring
alter_ring sql k = record k {
  slots =
      if nat_beq (byte_at 33 sql) b'_'
      then put_slot rsa_public_key_2_slot next_fingerprint k.slots
      else put_slot rsa_public_key_slot next_fingerprint k.slots;
}

abbrev user_backend : PoolBackend Keyring
user_backend = record {
  PrivateKey = Str;
  parse_private_key = λ s. ok s;
  public_key_fingerprint = λ key. key;
  clock = λ k. 100;
  get_credentials = λ id k. (ok small_credentials, k);
  update_credentials = λ id c k. (err (plain []), k);
  new_credentials = λ username k. (ok small_credentials, k);
  dial = λ cfg k. (ok 3, k);
  close = λ db k. k;
  query_rows = λ db sql k. (
    ok (
        fingerprint_row (text "RSA_PUBLIC_KEY_FP") k.slots.0
        ∷ fingerprint_row (text "RSA_PUBLIC_KEY_2_FP") k.slots.1
        ∷ []),
    k,
  );
  exec_context = λ db sql k. (ok tt, alter_ring sql k);
}

abbrev user_name : Str
user_name = b'u' ∷ []

first_listed :
    (k : Keyring)
    → Lists first_row k.slots.0
        (fingerprint_row first_row k.slots.0 ∷ fingerprint_row second_row k.slots.1 ∷ [])
unfolding text str_beq
first_listed k = here (refl, tt)

second_listed :
    (k : Keyring)
    → Lists second_row k.slots.1
        (fingerprint_row first_row k.slots.0 ∷ fingerprint_row second_row k.slots.1 ∷ [])
unfolding text str_beq
second_listed k = there refl (here tt)

user_scans :
    (k : Keyring) (rows : List (List Str))
    → (user_backend.query_rows 3 (desc_user_sql user_name) k).0 ≡ ok rows
    → Lists first_row k.slots.0 rows × Lists second_row k.slots.1 rows
user_scans k rows h =
    subst (λ rows. Lists first_row k.slots.0 rows × Lists second_row k.slots.1 rows)
      (ok_inj _ rows h) (first_listed k, second_listed k)

user_alters :
    (k : Keyring) (slot public_key : Str)
    → IsSlot slot
    → alter_ring (alter_user_sql user_name slot public_key) k
      ≡ record k { slots = put_slot slot next_fingerprint k.slots }
unfolding quote_username text to_upper replace_all str_beq
user_alters k slot public_key (inl e) =
    subst
      (λ slot.
        alter_ring (alter_user_sql user_name slot public_key) k
        ≡ record k { slots = put_slot slot next_fingerprint k.slots })
      (sym e) refl
user_alters k slot public_key (inr e) =
    subst
      (λ slot.
        alter_ring (alter_user_sql user_name slot public_key) k
        ≡ record k { slots = put_slot slot next_fingerprint k.slots })
      (sym e) refl

user_law : IsUserBackend user_backend 3 one user_name (λ k. k) (λ c. next_fingerprint)
user_law = record {
  desc_keeps = λ k. refl;
  desc_reads = user_scans;
  generate_keeps = λ k. refl;
  alter_sets = λ k slot c s h. user_alters k slot c.public_key s;
  alter_may_set = λ k slot c s. inr (user_alters k slot c.public_key s);
  update_stores = λ k c h. err-not-ok h;
  update_keeps = λ k c e h. refl;
}

abbrev in_first_slot : Keyring
in_first_slot = record { stored = b'c' ∷ []; slots = (b'c' ∷ [], []) }

rotate_credential-CanConnect_example :
    CanConnect (rotate_credential user_backend 3 one user_name (b'c' ∷ []) in_first_slot).1
rotate_credential-CanConnect_example =
    rotate_credential-CanConnect user_backend 3 one user_name (λ k. k) (λ c. next_fingerprint)
      user_law (b'c' ∷ []) in_first_slot refl (inl refl)

abbrev pool_config : PoolConfig
pool_config = record {
  org = b'a' ∷ [];
  org_admin_account = b'b' ∷ [];
  org_admin_account_locator = b'l' ∷ [];
  org_admin_account_region = b'r' ∷ [];
  use_private_link = false;
  disable_ocsp_checks = false;
  rotation_interval = 1000;
}
