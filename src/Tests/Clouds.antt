-- ===== src/Tests/Clouds.antt =====
-- Secrets Manager in memory, and the key store on it.
use yukimi.Base.{
  nat_beq, if◌then◌else◌, Str, text, length, str_beq, get, ℕ, ◌≡◌, refl, sym, ap, subst, Bool, true,
  false, Option, none, some, List, [], ◌∷◌, arith,
}
use yukimi.Errors.{Error, plain, wrapped, invalid_request, resource_not_found, Result, ok, err}
use yukimi.Results.{ok_inj, err-not-ok}
use yukimi.Effects.{Action, rename_error, on_error, rename_ok}
use yukimi.Secrets.Identifier.{identifier_eq, Identifier}
use yukimi.Secrets.KeyStore.{FakeKeyStore, new_fake_key_store, fake_key_store}
use yukimi.Secrets.KeyStore.Contract.{
  Slot, vacant, live, recoverable, is_live, IsKeyStore, entry_slot, fake_slot, fake-IsKeyStore,
}
use yukimi.Secrets.Aws.{
  SecretsClient, AwsKeyStore, is_not_found, to_string, to_time, forgive, aws_delete, aws_key_store,
  recovery_window, new_aws_key_store,
}
use yukimi.Secrets.Aws.Causes.{Cause, itself, below}
use yukimi.Tests.Configs.{
  loaded_backplane, some_file, decode_backplane, backplane_loaded, no_durations, unmarshal,
  decode_base, loaded_base, base_loaded,
}
use yukimi.Snowflake.Pool.Cache.{tenant_key_eq, PoolState, tenant_key}
use yukimi.Snowflake.Pool.Shutdown.{
  pool_close, open_databases, attempt_all, failures, pool_close-attempts,
}
use yukimi.Account.ResourceData.{Db}
use yukimi.Provider.{running, Started, open_key_store, start_up}
use yukimi.Provider.Ready.{IsReady, start_up-IsReady}
use yukimi.Config.Base.{load_base}
use yukimi.Config.Backplane.Load.{load}
use yukimi.Secrets.Aws.Contract.{IsSecretsManager, aws_slot, aws-IsKeyStore}

abbrev named : Str → Identifier
named n = record { value = n }

abbrev optional : Result (Str × ℕ) → Result (Option Str × Option ℕ)
optional (ok (v, t)) = ok (some v, some t)
optional (err e) = err e

abbrev other_error : Error → Error
other_error e = plain []

abbrev memory_get : Str → Action FakeKeyStore (Option Str × Option ℕ)
memory_get n s = let (r, s') = fake_key_store.get_value (named n) s in (optional r, s')

abbrev missing_answer : Error
missing_answer = wrapped (text "operation error: ") (resource_not_found (text "none there")) []

abbrev pending_answer : Error
pending_answer =
    wrapped (text "operation error: ") (invalid_request (text "marked for deletion")) []

-- DeleteSecret refuses where there is nothing to delete.
delete_held : Str → Slot → Action FakeKeyStore (Unit {0})
delete_held n vacant s = (err missing_answer, s)
delete_held n (live v t) s = on_error other_error (fake_key_store.delete_value (named n)) s
delete_held n recoverable s = (err pending_answer, s)

memory_delete : Str → ℕ → Action FakeKeyStore (Unit {0})
unfolding delete_held
memory_delete n days s = delete_held n (fake_slot s (named n)) s

abbrev memory_client : SecretsClient FakeKeyStore
memory_client = record {
  get_secret_value = memory_get;
  create_secret = λ n v kms. fake_key_store.create_value (named n) v;
  put_secret_value = λ n v. fake_key_store.update_value (named n) v;
  delete_secret = memory_delete;
}

abbrev memory_slot : FakeKeyStore → Str → Slot
memory_slot s n = fake_slot s (named n)

optional_ok :
    (r : Result (Str × ℕ)) (out : Option Str × Option ℕ)
    → optional r ≡ ok out
    → r ≡ ok (to_string out.0, to_time out.1)
optional_ok (ok (v, t)) out h =
    ap (λ (p : Option Str × Option ℕ). ok (to_string p.0, to_time p.1))
      (ok_inj (some v, some t) out h)
optional_ok (err e) out h = err-not-ok h

is_plain : Error → Bool
is_plain (plain m) = true
is_plain e = false

error_of : Result (Unit {0}) → Error
error_of (ok t) = plain []
error_of (err e) = e

no_cause_plain : {P : Type 0} {c : Error} → is_plain c ≡ false → Cause c (plain []) → P
unfolding is_plain
no_cause_plain h itself = ground arith

held_other :
    (n k : Str) (x : Slot) (s : FakeKeyStore)
    → str_beq n k ≡ false
    → memory_slot (delete_held n x s).1 k ≡ memory_slot s k
unfolding delete_held
held_other n k vacant s h = refl
held_other n k (live v t) s h = fake-IsKeyStore.delete_other (named n) (named k) s h
held_other n k recoverable s h = refl

held_gone :
    (n : Str) (x : Slot) (s : FakeKeyStore)
    → (delete_held n x s).0 ≡ ok tt
    → is_live (memory_slot (delete_held n x s).1 n) ≡ false
unfolding delete_held
held_gone n vacant s h = err-not-ok h
held_gone n (live v t) s h = fake-IsKeyStore.delete_gone (named n) s (rename_ok other_error _ tt h)
held_gone n recoverable s h = err-not-ok h

-- The error of a refused deletion, and what it says of the slot.
refused_plain :
    (r : Result (Unit {0})) (e : Error) → rename_error other_error r ≡ err e → e ≡ plain []
unfolding error_of
refused_plain (ok t) e h = err-not-ok (sym h)
refused_plain (err x) e h = sym (ap error_of h)

held_missing :
    (n m : Str) (x : Slot) (s : FakeKeyStore) (e : Error)
    → memory_slot s n ≡ x
    → (delete_held n x s).0 ≡ err e
    → Cause (resource_not_found m) e
    → memory_slot (delete_held n x s).1 n ≡ vacant
unfolding delete_held error_of is_plain
held_missing n m vacant s e h k c = h
held_missing n m (live v t) s e h k c = no_cause_plain refl (
    subst (λ y. Cause (resource_not_found m) y)
      (refused_plain (fake_key_store.delete_value (named n) s).0 e k) c)
held_missing n m recoverable s e h k c =
    only_pending (subst (λ y. Cause (resource_not_found m) y) (sym (ap error_of k)) c)
  where
    only_pending : {P : Type 0} → Cause (resource_not_found m) pending_answer → P
    only_pending (below c) = elim c [ ]

held_pending :
    (n m : Str) (x : Slot) (s : FakeKeyStore) (e : Error)
    → memory_slot s n ≡ x
    → (delete_held n x s).0 ≡ err e
    → Cause (invalid_request m) e
    → memory_slot (delete_held n x s).1 n ≡ recoverable
unfolding delete_held error_of is_plain
held_pending n m vacant s e h k c =
    only_missing (subst (λ y. Cause (invalid_request m) y) (sym (ap error_of k)) c)
  where
    only_missing : {P : Type 0} → Cause (invalid_request m) missing_answer → P
    only_missing (below c) = elim c [ ]
held_pending n m (live v t) s e h k c = no_cause_plain refl (
    subst (λ y. Cause (invalid_request m) y)
      (refused_plain (fake_key_store.delete_value (named n) s).0 e k) c)
held_pending n m recoverable s e h k c = h

memory_law : IsSecretsManager memory_slot memory_client
unfolding memory_delete
memory_law = record {
  get_keeps = λ n k s. fake-IsKeyStore.get_keeps (named n) (named k) s;
  get_found = λ n s out h.
      fake-IsKeyStore.get_live (named n) s _ _
        (optional_ok (fake_key_store.get_value (named n) s).0 out h);
  create_found = λ n v kms s h.
      let (t, l) = fake-IsKeyStore.create_live (named n) v s h in
      (fake-IsKeyStore.create_vacant (named n) v s h, t, l);
  create_other = λ n k v kms s h. fake-IsKeyStore.create_other (named n) (named k) v s h;
  create_untouched =
      λ n v kms s e held t h k. fake-IsKeyStore.create_untouched (named n) v s e held t h k;
  put_found = λ n v s h.
      let (t, l) = fake-IsKeyStore.update_live (named n) v s h in
      (fake-IsKeyStore.update_found (named n) v s h, t, l);
  put_other = λ n k v s h. fake-IsKeyStore.update_other (named n) (named k) v s h;
  delete_gone = λ n days s h. held_gone n (memory_slot s n) s h;
  delete_other = λ n k days s h. held_other n k (memory_slot s n) s h;
  delete_missing = λ n days s e m h c. held_missing n m (memory_slot s n) s e refl h c;
  delete_pending = λ n days s e m h c says. held_pending n m (memory_slot s n) s e refl h c;
}

-- A second deletion is refused by the service, and is none the less a success.
deleted_twice :
    let store =
      aws_key_store
        (record { client = memory_client; kms_key_id = []; recovery_window_days = 30 }) in
    let s = (store.delete_value (named (b'1' ∷ [])) (new_fake_key_store 0)).1 in
    (store.delete_value (named (b'1' ∷ [])) s).0 ≡ ok tt
unfolding aws_key_store aws_delete memory_delete delete_held fake_slot entry_slot get forgive
    is_not_found
deleted_twice = refl

abbrev memory_store : AwsKeyStore FakeKeyStore
memory_store = record { client = memory_client; kms_key_id = []; recovery_window_days = 30 }

aws-IsKeyStore_example :
    IsKeyStore (aws_slot memory_slot memory_store memory_law) (aws_key_store memory_store)
aws-IsKeyStore_example = aws-IsKeyStore memory_slot memory_store memory_law

-- A start whose configuration has a grace period above the longest recovery window.
abbrev memory_loader : Str → Action FakeKeyStore (SecretsClient FakeKeyStore)
memory_loader region s = (ok memory_client, s)

abbrev unlogged : Str → FakeKeyStore → FakeKeyStore
unlogged line s = s

abbrev small_start : Started FakeKeyStore
small_start = record {
  base_config = loaded_base;
  backplane = loaded_backplane;
  store = record {
    client = memory_client;
    kms_key_id = text "alias/my-key";
    recovery_window_days = 30;
  };
}

started :
    (start_up memory_loader unlogged
      (load_base some_file unmarshal decode_base no_durations [])
      (load some_file decode_backplane [])
      (new_fake_key_store 7)).0
    ≡ running small_start
unfolding start_up open_key_store new_aws_key_store recovery_window str_beq text
started = rw base_loaded (rw backplane_loaded refl)

start_up-IsReady_example : IsReady small_start
start_up-IsReady_example =
    start_up-IsReady memory_loader unlogged some_file unmarshal decode_base no_durations
      decode_backplane [] (new_fake_key_store 7) small_start started

-- A pool whose second connection cannot be closed; the world is the connections tried.
abbrev close_logged : Db → Action (List Db) (Unit {0})
close_logged db w = (if nat_beq db 8 then err (plain []) else ok tt, db ∷ w)

abbrev busy_pool : PoolState (List Db)
busy_pool = record {
  org_admin_db = some 3;
  entries =
      (tenant_key [] [], record { db = 8; locator = []; region = [] })
      ∷ (tenant_key [] (b's' ∷ []), record { db = 9; locator = []; region = [] })
      ∷ [];
  world = [];
}

pool_close-attempts_example :
    ((pool_close close_logged busy_pool).1 ≡ record {
      org_admin_db = none;
      entries = [];
      world = attempt_all close_logged (open_databases close_logged busy_pool) [];
    })
    × (length (pool_close close_logged busy_pool).0
        ≡ failures close_logged (open_databases close_logged busy_pool) [])
pool_close-attempts_example = pool_close-attempts close_logged busy_pool
