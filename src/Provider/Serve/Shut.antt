-- ===== src/Provider/Serve/Shut.antt =====
-- What is left of the connections when cmd/provider/main.go ends.
use yukimi.Snowflake.Pool.Leaks.Calls.{pool_run, run-IsTight}
use yukimi.Provider.Serve.{
  setup_gated, pool_config, new_pool, returned, exited, Run, logged, close_logged, after_start,
  after_setup, after_gate, after_org_admin, serve,
}
use yukimi.Provider.{Fatal}
use yukimi.Snowflake.Pool.Leaks.{org_admin_holds, entries_hold}
use yukimi.Snowflake.Pool.Leaks.Keeps.{IsTidy}
use yukimi.Snowflake.Pool.Leaks.Operations.{IsTight, org_admin-IsTight, close-IsTight}
use yukimi.Snowflake.Pool.Shutdown.{pool_close, pool_close-attempts}
use yukimi.Snowflake.Pool.Cache.{PoolState, pool_org_admin_db}
use yukimi.Snowflake.Pool.Backend.{PoolConfig, PoolBackend}
use yukimi.Config.Base.Settings.{BaseConfig}
use yukimi.Account.ResourceData.{Db}
use yukimi.Effects.{Action}
use yukimi.Errors.{Error, Result, ok, err}
use yukimi.Base.{nat_beq, ◌≡◌, ap, ◌∙◌, Bool, false, not, ◌&&◌, none, List, [], ◌∷◌, arith}

exited-not-returned : {A : Type 0} {f : Fatal} → exited f ≡ returned → A
exited-not-returned h = ground arith

module _ {W : Type 0} (b : PoolBackend W) (close_db : Db → Action W (Unit {0}))
    (log_failures : List Error → W → W) (is_open : Db → W → Bool) (law : IsTidy b is_open)
    (closes : (db : Db) (w : W) (x : Db)
      → is_open x (close_db db w).1 ≡ (not (nat_beq x db) && is_open x w))
    (logs : (es : List Error) (w : W) (x : Db) → is_open x (log_failures es w) ≡ is_open x w) where
  new_pool-IsTight : (w : W) → ((x : Db) → is_open x w ≡ false) → IsTight is_open (new_pool w)
  unfolding new_pool entries_hold
  new_pool-IsTight w none_open = record { keyed = tt; exact = λ x. rw (none_open x) (omega arith) }

  emptied_is_shut :
      (s : PoolState W) (x : Db)
      → IsTight is_open s
      → s.org_admin_db ≡ none
      → s.entries ≡ []
      → is_open x s.world ≡ false
  unfolding entries_hold
  emptied_is_shut s x h no_org_admin no_entries =
      ground (arith, h.exact x, ap (org_admin_holds x) no_org_admin, ap (entries_hold x) no_entries)

  logged_is_shut :
      (r : List Error × PoolState W) (x : Db)
      → is_open x r.1.world ≡ false
      → is_open x (logged b close_db log_failures r).world ≡ false
  unfolding logged
  logged_is_shut ([], s) x h = h
  logged_is_shut (e ∷ es, s) x h = logs (e ∷ es) s.world x ∙ h

  close_logged_is_shut :
      (s : PoolState W) (x : Db)
      → IsTight is_open s
      → is_open x (close_logged b close_db log_failures s).world ≡ false
  unfolding close_logged
  close_logged_is_shut s x h =
      let emptied = (pool_close-attempts close_db s).0 in
      logged_is_shut (pool_close close_db s) x (
        emptied_is_shut (pool_close close_db s).1 x (close-IsTight is_open close_db closes s h)
          (ap (λ t. t.org_admin_db) emptied) (ap (λ t. t.entries) emptied))

  after_start_is_shut :
      (r : Result (Unit {0})) (s : PoolState W) (x : Db)
      → IsTight is_open s
      → (after_start b close_db log_failures r s).0 ≡ returned
      → is_open x (after_start b close_db log_failures r s).1.world ≡ false
  unfolding after_start
  after_start_is_shut (err e) s x h done = exited-not-returned done
  after_start_is_shut (ok t) s x h done = close_logged_is_shut s x h

  after_gate_is_shut :
      (cfg : PoolConfig) (run : Run) (r : Result (Unit {0})) (s : PoolState W) (x : Db)
      → IsTight is_open s
      → (after_gate b close_db log_failures cfg run r s).0 ≡ returned
      → is_open x (after_gate b close_db log_failures cfg run r s).1.world ≡ false
  unfolding after_gate after_setup setup_gated
  after_gate_is_shut cfg run (err e) s x h done = exited-not-returned done
  after_gate_is_shut cfg run (ok t) s x h done =
      after_start_is_shut run.start (pool_run b cfg close_db run.calls s) x
        (run-IsTight b cfg close_db is_open law closes run.calls s h) done

  after_org_admin_is_shut :
      (cfg : PoolConfig) (run : Run) (r : Result Db × PoolState W) (x : Db)
      → IsTight is_open r.1
      → (after_org_admin b close_db log_failures cfg run r).0 ≡ returned
      → is_open x (after_org_admin b close_db log_failures cfg run r).1.world ≡ false
  unfolding after_org_admin
  after_org_admin_is_shut cfg run (err e, s) x h done = exited-not-returned done
  after_org_admin_is_shut cfg run (ok db, s) x h done =
      after_gate_is_shut cfg run run.crd_gate s x h done

  -- Whatever the controllers did with the pool and whatever calls failed, a provider that starts
  -- with no connection open and returns from `main` has closed every connection that it opened.
  pub serve_returned :
      (cfg : BaseConfig) (run : Run) (w : W) (x : Db)
      → ((y : Db) → is_open y w ≡ false)
      → (serve b close_db log_failures cfg run w).0 ≡ returned
      → is_open x (serve b close_db log_failures cfg run w).1.world ≡ false
  unfolding serve
  serve_returned cfg run w x none_open done =
      after_org_admin_is_shut (pool_config cfg) run
        (pool_org_admin_db b (pool_config cfg) (new_pool w)) x
        (org_admin-IsTight b (pool_config cfg) is_open law (new_pool w)
          (new_pool-IsTight w none_open))
        done
