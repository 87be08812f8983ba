-- ===== src/Snowflake/Pool/Shutdown.antt =====
-- `Pool.Close` of internal/snowflake/pool/pool.go. Closing a connection, with its error, is a
-- parameter; a joined error is the list of its errors, and no errors join to nil.
use yukimi.Snowflake.Pool.Cache.{TenantKey, TenantEntry, PoolState, whose}
use yukimi.Account.ResourceData.{Db}
use yukimi.Effects.{Action}
use yukimi.Base.{
  Str, text, length, Dict, ℕ, suc, ◌≡◌, refl, ap, ◌∙◌, Option, none, some, List, [], ◌∷◌, ◌++◌, map,
}
use yukimi.Errors.{Error, Result, ok, err, wrap}

abbrev errors_with : Str → Result (Unit {0}) → List Error → List Error
errors_with s (ok t) errs = errs
errors_with s (err e) errs = wrap s e ∷ errs

entry_failed : TenantKey → Str
entry_failed key = text "failed to close connection for " ++ whose key ++ text ": "

module _ {W : Type 0} (close_db : Db → Action W (Unit {0})) where
  close_org_admin : Option Db → W → List Error × W
  close_org_admin none w = ([], w)
  close_org_admin (some db) w =
      let (r, w') = close_db db w in
      (errors_with (text "failed to close org-admin connection: ") r [], w')

  -- The loop over `p.entries`.
  close_entries : Dict TenantKey TenantEntry → W → List Error × W
  unfolding entry_failed
  close_entries [] w = ([], w)
  close_entries ((key, entry) ∷ entries) w =
      let (r, w') = close_db entry.db w in
      let (errs, w'') = close_entries entries w' in (errors_with (entry_failed key) r errs, w'')

  -- `Pool.Close`
  unfoldable pub pool_close : PoolState W → List Error × PoolState W
  unfolding close_org_admin close_entries
  pool_close s =
      let (errs, w) = close_org_admin s.org_admin_db s.world in
      let (more, w') = close_entries s.entries w in
      (errs ++ more, record { org_admin_db = none; entries = []; world = w' })

  -- Every connection that the pool holds.
  unfoldable pub open_databases : PoolState W → List Db
  open_databases s =
      with_org_admin s.org_admin_db (map (λ (p : TenantKey × TenantEntry). p.1.db) s.entries)
    where
      with_org_admin : Option Db → List Db → List Db
      with_org_admin none dbs = dbs
      with_org_admin (some db) dbs = db ∷ dbs

  -- The world after one attempt at each, whatever comes of it, and the errors.
  unfoldable pub attempt_all : List Db → W → W
  attempt_all [] w = w
  attempt_all (db ∷ dbs) w = attempt_all dbs (close_db db w).1

  abbrev pub failed : Result (Unit {0}) → ℕ → ℕ
  failed (ok t) n = n
  failed (err e) n = suc n

  unfoldable pub failures : List Db → W → ℕ
  failures [] w = 0
  failures (db ∷ dbs) w = failed (close_db db w).0 (failures dbs (close_db db w).1)

  length-errors_with :
      (s : Str) (r : Result (Unit {0})) (errs : List Error)
      → length (errors_with s r errs) ≡ failed r (length errs)
  length-errors_with s (ok t) errs = refl
  length-errors_with s (err e) errs = refl

  close_entries-attempts :
      (entries : Dict TenantKey TenantEntry) (w : W)
      → ((close_entries entries w).1
          ≡ attempt_all (map (λ (p : TenantKey × TenantEntry). p.1.db) entries) w)
        × (length (close_entries entries w).0
            ≡ failures (map (λ (p : TenantKey × TenantEntry). p.1.db) entries) w)
  unfolding close_entries attempt_all failures
  close_entries-attempts [] w = (refl, refl)
  close_entries-attempts ((key, entry) ∷ entries) w =
      let (done, count) = close_entries-attempts entries (close_db entry.db w).1 in
      (
        done,
        length-errors_with (entry_failed key) (close_db entry.db w).0 _
            ∙ ap (failed (close_db entry.db w).0) count,
      )

  length-first_error :
      (s : Str) (r : Result (Unit {0})) (more : List Error)
      → length (errors_with s r [] ++ more) ≡ failed r (length more)
  length-first_error s (ok t) more = refl
  length-first_error s (err e) more = refl

  closed : W → PoolState W
  closed w = record { org_admin_db = none; entries = []; world = w }

  closed_with :
      (org_admin_db : Option Db) (entries : Dict TenantKey TenantEntry) (w : W)
      → let s : PoolState W = record {
        org_admin_db = org_admin_db;
        entries = entries;
        world = w;
      } in
        ((pool_close s).1 ≡ closed (attempt_all (open_databases s) w))
        × (length (pool_close s).0 ≡ failures (open_databases s) w)
  unfolding pool_close close_org_admin open_databases attempt_all failures closed
  closed_with none entries w =
      let (done, count) = close_entries-attempts entries w in (ap closed done, count)
  closed_with (some db) entries w =
      let (done, count) = close_entries-attempts entries (close_db db w).1 in
      (
        ap closed done,
        length-first_error (text "failed to close org-admin connection: ") (close_db db w).0 _
            ∙ ap (failed (close_db db w).0) count,
      )

  -- Close empties the pool: it keeps no connection. The world has seen one attempt to close each
  -- connection that the pool held, the org-admin connection first, whatever came of the attempts
  -- before, and there is one error for each attempt that failed.
  pub pool_close-attempts :
      (s : PoolState W)
      → ((pool_close s).1 ≡ record {
        org_admin_db = none;
        entries = [];
        world = attempt_all (open_databases s) s.world;
      })
        × (length (pool_close s).0 ≡ failures (open_databases s) s.world)
  unfolding closed
  pool_close-attempts s = closed_with s.org_admin_db s.entries s.world
