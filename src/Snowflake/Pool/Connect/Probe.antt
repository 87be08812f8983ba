-- ===== src/Snowflake/Pool/Connect/Probe.antt =====
-- What a dial opens and what it closes.
use yukimi.Snowflake.Pool.Connect.{
  Driver, PoolSettings, after_ping, default_dial, apply_pool_settings, tuned, dial_tuned,
}
use yukimi.Snowflake.Pool.Backend.{SnowflakeConfig}
use yukimi.Account.ResourceData.{Db}
use yukimi.Errors.{Result, ok, err}
use yukimi.Base.{nat_beq, nat_beq_iff, ℕ, ◌≡◌, refl, ◌∙◌, Bool, true, false, not, ◌&&◌, ◌||◌, arith}

-- The documented behaviour of database/sql on which databases are open: `OpenDB` returns a fresh
-- one, `Close` closes it, even with an error, and nothing else opens or closes one.
pub record IsDriver {W K : Type 0} (d : Driver W K) (is_open : Db → W → Bool) : Type 0 where
  pub opens_fresh : (cfg : SnowflakeConfig K) (w : W) → is_open (d.open_db cfg w).0 w ≡ false
  pub opens :
      (cfg : SnowflakeConfig K) (w : W) (x : Db)
      → is_open x (d.open_db cfg w).1 ≡ (nat_beq x (d.open_db cfg w).0 || is_open x w)
  pub pings : (db : Db) (t : ℕ) (w : W) (x : Db) → is_open x (d.ping db t w).1 ≡ is_open x w
  pub closes :
      (db : Db) (w : W) (x : Db)
      → is_open x (d.close_db db w).1 ≡ (not (nat_beq x db) && is_open x w)
  pub sets_open :
      (db : Db) (n : ℕ) (w : W) (x : Db) → is_open x (d.set_max_open_conns db n w) ≡ is_open x w
  pub sets_idle :
      (db : Db) (n : ℕ) (w : W) (x : Db) → is_open x (d.set_max_idle_conns db n w) ≡ is_open x w
  pub sets_lifetime :
      (db : Db) (n : ℕ) (w : W) (x : Db) → is_open x (d.set_conn_max_lifetime db n w) ≡ is_open x w
  pub sets_idle_time :
      (db : Db) (n : ℕ) (w : W) (x : Db) → is_open x (d.set_conn_max_idle_time db n w) ≡ is_open x w

module _ {W : Type 0} (is_open : Db → W → Bool) where
  -- Whether `x` is open after an action that opens its result and nothing else.
  abbrev pub opens_result : Result Db → Db → W → Bool
  opens_result (ok db) x w = nat_beq x db || is_open x w
  opens_result (err e) x w = is_open x w

  abbrev pub is_fresh_result : Result Db → W → Bool
  is_fresh_result (ok db) w = not (is_open db w)
  is_fresh_result (err e) w = true

module _ {W K : Type 0} (d : Driver W K) (is_open : Db → W → Bool) (law : IsDriver d is_open) where
  settings_keep :
      (sf : PoolSettings) (db : Db) (w : W) (x : Db)
      → is_open x (apply_pool_settings d sf db w) ≡ is_open x w
  unfolding apply_pool_settings
  settings_keep sf db w x =
      law.sets_idle_time db _ _ x
      ∙ law.sets_lifetime db _ _ x
      ∙ law.sets_idle db _ _ x
      ∙ law.sets_open db _ w x

  probed :
      (sf : PoolSettings) (db : Db) (w w' : W) (r : Result (Unit {0}) × W) (x : Db)
      → is_open db w ≡ false
      → ((y : Db) → is_open y w' ≡ (nat_beq y db || is_open y w))
      → ((y : Db) → is_open y r.1 ≡ is_open y w')
      → (is_fresh_result is_open (tuned d sf (after_ping d db r)).0 w ≡ true)
        × (is_open x (tuned d sf (after_ping d db r)).1
            ≡ opens_result is_open (tuned d sf (after_ping d db r)).0 x w)
  unfolding tuned after_ping
  probed sf db w w' (ok t, w'') x fresh opened pinged =
      (rw fresh refl, settings_keep sf db w'' x ∙ pinged x ∙ opened x)
  probed sf db w w' (err e, w'') x fresh opened pinged =
      (refl, ground (arith, law.closes db w'' x, pinged x, opened x, nat_beq_iff x db))

  -- A dial that returns a connection has opened exactly that one, which was not open before. A
  -- dial that fails, at the probe too, leaves the same connections open as it found.
  pub dial_tuned-opens_result :
      (sf : PoolSettings) (cfg : SnowflakeConfig K) (w : W) (x : Db)
      → (is_fresh_result is_open (dial_tuned d sf cfg w).0 w ≡ true)
        × (is_open x (dial_tuned d sf cfg w).1 ≡ opens_result is_open (dial_tuned d sf cfg w).0 x w)
  unfolding dial_tuned default_dial
  dial_tuned-opens_result sf cfg w x =
      probed sf (d.open_db cfg w).0 w (d.open_db cfg w).1
        (d.ping (d.open_db cfg w).0 sf.connection_probe_timeout (d.open_db cfg w).1) x
        (law.opens_fresh cfg w) (law.opens cfg w)
        (law.pings (d.open_db cfg w).0 sf.connection_probe_timeout (d.open_db cfg w).1)
