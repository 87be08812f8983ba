-- ===== src/Snowflake/Pool/Leaks/Keeps.antt =====
-- The parts of a call that open and close no connection.
use yukimi.Snowflake.Pool.Cache.{connect}
use yukimi.Snowflake.Pool.Connect.Probe.{opens_result, is_fresh_result}
use yukimi.Snowflake.Pool.Backend.{PoolConfig, SnowflakeConfig, PoolBackend}
use yukimi.Snowflake.Pool.Rotation.{
  credential_due, desc_user_sql, target_slot, push, pick, generate, rotate_credential,
  rotate_parsed, rotate_if_due, maybe_rotate,
}
use yukimi.Secrets.Identifier.{Identifier}
use yukimi.Secrets.Credentials.{Credentials}
use yukimi.Account.ResourceData.{Db}
use yukimi.Effects.{Action, rename_error, proceed, ◌>>=◌, on_error}
use yukimi.Errors.{Error, Result, ok, err}
use yukimi.Base.{nat_beq, Bool-cases, Str, ◌≡◌, refl, sym, ◌∙◌, inl, inr, Bool, true, not, ◌&&◌}

-- An action after which the same connections are open.
pub record KeepsOpen {W A : Type 0} (is_open : Db → W → Bool) (m : Action W A) : Type 0 where
  pub at : (x : Db) (w : W) → is_open x (m w).1 ≡ is_open x w

module _ {W A : Type 0} {is_open : Db → W → Bool} where
  pub KeepsOpen-lift : (r : Result A) → KeepsOpen {W = W} is_open (λ w. (r, w))
  KeepsOpen-lift r = record { at = λ x w. refl }

  pub KeepsOpen-on_error :
      (f : Error → Error) (m : Action W A) → KeepsOpen is_open m → KeepsOpen is_open (on_error f m)
  KeepsOpen-on_error f m k = record { at = λ x w. k.at x w }

  module _ {B : Type 0} where
    proceed_keeps :
        (f : A → Action W B) (r : Result A × W) (x : Db)
        → ((a : A) → KeepsOpen is_open (f a))
        → is_open x (proceed r f).1 ≡ is_open x r.1
    proceed_keeps f (ok a, w) x k = (k a).at x w
    proceed_keeps f (err e, w) x k = refl

    pub KeepsOpen-bind :
        (m : Action W A) (f : A → Action W B)
        → KeepsOpen is_open m
        → ((a : A) → KeepsOpen is_open (f a))
        → KeepsOpen is_open (m >>= f)
    KeepsOpen-bind m f k next = record { at = λ x w. proceed_keeps f (m w) x next ∙ k.at x w }

-- An action that opens its result, which was not open, and nothing else.
pub record OpensOne {W : Type 0} (is_open : Db → W → Bool) (m : Action W Db) : Type 0 where
  pub fresh : (w : W) → is_fresh_result is_open (m w).0 w ≡ true
  pub opened : (x : Db) (w : W) → is_open x (m w).1 ≡ opens_result is_open (m w).0 x w

module _ {W : Type 0} (is_open : Db → W → Bool) where
  renamed_fresh :
      (f : Error → Error) (r : Result Db) (w : W)
      → is_fresh_result is_open (rename_error f r) w ≡ is_fresh_result is_open r w
  renamed_fresh f (ok db) w = refl
  renamed_fresh f (err e) w = refl

  renamed_opens :
      (f : Error → Error) (r : Result Db) (x : Db) (w : W)
      → opens_result is_open (rename_error f r) x w ≡ opens_result is_open r x w
  renamed_opens f (ok db) x w = refl
  renamed_opens f (err e) x w = refl

  carried_fresh :
      (r : Result Db) (w w' : W)
      → ((x : Db) → is_open x w' ≡ is_open x w)
      → is_fresh_result is_open r w' ≡ is_fresh_result is_open r w
  carried_fresh (ok db) w w' k = rw (k db) refl
  carried_fresh (err e) w w' k = refl

  carried_opens :
      (r : Result Db) (x : Db) (w w' : W)
      → ((x : Db) → is_open x w' ≡ is_open x w)
      → opens_result is_open r x w' ≡ opens_result is_open r x w
  carried_opens (ok db) x w w' k = rw (k x) refl
  carried_opens (err e) x w w' k = k x

module _ {W : Type 0} {is_open : Db → W → Bool} where
  pub OpensOne-on_error :
      (f : Error → Error) (m : Action W Db) → OpensOne is_open m → OpensOne is_open (on_error f m)
  OpensOne-on_error f m k = record {
    fresh = λ w. renamed_fresh is_open f (m w).0 w ∙ k.fresh w;
    opened = λ x w. k.opened x w ∙ sym (renamed_opens is_open f (m w).0 x w);
  }

  module _ {A : Type 0} where
    proceed_fresh :
        (f : A → Action W Db) (r : Result A × W) (w : W)
        → ((x : Db) → is_open x r.1 ≡ is_open x w)
        → ((a : A) → OpensOne is_open (f a))
        → is_fresh_result is_open (proceed r f).0 w ≡ true
    proceed_fresh f (ok a, w') w k next =
        sym (carried_fresh is_open (f a w').0 w w' k) ∙ (next a).fresh w'
    proceed_fresh f (err e, w') w k next = refl

    proceed_opens :
        (f : A → Action W Db) (r : Result A × W) (x : Db) (w : W)
        → ((x : Db) → is_open x r.1 ≡ is_open x w)
        → ((a : A) → OpensOne is_open (f a))
        → is_open x (proceed r f).1 ≡ opens_result is_open (proceed r f).0 x w
    proceed_opens f (ok a, w') x w k next =
        (next a).opened x w' ∙ carried_opens is_open (f a w').0 x w w' k
    proceed_opens f (err e, w') x w k next = k x

    pub OpensOne-bind :
        (m : Action W A) (f : A → Action W Db)
        → KeepsOpen is_open m
        → ((a : A) → OpensOne is_open (f a))
        → OpensOne is_open (m >>= f)
    OpensOne-bind m f k next = record {
      fresh = λ w. proceed_fresh f (m w) w (λ x. k.at x w) next;
      opened = λ x w. proceed_opens f (m w) x w (λ x. k.at x w) next;
    }

-- What the pool relies on: the key manager, queries and statements open and close no connection, a
-- dial opens its result, which was not open, and a close closes it.
pub record IsTidy {W : Type 0} (b : PoolBackend W) (is_open : Db → W → Bool) : Type 0 where
  pub reads : (id : Identifier) → KeepsOpen is_open (b.get_credentials id)
  pub updates : (id : Identifier) (c : Credentials) → KeepsOpen is_open (b.update_credentials id c)
  pub generates : (username : Str) → KeepsOpen is_open (b.new_credentials username)
  pub queries : (db : Db) (sql : Str) → KeepsOpen is_open (b.query_rows db sql)
  pub executes : (db : Db) (sql : Str) → KeepsOpen is_open (b.exec_context db sql)
  pub dials : (cfg : SnowflakeConfig b.PrivateKey) → OpensOne is_open (b.dial cfg)
  pub closes :
      (db : Db) (w : W) (x : Db) → is_open x (b.close db w) ≡ (not (nat_beq x db) && is_open x w)

module _ {W : Type 0} (b : PoolBackend W) (cfg : PoolConfig) {is_open : Db → W → Bool}
    (law : IsTidy b is_open) where
  target_slot-KeepsOpen :
      (db : Db) (username current : Str) → KeepsOpen is_open (target_slot b db username current)
  unfolding target_slot
  target_slot-KeepsOpen db username current =
      KeepsOpen-bind _ _ (law.queries db (desc_user_sql username)) (λ rows. KeepsOpen-lift _)

  rotate_credential-KeepsOpen :
      (db : Db) (id : Identifier) (username : Str) (key : b.PrivateKey)
      → KeepsOpen is_open (rotate_credential b db id username key)
  unfolding rotate_credential
  rotate_credential-KeepsOpen db id username key =
      KeepsOpen-bind (pick b db username key) _
        (KeepsOpen-on_error _ _ (target_slot-KeepsOpen db username _))
        λ slot.
          KeepsOpen-bind (generate b username) _ (KeepsOpen-on_error _ _ (law.generates username))
            λ fresh.
              KeepsOpen-bind (push b db username slot fresh) _
                (KeepsOpen-on_error _ _ (law.executes db _))
                λ _. KeepsOpen-on_error _ _ (law.updates id fresh)

  parsed_keeps :
      (db : Db) (id : Identifier) (username : Str) (r : Result b.PrivateKey) (w : W) (x : Db)
      → is_open x (rotate_parsed b db id username r w) ≡ is_open x w
  unfolding rotate_parsed
  parsed_keeps db id username (ok key) w x = (rotate_credential-KeepsOpen db id username key).at x w
  parsed_keeps db id username (err e) w x = refl

  due_keeps :
      (db : Db) (id : Identifier) (r : Result Credentials × W) (x : Db)
      → is_open x (rotate_if_due b cfg db id r) ≡ is_open x r.1
  unfolding rotate_if_due
  due_keeps db id (err e, w) x = refl
  due_keeps db id (ok creds, w) x =
      elim (Bool-cases (credential_due (b.clock w) cfg.rotation_interval creds.rotated_at)) [
        | inl h ↦
            rw h (parsed_keeps db id creds.username (b.parse_private_key creds.private_key) w x)
        | inr h ↦ rw h refl
      ]

  pub maybe_rotate-is_open :
      (db : Db) (id : Identifier) (w : W) (x : Db)
      → is_open x (maybe_rotate b cfg db id w) ≡ is_open x w
  unfolding maybe_rotate
  maybe_rotate-is_open db id w x =
      due_keeps db id (b.get_credentials id w) x ∙ (law.reads id).at x w

  pub connect-OpensOne :
      (id : Identifier) (read_of parse_of : Str) (described : Str → Str)
      (tip locator region role : Str)
      → OpensOne is_open (connect b cfg id read_of parse_of described tip locator region role)
  unfolding connect
  connect-OpensOne id read_of parse_of described tip locator region role =
      OpensOne-bind _ _ (KeepsOpen-lift _) λ hostname.
        OpensOne-bind _ _ (KeepsOpen-on_error _ _ (law.reads id))
          λ creds. OpensOne-bind _ _ (KeepsOpen-lift _) λ key. OpensOne-on_error _ _ (law.dials _)
