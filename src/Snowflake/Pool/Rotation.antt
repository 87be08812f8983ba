-- ===== src/Snowflake/Pool/Rotation.antt =====
-- internal/snowflake/pool/rotate.go.
pub mod Description
pub mod Access
use yukimi.Snowflake.Pool.Backend.{PoolConfig, PoolBackend}
use yukimi.Account.ResourceData.{Db}
use yukimi.Secrets.Identifier.{Identifier}
use yukimi.Secrets.Credentials.{Credentials}
use yukimi.Effects.{Action, ◌>>=◌, ◌>>◌, lift, on_error}
use yukimi.Base.{
  ltb, if◌then◌else◌, Str, text, str_beq, replace_all, to_upper, ℕ, ◌+◌, Bool, List, [], ◌∷◌, ◌++◌,
}
use yukimi.Errors.{Error, plain, Result, ok, err, wrap}

abbrev pub rsa_public_key_slot : Str
rsa_public_key_slot = text "RSA_PUBLIC_KEY"

abbrev pub rsa_public_key_2_slot : Str
rsa_public_key_2_slot = text "RSA_PUBLIC_KEY_2"

-- `credentialDue`, with the interval on the left
unfoldable pub credential_due : ℕ → ℕ → ℕ → Bool
credential_due now interval rotated_at = ltb (rotated_at + interval) now

-- `quoteIdentifier`
unfoldable pub quote_username : Str → Str
unfolding to_upper replace_all
quote_username s = 34 ∷ replace_all 34 (34 ∷ 34 ∷ []) (to_upper s) ++ 34 ∷ []

-- `slot1FP` and `slot2FP`
abbrev pub Fingerprints : Type 0
Fingerprints = Str × Str

unfoldable pub read_slot : Str → Str → Fingerprints → Fingerprints
unfolding str_beq text
read_slot property v (slot1, slot2) =
    if str_beq property (text "RSA_PUBLIC_KEY_FP")
    then (v, slot2)
    else if str_beq property (text "RSA_PUBLIC_KEY_2_FP")
    then (slot1, v)
    else (slot1, slot2)

-- The loop over the rows of `DESC USER`; a row of less than two columns is passed over.
unfoldable pub scan_rows : List (List Str) → Fingerprints → Fingerprints
unfolding read_slot
scan_rows [] slots = slots
scan_rows ([] ∷ rows) slots = scan_rows rows slots
scan_rows ((property ∷ []) ∷ rows) slots = scan_rows rows slots
scan_rows ((property ∷ v ∷ columns) ∷ rows) slots = scan_rows rows (read_slot property v slots)

pub no_slot : Str → Error
no_slot username =
    plain (
      text "neither key slot's fingerprint on "
      ++ username
      ++ text " matches the stored credential")

-- The switch at the end of `targetSlot`.
unfoldable pub choose_slot : Str → Str → Fingerprints → Result Str
choose_slot username current (slot1, slot2) =
    if str_beq slot1 current
    then ok rsa_public_key_2_slot
    else if str_beq slot2 current
    then ok rsa_public_key_slot
    else err (no_slot username)

abbrev pub desc_user_sql : Str → Str
desc_user_sql username = text "DESC USER " ++ quote_username username

abbrev pub alter_user_sql : Str → Str → Str → Str
alter_user_sql username slot public_key =
    text "ALTER USER "
    ++ quote_username username
    ++ text " SET "
    ++ slot
    ++ text " = '"
    ++ public_key
    ++ text "'"

module _ {W : Type 0} (b : PoolBackend W) where
  -- `targetSlot`
  unfoldable pub target_slot : Db → Str → Str → Action W Str
  unfolding scan_rows choose_slot
  target_slot db username current = do
    rows ← b.query_rows db (desc_user_sql username)
    lift (choose_slot username current (scan_rows rows ([], [])))

  abbrev pub push : Db → Str → Str → Credentials → Action W (Unit {0})
  push db username slot fresh =
      on_error
        (wrap (
          text "failed to push rotated public key into "
          ++ slot
          ++ text " for "
          ++ username
          ++ text ": "))
        (b.exec_context db (alter_user_sql username slot fresh.public_key))

  abbrev pub store : Identifier → Str → Credentials → Action W (Unit {0})
  store id username fresh =
      on_error (wrap (text "failed to store rotated credentials for " ++ username ++ text ": "))
        (b.update_credentials id fresh)

  abbrev pub pick : Db → Str → b.PrivateKey → Action W Str
  pick db username current_key =
      on_error (wrap (text "failed to determine rotation slot for " ++ username ++ text ": "))
        (target_slot db username (b.public_key_fingerprint current_key))

  abbrev pub generate : Str → Action W Credentials
  generate username =
      on_error (wrap (text "failed to generate rotated credentials for " ++ username ++ text ": "))
        (b.new_credentials username)

  -- `Pool.rotateCredential`
  unfoldable pub rotate_credential : Db → Identifier → Str → b.PrivateKey → Action W (Unit {0})
  unfolding target_slot
  rotate_credential db id username current_key = do
    slot ← pick db username current_key
    fresh ← generate username
    push db username slot fresh
    store id username fresh

  unfoldable pub rotate_parsed : Db → Identifier → Str → Result b.PrivateKey → W → W
  unfolding rotate_credential
  rotate_parsed db id username (ok key) w = (rotate_credential db id username key w).1
  rotate_parsed db id username (err e) w = w

  unfoldable pub rotate_if_due : PoolConfig → Db → Identifier → Result Credentials × W → W
  unfolding rotate_parsed credential_due
  rotate_if_due cfg db id (err e, w) = w
  rotate_if_due cfg db id (ok creds, w) =
      if credential_due (b.clock w) cfg.rotation_interval creds.rotated_at
      then rotate_parsed db id creds.username (b.parse_private_key creds.private_key) w
      else w

  -- `Pool.maybeRotateLocked`
  unfoldable pub maybe_rotate : PoolConfig → Db → Identifier → W → W
  unfolding rotate_if_due
  maybe_rotate cfg db id w = rotate_if_due cfg db id (b.get_credentials id w)
