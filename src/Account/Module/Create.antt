-- ===== src/Account/Module/Create.antt =====
-- apply.go: the fresh-create path.
use yukimi.Snowflake.Statement.Rows.{string_value, found, find_row}
use yukimi.Secrets.Credentials.{Credentials}
use yukimi.Secrets.Identifier.{Identifier}
use yukimi.Effects.{Action, ◌>>=◌, pure, lift, on_error}
use yukimi.Account.ResourceData.{Db, ResourceData, on_world}
use yukimi.Apis.SnowflakeAccount.{SnowflakeAccountSpec}
use yukimi.Apis.Crossplane.{Crossplane}
use yukimi.Errors.{
  DriverFields, Error, plain, wrapped, wrapped_both, Result, ok, err, wrap, new_user_error,
  find_statement,
}
use yukimi.Base.{
  str_eq, ltb, if◌then◌else◌, Str, text, str_beq, is_empty, replace_all, to_upper, quoted, ℕ, ◌+◌,
  Bool, false, Option, none, some, List, [], ◌∷◌, ◌++◌,
}
use yukimi.Account.Module.Existing.{Platform, platform_user, query_on, exec_on}

duplicate_account_sql_state : Str
unfolding text
duplicate_account_sql_state = text "42710"

-- Five minutes.
abbrev pub resume_clock_skew_buffer : ℕ
resume_clock_skew_buffer = 300000000000

pub deleted_recently : Str → Error
deleted_recently name = new_user_error (
    text "account "
    ++ quoted name
    ++ text " was deleted recently and is still within its deletion recovery "
    ++ text "window; wait for the recovery window to elapse, then try again")

pub name_in_use : Str → Error
name_in_use resolved = new_user_error (
    text "account name '"
    ++ resolved
    ++ text
        "' is already in use by another account in the organization; rename this resource and try again")

-- `snowflakeRegionID`
unfoldable pub snowflake_region_id : Str → Str
unfolding to_upper replace_all
snowflake_region_id region = to_upper (replace_all b'-' (b'_' ∷ []) region)

-- The statement and the arguments of `execCreateAccount`.
pub create_sql : Str
create_sql =
    text
      "CREATE ACCOUNT IDENTIFIER(?) ADMIN_NAME=? ADMIN_RSA_PUBLIC_KEY=? ADMIN_USER_TYPE=SERVICE EMAIL=? EDITION=ENTERPRISE REGION=?"

pub create_args : Str → SnowflakeAccountSpec → Str → List Str
create_args resolved spec public_key =
    resolved ∷ platform_user ∷ public_key ∷ spec.contact ∷ snowflake_region_id spec.region ∷ []

create_comment : Str → Str
create_comment description = if is_empty description then [] else text " COMMENT=?"

comment_args : Str → List Str
comment_args description = if is_empty description then [] else description ∷ []

is_duplicate : Option DriverFields → Bool
unfolding duplicate_account_sql_state
is_duplicate none = false
is_duplicate (some d) = str_beq d.sql_state duplicate_account_sql_state

-- The class of a failure of CREATE ACCOUNT.
create_failure : Str → Error → Error
unfolding is_duplicate find_statement
create_failure resolved e =
    if is_duplicate (find_statement e)
    then name_in_use resolved
    else wrap (text "failed to create account: ") e

-- `ok && locator != ""`
non_empty : Option Str → Option Str
non_empty none = none
non_empty (some s) = if is_empty s then none else some s

pub not_located : Str → Error
not_located resolved = plain (
    text "CREATE ACCOUNT succeeded but no account named "
    ++ quoted resolved
    ++ text " was found by SHOW ACCOUNTS")

located : Str → Option Str → Result Str
located resolved none = err (not_located resolved)
located resolved (some locator) = ok locator

pub create_credentials_failed : Str
create_credentials_failed = text "failed to create platform credentials: "

pub foreign_secret : (ℕ → Str) → Credentials → ℕ → Error → Error
foreign_secret show creds created_at create_error =
    wrapped
      (create_credentials_failed
        ++ text "identifier is occupied by a secret written at "
        ++ show creds.rotated_at
        ++ text ", before this resource's own creation at "
        ++ show created_at
        ++ text " (minus a 5m0s clock-skew buffer)"
        ++ (32 ∷ 226 ∷ 128 ∷ 148 ∷ [])
        ++ text
            " this cannot be this resource's own crashed attempt and requires manual investigation: ")
      create_error []

-- `creds.RotatedAt.Before(createdAt.Add(-resumeClockSkewBuffer))`, with the buffer on the left
unfoldable pub own_attempt : (ℕ → Str) → ℕ → Error → Credentials → Result Credentials
own_attempt show created_at create_error creds =
    if ltb (creds.rotated_at + resume_clock_skew_buffer) created_at
    then err (foreign_secret show creds created_at create_error)
    else ok creds

unreadable : Error → Error → Error
unreadable create_error e =
    wrapped_both create_credentials_failed create_error
      (text " (and no earlier attempt could be read back to resume from: ") e (text ")")

module _ {xp : Crossplane} {W : Type 0} (p : Platform W) where
  -- `execCreateAccount`
  unfoldable pub exec_create_account :
      Db → Str → SnowflakeAccountSpec → Str → Action (ResourceData xp W) (Unit {0})
  unfolding create_failure create_comment comment_args exec_on
  exec_create_account db resolved spec public_key = on_error (create_failure resolved) (
      exec_on p db (text "create account") (create_sql ++ create_comment spec.description)
        (create_args resolved spec public_key ++ comment_args spec.description))

  -- `findAccountLocator`: the locator, if the account was found.
  unfoldable pub find_account_locator : Db → Str → Str → Action (ResourceData xp W) (Option Str)
  unfolding non_empty query_on
  find_account_locator db label resolved = do
    table ←
        on_error (wrap (text "failed to look up account " ++ quoted resolved ++ text ": "))
          (query_on p db label (text "SHOW ACCOUNTS LIKE ?") (resolved ∷ []))
    pure (
        non_empty
          (string_value (find_row table (text "account_name") resolved) (text "account_locator")))

  -- `locateCreatedAccount`
  unfoldable pub locate_created_account : Db → Str → Action (ResourceData xp W) Str
  unfolding find_account_locator located
  locate_created_account db resolved = do
    found ← find_account_locator db (text "locate created account") resolved
    lift (located resolved found)

  -- `module.resumeCrashedCreate`
  unfoldable pub resume_crashed_create :
      Identifier → ℕ → Error → Action (ResourceData xp W) Credentials
  unfolding own_attempt on_world unreadable
  resume_crashed_create id created_at create_error = do
    creds ← on_error (unreadable create_error) (on_world (p.keys.get_credentials id))
    lift (own_attempt p.show_time created_at create_error creds)
