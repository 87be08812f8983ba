-- ===== src/Errors.antt =====
-- internal/errors/errors.go, with the errors that the program builds or reads: `fmt.Errorf`, the
-- sentinel of internal/secrets/keystore.go, the driver's `SnowflakeError` and the `statement.Error`
-- of internal/snowflake/statement/errors.go. An error is a value that carries its chain.
pub mod Classify
use yukimi.Base.{
  ltb, if◌then◌else◌, Str, text, length, take, is_empty, decimal, ℕ, Bool, true, false, ◌||◌,
  Option, none, some, [], ◌∷◌, ◌++◌,
}

-- The driver's structured fields. Driver codes are not negative.
pub record DriverFields : Type 0 where
  pub number : ℕ
  pub sql_state : Str
  pub query_id : Str

pub data Error : Type 0 where
  -- `&userError{msg}`
  user_error : Str → Error
  -- `errors.New`, or `fmt.Errorf` without `%w`
  plain : Str → Error
  -- `fmt.Errorf` with one `%w`, between two texts
  wrapped : Str → Error → Str → Error
  -- `fmt.Errorf` with two `%w`: text, error, text, error, text
  wrapped_both : Str → Error → Str → Error → Str → Error
  -- `secrets.ErrPendingDeletion`
  pending_deletion : Error
  -- `*gosnowflake.SnowflakeError` and its message
  snowflake_error : DriverFields → Str → Error
  -- `*statement.Error`: label, statement text, fields copied from the driver's error, cause
  statement_error : Str → Str → DriverFields → Error → Error
  -- an AWS `InvalidRequestException` or `ResourceNotFoundException` and its message
  invalid_request : Str → Error
  resource_not_found : Str → Error

pub data Result {ℓ} (A : Type ℓ) : Type ℓ where
  ok : A → Result A
  err : Error → Result A

-- `fmt.Errorf("<text>%w", err)`
abbrev pub wrap : Str → Error → Error
wrap s e = wrapped s e []

abbrev pub max_msg_len : ℕ
max_msg_len = 256

-- The dash of the source is three bytes in UTF-8.
default_empty_msg : Str
unfolding text
default_empty_msg =
    text "invalid configuration " ++ (226 ∷ 128 ∷ 148 ∷ []) ++ text " no details provided"

truncation_mark : Str
unfolding text
truncation_mark = text "..."

-- `if len(msg) > limit { msg = msg[:limit] + "..." }`
truncate : ℕ → Str → Str
truncate limit msg = if ltb limit (length msg) then take limit msg ++ truncation_mark else msg

unfoldable pub new_user_error : Str → Error
unfolding truncate default_empty_msg truncation_mark
new_user_error msg =
    if is_empty msg then user_error default_empty_msg else user_error (truncate max_msg_len msg)

-- `errors.As(err, &sfErr)` for the driver's error: the first in the chain.
abbrev pub first_found {ℓ} : {A : Type ℓ} → Option A → Option A → Option A
first_found none b = b
first_found (some a) b = some a

unfoldable pub find_driver : Error → Option DriverFields
find_driver (wrapped s e t) = find_driver e
find_driver (wrapped_both s e t f u) = first_found (find_driver e) (find_driver f)
find_driver (statement_error l q d e) = find_driver e
find_driver (snowflake_error d m) = some d
find_driver (user_error m) = none
find_driver (plain m) = none
find_driver pending_deletion = none
find_driver (invalid_request m) = none
find_driver (resource_not_found m) = none

driver_note : Option DriverFields → Str
driver_note none = text ": failed: "
driver_note (some d) =
    text ": failed (Number=" ++ decimal d.number ++ text " SQLState=" ++ d.sql_state ++ text "): "

-- `err.Error()`.
unfoldable pub message : Error → Str
unfolding driver_note find_driver
message (user_error m) = m
message (plain m) = m
message (wrapped s e t) = s ++ message e ++ t
message (wrapped_both s e t f u) = s ++ message e ++ t ++ message f ++ u
message pending_deletion = text "secrets: identifier pending deletion"
message (snowflake_error d m) = m
message (statement_error l q d e) = l ++ driver_note (find_driver e) ++ message e
message (invalid_request m) = m
message (resource_not_found m) = m

-- `IsUserError`: some error in the chain is a user error.
unfoldable pub is_user_error : Error → Bool
is_user_error (user_error m) = true
is_user_error (wrapped s e t) = is_user_error e
is_user_error (wrapped_both s e t f u) = is_user_error e || is_user_error f
is_user_error (statement_error l q d e) = is_user_error e
is_user_error (plain m) = false
is_user_error pending_deletion = false
is_user_error (snowflake_error d m) = false
is_user_error (invalid_request m) = false
is_user_error (resource_not_found m) = false

-- `errors.Is(err, secrets.ErrPendingDeletion)`
unfoldable pub is_pending_deletion : Error → Bool
is_pending_deletion pending_deletion = true
is_pending_deletion (wrapped s e t) = is_pending_deletion e
is_pending_deletion (wrapped_both s e t f u) = is_pending_deletion e || is_pending_deletion f
is_pending_deletion (statement_error l q d e) = is_pending_deletion e
is_pending_deletion (user_error m) = false
is_pending_deletion (plain m) = false
is_pending_deletion (snowflake_error d m) = false
is_pending_deletion (invalid_request m) = false
is_pending_deletion (resource_not_found m) = false

-- `errors.As(err, &stmtErr)`: the driver fields of the first statement error in the chain.
unfoldable pub find_statement : Error → Option DriverFields
find_statement (statement_error l q d e) = some d
find_statement (wrapped s e t) = find_statement e
find_statement (wrapped_both s e t f u) = first_found (find_statement e) (find_statement f)
find_statement (user_error m) = none
find_statement (plain m) = none
find_statement pending_deletion = none
find_statement (snowflake_error d m) = none
find_statement (invalid_request m) = none
find_statement (resource_not_found m) = none
