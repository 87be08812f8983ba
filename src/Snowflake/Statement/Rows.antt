-- ===== src/Snowflake/Statement/Rows.antt =====
-- internal/snowflake/statement/result.go: materialized rows.
pub mod Find
use yukimi.Base.{
  str_eq, if◌then◌else◌, Str, equal_fold, Dict, get, ℕ, Bool, true, false, Option, none, some, List,
  [], ◌∷◌,
}

-- A driver value: NULL, a string, or a value of any other type.
pub data Value : Type 0 where
  null : Value
  string : Str → Value
  other : ℕ → Value

-- A nil row is `none`. A row's columns are listed in one of the orders a Go map may be ranged over.
abbrev pub Row : Type 0
Row = Option (Dict Str Value)

pub record Table : Type 0 where
  pub columns : List Str
  pub rows : List (Dict Str Value)

abbrev pub no_table : Table
no_table = record { columns = []; rows = [] }

-- The scan for a key that is equal up to case.
fold_get : Str → Dict Str Value → Option Value
fold_get column [] = none
fold_get column ((key, v) ∷ m) = if equal_fold key column then some v else fold_get column m

exact_or_fold : Str → Dict Str Value → Option Value → Option Value
exact_or_fold column m (some v) = some v
exact_or_fold column m none = fold_get column m

-- `Row.Value`
unfoldable pub value : Row → Str → Option Value
unfolding exact_or_fold fold_get get equal_fold
value none column = none
value (some m) column = exact_or_fold column m (get column m)

as_string : Option Value → Option Str
as_string none = none
as_string (some null) = none
as_string (some (string s)) = some s
as_string (some (other n)) = none

-- `Row.StringValue`
unfoldable pub string_value : Row → Str → Option Str
unfolding value as_string
string_value row column = as_string (value row column)

-- `Row.Found`
abbrev pub found : Row → Bool
found none = false
found (some m) = true

holds : Option Str → Str → Bool
holds none v = false
holds (some s) v = equal_fold s v

-- The test in `FindRow`: the column holds a string equal to the value, ignoring case.
unfoldable pub row_matches : Str → Str → Dict Str Value → Bool
unfolding holds string_value
row_matches column v m = holds (string_value (some m) column) v

find_in : Str → Str → List (Dict Str Value) → Row
find_in column v [] = none
find_in column v (m ∷ rows) = if row_matches column v m then some m else find_in column v rows

-- `Result.FindRow`
unfoldable pub find_row : Table → Str → Str → Row
unfolding find_in row_matches
find_row t column v = find_in column v t.rows
