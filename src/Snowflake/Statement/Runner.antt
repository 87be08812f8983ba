-- ===== src/Snowflake/Statement/Runner.antt =====
-- internal/snowflake/statement/statement.go and errors.go. The executor is a parameter: `*sql.DB`
-- and the driver behind it. A statement's arguments are texts.
use yukimi.Base.{str_eq, Str, Dict, put, Option, none, some, List, [], ◌∷◌}
use yukimi.Errors.{DriverFields, Error, statement_error, Result, ok, err, find_driver}
use yukimi.Effects.{Action, rename_error, ◌>>=◌, lift, on_error}
use yukimi.Snowflake.Statement.Rows.{Value, null, Table, no_table}

-- What a `*sql.Rows` delivers: the columns, each row as `Scan` leaves it, and `rows.Err()`.
pub record Cursor : Type 0 where
  pub columns : Result (List Str)
  pub scans : List (Result (List Value))
  pub final : Option Error

-- `Executor`: `ExecContext` and `QueryContext`.
pub record Executor (S : Type 0) : Type 0 where
  pub exec_context : Str → List Str → Action S (Unit {0})
  pub query_context : Str → List Str → Action S Cursor

abbrev no_fields : DriverFields
no_fields = record { number = 0; sql_state = []; query_id = [] }

copied : Option DriverFields → DriverFields
copied none = no_fields
copied (some d) = d

-- `newError`
unfoldable pub new_error : Str → Str → Error → Error
unfolding copied find_driver
new_error label sql e = statement_error label sql (copied (find_driver e)) e

-- `row[col] = values[i]` for each column; a later column of the same name wins.
fill_row : List Str → List Value → Dict Str Value → Dict Str Value
unfolding put
fill_row [] values m = m
fill_row (c ∷ columns) [] m = fill_row columns [] (put c null m)
fill_row (c ∷ columns) (v ∷ values) m = fill_row columns values (put c v m)

abbrev add_row : Dict Str Value → Result (List (Dict Str Value)) → Result (List (Dict Str Value))
add_row m (ok rows) = ok (m ∷ rows)
add_row m (err e) = err e

-- The loop over `rows.Next()`, and `rows.Err()` after it.
collect : List Str → List (Result (List Value)) → Option Error → Result (List (Dict Str Value))
unfolding fill_row
collect columns [] none = ok []
collect columns [] (some e) = err e
collect columns (err e ∷ scans) final = err e
collect columns (ok values ∷ scans) final =
    add_row (fill_row columns values []) (collect columns scans final)

abbrev table_of : List Str → List (Dict Str Value) → Table
table_of columns [] = no_table
table_of columns (m ∷ rows) = record { columns = columns; rows = m ∷ rows }

abbrev table_result : List Str → Result (List (Dict Str Value)) → Result Table
table_result columns (err e) = err e
table_result columns (ok rows) = ok (table_of columns rows)

abbrev collect_columns : Cursor → Result (List Str) → Result Table
collect_columns c (err e) = err e
collect_columns c (ok columns) = table_result columns (collect columns c.scans c.final)

materialize : Cursor → Result Table
unfolding collect
materialize c = collect_columns c c.columns

module _ {S : Type 0} (executor : Executor S) where
  -- `Runner.Exec`
  unfoldable pub exec : Str → Str → List Str → Action S (Unit {0})
  exec label sql args = on_error (new_error label sql) (executor.exec_context sql args)

  -- `Runner.Query`
  unfoldable pub query : Str → Str → List Str → Action S Table
  unfolding materialize
  query label sql args = do
    cursor ← on_error (new_error label sql) (executor.query_context sql args)
    lift (rename_error (new_error label sql) (materialize cursor))
