-- ===== src/Snowflake/Statement/Rows/Find.antt =====
-- internal/snowflake/statement/result.go: what `FindRow` finds.
use yukimi.Base.{
  Bool-cases, Str, Dict, ◌≡◌, refl, ap, inl, inr, true, false, none, some, List, [], ◌∷◌, ◌++◌,
}
use yukimi.Snowflake.Statement.Rows.{Value, Row, Table, row_matches, find_in, find_row}

-- No row of the list passes the test of `FindRow`.
abbrev pub NoneMatches : Str → Str → List (Dict Str Value) → Type 0
NoneMatches column v [] = Unit {0}
NoneMatches column v (m ∷ rows) = (row_matches column v m ≡ false) × NoneMatches column v rows

-- What `FindRow` may return on the rows: nothing when no row matches, or the first that does.
pub data FirstMatch (column v : Str) (rows : List (Dict Str Value)) : Row → Type 0 where
  absent : NoneMatches column v rows → FirstMatch column v rows none
  first :
      (before after : List (Dict Str Value)) (m : Dict Str Value)
      → rows ≡ before ++ m ∷ after
      → NoneMatches column v before
      → row_matches column v m ≡ true
      → FirstMatch column v rows (some m)

extend :
    (column v : Str) (m : Dict Str Value) (rows : List (Dict Str Value)) (r : Row)
    → row_matches column v m ≡ false
    → FirstMatch column v rows r
    → FirstMatch column v (m ∷ rows) r
extend column v m rows r miss (absent none_match) = absent (miss, none_match)
extend column v m rows r miss (first before after k e none_match hit) =
    first (m ∷ before) after k (ap (λ (l : List (Dict Str Value)). m ∷ l) e) (miss, none_match) hit

find_in-FirstMatch :
    (column v : Str) (rows : List (Dict Str Value))
    → FirstMatch column v rows (find_in column v rows)
unfolding find_in
find_in-FirstMatch column v [] = absent tt
find_in-FirstMatch column v (m ∷ rows) = elim (Bool-cases (row_matches column v m)) [
  | inl hit ↦ rw (hit, find_in) (first [] rows m refl tt hit)
  | inr miss ↦ rw (miss, find_in) (extend column v m rows _ miss (find_in-FirstMatch column v rows))
]

-- `FindRow` returns the first row whose column holds the value, ignoring case, and returns no row
-- exactly when no row of the table holds it.
pub find_row-FirstMatch :
    (t : Table) (column v : Str) → FirstMatch column v t.rows (find_row t column v)
unfolding find_row
find_row-FirstMatch t column v = find_in-FirstMatch column v t.rows
