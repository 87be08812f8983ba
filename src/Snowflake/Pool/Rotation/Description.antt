-- ===== src/Snowflake/Pool/Rotation/Description.antt =====
-- internal/snowflake/pool/rotate.go: the rows of DESC USER, and what the loop over them finds.
use yukimi.Snowflake.Pool.Rotation.{Fingerprints, read_slot, scan_rows}
use yukimi.Base.{Str, text, str_beq, ◌≡◌, refl, ◌∙◌, Bool, false, List, [], ◌∷◌, arith}

-- The names under which Snowflake shows the fingerprints of a user's two keys.
abbrev pub first_row : Str
first_row = text "RSA_PUBLIC_KEY_FP"

abbrev pub second_row : Str
second_row = text "RSA_PUBLIC_KEY_2_FP"

abbrev pub is_row : Str → List Str → Bool
is_row name [] = false
is_row name (property ∷ columns) = str_beq property name

abbrev pub Unlisted : Str → List (List Str) → Type 0
Unlisted name [] = Unit
Unlisted name (row ∷ rows) = (is_row name row ≡ false) × Unlisted name rows

-- A description has one row for a property, with the value in its second column.
pub data Lists (name v : Str) : List (List Str) → Type 0 where
  here :
      {columns : List Str} {rows : List (List Str)}
      → Unlisted name rows
      → Lists name v ((name ∷ v ∷ columns) ∷ rows)
  there :
      {row : List Str} {rows : List (List Str)}
      → is_row name row ≡ false
      → Lists name v rows
      → Lists name v (row ∷ rows)

read_first :
    (property v a b : Str)
    → str_beq property first_row ≡ false
    → (read_slot property v (a, b)).0 ≡ a
unfolding read_slot
read_first property v a b h = ground arith

read_second :
    (property v a b : Str)
    → str_beq property second_row ≡ false
    → (read_slot property v (a, b)).1 ≡ b
unfolding read_slot
read_second property v a b h = ground arith

first_absent :
    (rows : List (List Str)) (slots : Fingerprints)
    → Unlisted first_row rows
    → (scan_rows rows slots).0 ≡ slots.0
unfolding scan_rows
first_absent [] slots h = refl
first_absent ([] ∷ rows) slots h = first_absent rows slots h.1
first_absent ((property ∷ []) ∷ rows) slots h = first_absent rows slots h.1
first_absent ((property ∷ v ∷ columns) ∷ rows) (a, b) h =
    first_absent rows (read_slot property v (a, b)) h.1 ∙ read_first property v a b h.0

second_absent :
    (rows : List (List Str)) (slots : Fingerprints)
    → Unlisted second_row rows
    → (scan_rows rows slots).1 ≡ slots.1
unfolding scan_rows
second_absent [] slots h = refl
second_absent ([] ∷ rows) slots h = second_absent rows slots h.1
second_absent ((property ∷ []) ∷ rows) slots h = second_absent rows slots h.1
second_absent ((property ∷ v ∷ columns) ∷ rows) (a, b) h =
    second_absent rows (read_slot property v (a, b)) h.1 ∙ read_second property v a b h.0

first_listed :
    (v : Str) (rows : List (List Str)) (slots : Fingerprints)
    → Lists first_row v rows
    → (scan_rows rows slots).0 ≡ v
unfolding scan_rows read_slot text str_beq
first_listed v [] slots h = elim h [ ]
first_listed v ((n ∷ w ∷ columns) ∷ rows) (a, b) (here h) = first_absent rows (v, b) h
first_listed v ([] ∷ rows) slots (there k h) = first_listed v rows slots h
first_listed v ((property ∷ []) ∷ rows) slots (there k h) = first_listed v rows slots h
first_listed v ((property ∷ w ∷ columns) ∷ rows) slots (there k h) =
    first_listed v rows (read_slot property w slots) h

second_listed :
    (v : Str) (rows : List (List Str)) (slots : Fingerprints)
    → Lists second_row v rows
    → (scan_rows rows slots).1 ≡ v
unfolding scan_rows read_slot text str_beq
second_listed v [] slots h = elim h [ ]
second_listed v ((n ∷ w ∷ columns) ∷ rows) (a, b) (here h) = second_absent rows (a, v) h
second_listed v ([] ∷ rows) slots (there k h) = second_listed v rows slots h
second_listed v ((property ∷ []) ∷ rows) slots (there k h) = second_listed v rows slots h
second_listed v ((property ∷ w ∷ columns) ∷ rows) slots (there k h) =
    second_listed v rows (read_slot property w slots) h

-- The loop finds the fingerprints that the description lists.
pub scan_rows-Lists :
    (rows : List (List Str)) (slots : Fingerprints)
    → Lists first_row slots.0 rows
    → Lists second_row slots.1 rows
    → scan_rows rows ([], []) ≡ slots
scan_rows-Lists rows (a, b) h k =
    cong_pair (first_listed a rows ([], []) h) (second_listed b rows ([], []) k)
  where
    cong_pair : {p q : Fingerprints} → p.0 ≡ q.0 → p.1 ≡ q.1 → p ≡ q
    cong_pair e f = λ i. (e i, f i)
