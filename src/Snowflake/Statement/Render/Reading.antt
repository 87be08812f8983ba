-- ===== src/Snowflake/Statement/Render/Reading.antt =====
-- What the SQL reader makes of rendered texts: a description of Snowflake's quoting that is
-- independent of the code. A reader is past the opening quote and returns the content and the rest.
use yukimi.Errors.{ok}
use yukimi.Base.{
  nat_beq, if◌then◌else◌, Str, replace_byte, replace_all, all_bytes, ℕ, ◌≡◌, refl, sym, ap, Bool,
  true, false, ◌||◌, Option, none, some, [], ◌∷◌, ◌++◌, append_assoc, arith,
}
use yukimi.Snowflake.Statement.Render.{
  quote_byte, literal_byte, escape_byte, doubled, quote_identifier, quote_literal, is_bare_byte,
  bare_identifier,
}

abbrev pub Reading : Type 0
Reading = Option (Str × Str)

abbrev prepend : ℕ → Reading → Reading
prepend c none = none
prepend c (some (s, rest)) = some (c ∷ s, rest)

-- A quoted identifier: a doubled quote is a quote, any other quote ends it. The flag says that
-- the last byte was a quote.
pub read_identifier : Bool → Str → Reading
read_identifier false [] = none
read_identifier true [] = some ([], [])
read_identifier false (c ∷ s) =
    let closing = read_identifier true s in
    let inside = prepend c (read_identifier false s) in if nat_beq c 34 then closing else inside
read_identifier true (c ∷ s) =
    let inside = prepend c (read_identifier false s) in
    if nat_beq c 34 then inside else some ([], c ∷ s)

pub data Mode : Type 0 where
  inside after_quote after_escape : Mode

-- A string literal: a doubled quote is a quote, an escaped backslash or quote is that byte, and
-- no other escape is read.
pub read_literal : Mode → Str → Reading
read_literal inside [] = none
read_literal after_escape [] = none
read_literal after_quote [] = some ([], [])
read_literal inside (c ∷ s) =
    let closing = read_literal after_quote s in
    let escaped = read_literal after_escape s in
    let plainly = prepend c (read_literal inside s) in
    if nat_beq c 39 then closing else if nat_beq c 92 then escaped else plainly
read_literal after_quote (c ∷ s) =
    let more = prepend c (read_literal inside s) in if nat_beq c 39 then more else some ([], c ∷ s)
read_literal after_escape (c ∷ s) =
    let more = prepend c (read_literal inside s) in
    if nat_beq c 39 || nat_beq c 92 then more else none

abbrev pub starts_with_byte : ℕ → Str → Bool
starts_with_byte q [] = false
starts_with_byte q (c ∷ s) = nat_beq c q

read-quote_identifier_body :
    (name rest : Str)
    → starts_with_byte quote_byte rest ≡ false
    → read_identifier false (replace_all quote_byte (doubled quote_byte) name ++ quote_byte ∷ rest)
      ≡ some (name, rest)
unfolding read_identifier replace_all
read-quote_identifier_body [] [] h = refl
read-quote_identifier_body [] (d ∷ rest) h = ground arith
read-quote_identifier_body (c ∷ name) rest h = ground (arith, read-quote_identifier_body name rest)

replace_all-append :
    (old : ℕ) (new s t : Str)
    → replace_all old new (s ++ t) ≡ replace_all old new s ++ replace_all old new t
unfolding replace_all
replace_all-append old new [] t = refl
replace_all-append old new (c ∷ s) t =
    rw (replace_all-append old new s t) (sym (append_assoc (replace_byte old new c) _ _))

abbrev escaped_literal : Str → Str
escaped_literal s =
    replace_all literal_byte (doubled literal_byte)
      (replace_all escape_byte (doubled escape_byte) s)

-- What a byte becomes in a literal.
literal_piece : ℕ → Str
literal_piece c =
    if nat_beq c literal_byte
    then doubled literal_byte
    else if nat_beq c escape_byte
    then doubled escape_byte
    else c ∷ []

escaped_literal-cons :
    (c : ℕ) (s : Str) → escaped_literal (c ∷ s) ≡ literal_piece c ++ escaped_literal s
unfolding replace_all literal_piece
escaped_literal-cons c s = ground arith

read_literal-piece :
    (c : ℕ) (t : Str)
    → read_literal inside (literal_piece c ++ t) ≡ prepend c (read_literal inside t)
unfolding read_literal literal_piece
read_literal-piece c t = ground arith

closing_quote :
    (rest : Str)
    → starts_with_byte literal_byte rest ≡ false
    → read_literal inside (literal_byte ∷ rest) ≡ some ([], rest)
unfolding read_literal
closing_quote [] h = refl
closing_quote (d ∷ rest) h = ground arith

read-quote_literal_body :
    (s rest : Str)
    → starts_with_byte literal_byte rest ≡ false
    → read_literal inside (escaped_literal s ++ literal_byte ∷ rest) ≡ some (s, rest)
read-quote_literal_body [] rest h = unfold replace_all in closing_quote rest h
read-quote_literal_body (c ∷ s) rest h =
    rw
      (escaped_literal-cons c s, append_assoc, read_literal-piece, read-quote_literal_body s rest h)
      refl

-- With the quotes: a text in double quotes is an identifier, one in single quotes a literal.
pub read_quoted_identifier : Str → Reading
read_quoted_identifier [] = none
read_quoted_identifier (c ∷ s) = if nat_beq c 34 then read_identifier false s else none

pub read_quoted_literal : Str → Reading
read_quoted_literal [] = none
read_quoted_literal (c ∷ s) = if nat_beq c 39 then read_literal inside s else none

-- Text that is rendered as a quoted identifier, or as a string literal, with SQL text behind it
-- that begins with neither kind of quote, is read back in full as that text, and the SQL text
-- behind it is left as it was: no content ends the quotation early.
pub read-quote :
    (s sql : Str)
    → starts_with_byte 34 sql ≡ false
    → starts_with_byte 39 sql ≡ false
    → (read_quoted_identifier (quote_identifier s ++ sql) ≡ some (s, sql))
      × (read_quoted_literal (quote_literal s ++ sql) ≡ some (s, sql))
unfolding quote_identifier quote_literal read_quoted_identifier read_quoted_literal
read-quote s sql h k = (
  rw append_assoc (read-quote_identifier_body s sql h),
  rw append_assoc (read-quote_literal_body s sql k),
)

bare_unchanged :
    (q : ℕ) (s : Str)
    → is_bare_byte q ≡ false
    → all_bytes is_bare_byte s ≡ true
    → replace_all q (doubled q) s ≡ s
unfolding replace_all all_bytes
bare_unchanged q [] h k = refl
bare_unchanged q (c ∷ s) h k = ground (arith, bare_unchanged q s)

no_quotes :
    (s : Str) → all_bytes is_bare_byte s ≡ true → replace_all quote_byte (doubled quote_byte) s ≡ s
unfolding is_bare_byte
no_quotes s h = bare_unchanged quote_byte s refl h

no_escapes : (s : Str) → all_bytes is_bare_byte s ≡ true → escaped_literal s ≡ s
unfolding is_bare_byte
no_escapes s h = rw (bare_unchanged escape_byte s refl h) (bare_unchanged literal_byte s refl h)

bare_bytes :
    (name : Str) {r : Str}
    → bare_identifier name ≡ ok r
    → (r ≡ name) × (all_bytes is_bare_byte name ≡ true)
unfolding bare_identifier all_bytes is_bare_byte
bare_bytes [] h = ground arith
bare_bytes (c ∷ name) h = ground arith

-- A name that `BareIdentifier` lets through comes back as it is, and is a name on which both
-- renderers change nothing but put their quotes around it.
pub bare_identifier_plain :
    (name r : Str)
    → bare_identifier name ≡ ok r
    → (r ≡ name)
      × (quote_identifier r ≡ quote_byte ∷ (name ++ quote_byte ∷ []))
      × (quote_literal r ≡ literal_byte ∷ (name ++ literal_byte ∷ []))
unfolding quote_identifier quote_literal
bare_identifier_plain name r h =
    let (e, b) = bare_bytes name h in
    (
      e,
      rw e (ap (λ (t : Str). quote_byte ∷ (t ++ quote_byte ∷ [])) (no_quotes name b)),
      rw e (ap (λ (t : Str). literal_byte ∷ (t ++ literal_byte ∷ [])) (no_escapes name b)),
    )
