-- ===== src/Snowflake/Statement/Render.antt =====
-- internal/snowflake/statement/render.go.
pub mod Reading
use yukimi.Base.{
  nat_beq, if◌then◌else◌, Str, text, replace_all, to_upper, all_bytes, is_letter, is_digit, ℕ, Bool,
  false, not, ◌&&◌, ◌||◌, [], ◌∷◌, ◌++◌,
}
use yukimi.Errors.{Result, ok, err, new_user_error}

abbrev pub quote_byte : ℕ
quote_byte = 34

abbrev pub literal_byte : ℕ
literal_byte = 39

abbrev pub escape_byte : ℕ
escape_byte = 92

abbrev pub doubled : ℕ → Str
doubled q = q ∷ q ∷ []

-- `QuoteIdentifier`
unfoldable pub quote_identifier : Str → Str
unfolding replace_all
quote_identifier name =
    quote_byte ∷ (replace_all quote_byte (doubled quote_byte) name ++ quote_byte ∷ [])

-- `QuoteLiteral`: first the backslashes, then the quotes.
unfoldable pub quote_literal : Str → Str
unfolding replace_all
quote_literal s =
    let escaped = replace_all escape_byte (doubled escape_byte) s in
    literal_byte ∷ (replace_all literal_byte (doubled literal_byte) escaped ++ literal_byte ∷ [])

-- `^[A-Za-z][A-Za-z0-9_]*$`
is_bare_byte : ℕ → Bool
unfolding is_letter is_digit
is_bare_byte c = is_letter c || is_digit c || nat_beq c b'_'

matches_bare : Str → Bool
unfolding is_bare_byte all_bytes
matches_bare [] = false
matches_bare (c ∷ s) = is_letter c && all_bytes is_bare_byte s

pub bare_message : Str → Str
bare_message name =
    text "Parameter name '"
    ++ name
    ++ text
        "' is not a valid bare identifier (expected: letters, digits, underscore, starting with a letter)"

-- `BareIdentifier`
unfoldable pub bare_identifier : Str → Result Str
unfolding matches_bare
bare_identifier name =
    if not (matches_bare name) then err (new_user_error (bare_message name)) else ok name
