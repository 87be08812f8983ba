-- ===== src/Apis/Admission/Named.antt =====
-- The form of the names that the API server admits, read from left to right.
use yukimi.Apis.Admission.{is_name_char, are_words, starts_lower, matches_name, is_admitted_name}
use yukimi.Config.Base.Patterns.{some_bytes}
use yukimi.Base.{
  nat_beq, if◌then◌else◌, Str, all_bytes, prepend_byte, split_on, ℕ, ◌≡◌, refl, Bool, true, false,
  ◌&&◌, ◌||◌, List, [], ◌∷◌, arith,
}

-- One pass over a name: whether a word has begun, and what is left.
unfoldable pub scan_name : Bool → Str → Bool
scan_name started [] = started
scan_name started (c ∷ s) =
    let behind_dash = started && scan_name false s in
    let in_word = is_name_char c && scan_name true s in
    if nat_beq c b'-' then behind_dash else in_word

-- The words of a name whose first word has begun before.
rest_of_words : List Str → Bool
rest_of_words [] = true
rest_of_words (word ∷ words) = all_bytes is_name_char word && are_words words

are_words-prepend_byte :
    (c : ℕ) (parts : List Str)
    → are_words (prepend_byte c parts) ≡ (is_name_char c && rest_of_words parts)
unfolding are_words prepend_byte some_bytes rest_of_words all_bytes
are_words-prepend_byte c [] = ground arith
are_words-prepend_byte c (word ∷ words) = ground arith

rest_of_words-prepend_byte :
    (c : ℕ) (parts : List Str)
    → rest_of_words (prepend_byte c parts) ≡ (is_name_char c && rest_of_words parts)
unfolding are_words prepend_byte rest_of_words all_bytes
rest_of_words-prepend_byte c [] = ground arith
rest_of_words-prepend_byte c (word ∷ words) = ground arith

scan_words :
    (s : Str)
    → (are_words (split_on b'-' s) ≡ scan_name false s)
      × (rest_of_words (split_on b'-' s) ≡ scan_name true s)
unfolding scan_name split_on are_words rest_of_words some_bytes all_bytes
scan_words [] = (refl, refl)
scan_words (c ∷ s) = ground (
  arith,
  scan_words s,
  are_words-prepend_byte c (split_on b'-' s),
  rest_of_words-prepend_byte c (split_on b'-' s),
)

pub matches_name-scan_name :
    (s : Str) → matches_name s ≡ true → (starts_lower s ≡ true) × (scan_name false s ≡ true)
unfolding matches_name
matches_name-scan_name s h = ground (arith, scan_words s)

-- The bytes of an admitted name.
abbrev pub is_name_byte : ℕ → Bool
is_name_byte c = is_name_char c || nat_beq c b'-'

pub scan_name-bytes :
    (started : Bool) (s : Str) → scan_name started s ≡ true → all_bytes is_name_byte s ≡ true
unfolding scan_name all_bytes
scan_name-bytes started [] h = refl
scan_name-bytes started (c ∷ s) h = ground (arith, scan_name-bytes false s, scan_name-bytes true s)

-- A test that every byte of an admitted name passes is passed by the name.
pub all_bytes_mono :
    (p q : ℕ → Bool) (s : Str)
    → ((c : ℕ) → p c ≡ true → q c ≡ true)
    → all_bytes p s ≡ true
    → all_bytes q s ≡ true
unfolding all_bytes
all_bytes_mono p q [] weaker h = refl
all_bytes_mono p q (c ∷ s) weaker h = ground (arith, weaker c, all_bytes_mono p q s weaker)

pub is_admitted_name-bytes : (s : Str) → is_admitted_name s ≡ true → all_bytes is_name_byte s ≡ true
unfolding is_admitted_name
is_admitted_name-bytes s h = scan_name-bytes false s ((matches_name-scan_name s (ground arith)).1)
