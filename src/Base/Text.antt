-- ===== src/Base/Text.antt =====
-- Go strings: sequences of bytes, and what the program uses of `strings` and `fmt`.
use Prim.Native.Nat.{ℕ, zero, suc, ◌+◌, ◌-◌, ◌/◌, ◌%◌, min}
use Prim.Native.Char.{code}
use Prim.Native.String.{String}
use mathlib.Core.Path.{◌≡◌, refl, ap}
use mathlib.Core.Logic.{◌↔◌}
use mathlib.Core.Bool.{Bool, true, false, ◌&&◌, ◌||◌}
use mathlib.Core.List.{List, [], ◌∷◌, ◌++◌, map}
use native.Mathlib.Omega.{arith}
use yukimi.Base.Tests.{ltb, leb, nat_beq, if◌then◌else◌, Eq}

abbrev pub Str : Type 0
Str = List ℕ

-- The bytes of an ASCII literal.
codes : String → Str
codes String.[] = []
codes (String.◌∷◌ c s) = code c ∷ codes s

-- Shut, so that a message stays one term in proofs.
unfoldable pub text : String → Str
unfolding codes
text s = codes s

module _ {ℓ} {A : Type ℓ} where
  abbrev pub length : List A → ℕ
  length [] = 0
  length (x ∷ xs) = suc (length xs)

  abbrev pub take : ℕ → List A → List A
  take zero xs = []
  take (suc n) [] = []
  take (suc n) (x ∷ xs) = x ∷ take n xs

  pub length-append : (xs ys : List A) → length (xs ++ ys) ≡ length xs + length ys
  length-append [] ys = omega arith
  length-append (x ∷ xs) ys = omega (arith, length-append xs ys)

  pub length-take : (n : ℕ) (xs : List A) → length (take n xs) ≡ min n (length xs)
  length-take zero xs = omega arith
  length-take (suc n) [] = omega arith
  length-take (suc n) (x ∷ xs) = omega (arith, length-take n xs)

pub length-map {ℓ κ} :
    {A : Type ℓ} {B : Type κ} (f : A → B) (xs : List A) → length (map f xs) ≡ length xs
length-map f [] = refl
length-map f (x ∷ xs) = ap suc (length-map f xs)

-- `s == t` of two strings.
unfoldable pub str_beq : Str → Str → Bool
str_beq [] [] = true
str_beq [] (d ∷ t) = false
str_beq (c ∷ s) [] = false
str_beq (c ∷ s) (d ∷ t) = nat_beq c d && str_beq s t

pub str_beq_iff : (s t : Str) → (str_beq s t ≡ true) ↔ (s ≡ t)
unfolding str_beq
str_beq_iff [] [] = ground arith
str_beq_iff [] (d ∷ t) = ground arith
str_beq_iff (c ∷ s) [] = ground arith
str_beq_iff (c ∷ s) (d ∷ t) = ground (arith, str_beq_iff s t)

instance abbrev pub str_eq : Eq Str
str_eq = record { beq = str_beq; beq_iff = str_beq_iff }

abbrev pub is_empty : Str → Bool
is_empty [] = true
is_empty (c ∷ s) = false

-- `strings.ReplaceAll(s, old, new)` for a one-byte `old`: what it does to one byte.
abbrev pub replace_byte : ℕ → Str → ℕ → Str
replace_byte old new c = if nat_beq c old then new else c ∷ []

unfoldable pub replace_all : ℕ → Str → Str → Str
replace_all old new [] = []
replace_all old new (c ∷ s) = replace_byte old new c ++ replace_all old new s

-- `strings.ToUpper` and `strings.ToLower` on ASCII bytes; the program's texts there are ASCII.
abbrev pub upper_byte : ℕ → ℕ
upper_byte c = if leb b'a' c && leb c b'z' then c - 32 else c

abbrev pub lower_byte : ℕ → ℕ
lower_byte c = if leb b'A' c && leb c b'Z' then c + 32 else c

unfoldable pub to_upper : Str → Str
to_upper = map upper_byte

unfoldable pub to_lower : Str → Str
to_lower = map lower_byte

-- `strings.EqualFold` on ASCII bytes.
unfoldable pub equal_fold : Str → Str → Bool
unfolding to_lower
equal_fold s t = str_beq (to_lower s) (to_lower t)

-- `%d` of a number that is not negative. A number has fewer digits than one more than itself.
unfoldable pub decimal_digits : ℕ → ℕ → Str → Str
decimal_digits zero n acc = acc
decimal_digits (suc fuel) n acc =
    let rest = decimal_digits fuel (n / 10) ((b'0' + n % 10) ∷ acc) in
    if ltb n 10 then (b'0' + n) ∷ acc else rest

unfoldable pub decimal : ℕ → Str
unfolding decimal_digits
decimal n = decimal_digits (suc n) n []

-- `%q` of a text: Go's escapes for ASCII bytes. A byte above 127 is part of a printable character
-- of valid UTF-8, which `%q` leaves as it is.
hex_digit : ℕ → ℕ
hex_digit n = if ltb n 10 then b'0' + n else b'a' + (n - 10)

quoted_control : ℕ → Str
quoted_control c =
    if nat_beq c 7
    then text "\\a"
    else if nat_beq c 8
    then text "\\b"
    else if nat_beq c 9
    then text "\\t"
    else if nat_beq c 10
    then text "\\n"
    else if nat_beq c 11
    then text "\\v"
    else if nat_beq c 12
    then text "\\f"
    else if nat_beq c 13
    then text "\\r"
    else text "\\x" ++ hex_digit (c / 16) ∷ hex_digit (c % 16) ∷ []

quoted_byte : ℕ → Str
quoted_byte c =
    if nat_beq c 34 || nat_beq c 92
    then 92 ∷ c ∷ []
    else if ltb c 32 || nat_beq c 127
    then quoted_control c
    else c ∷ []

quoted_bytes : Str → Str
quoted_bytes [] = 34 ∷ []
quoted_bytes (c ∷ s) = quoted_byte c ++ quoted_bytes s

unfoldable pub quoted : Str → Str
unfolding quoted_bytes quoted_byte quoted_control hex_digit text
quoted s = 34 ∷ quoted_bytes s

-- Every byte passes the test: a regular expression `^[...]*$`.
unfoldable pub all_bytes : (ℕ → Bool) → Str → Bool
all_bytes p [] = true
all_bytes p (c ∷ s) = p c && all_bytes p s

unfoldable pub is_letter : ℕ → Bool
is_letter c = (leb b'A' c && leb c b'Z') || (leb b'a' c && leb c b'z')

unfoldable pub is_digit : ℕ → Bool
is_digit c = leb b'0' c && leb c b'9'

pub all_bytes-append :
    (p : ℕ → Bool) (s t : Str)
    → all_bytes p s ≡ true
    → all_bytes p t ≡ true
    → all_bytes p (s ++ t) ≡ true
unfolding all_bytes
all_bytes-append p [] t h k = k
all_bytes-append p (c ∷ s) t h k = ground (arith, all_bytes-append p s t)

-- `strings.HasPrefix` and `strings.Contains`
unfoldable pub has_prefix : Str → Str → Bool
has_prefix s [] = true
has_prefix [] (d ∷ t) = false
has_prefix (c ∷ s) (d ∷ t) = nat_beq c d && has_prefix s t

unfoldable pub contains : Str → Str → Bool
unfolding has_prefix
contains [] t = has_prefix [] t
contains (c ∷ s) t = has_prefix (c ∷ s) t || contains s t

-- The parts of a text between the occurrences of a byte.
unfoldable pub prepend_byte : ℕ → List Str → List Str
prepend_byte c [] = (c ∷ []) ∷ []
prepend_byte c (part ∷ parts) = (c ∷ part) ∷ parts

unfoldable pub split_on : ℕ → Str → List Str
unfolding prepend_byte
split_on b [] = [] ∷ []
split_on b (c ∷ s) =
    let parts = split_on b s in if nat_beq c b then [] ∷ parts else prepend_byte c parts
