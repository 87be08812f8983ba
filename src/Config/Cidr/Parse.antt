-- ===== src/Config/Cidr/Parse.antt =====
-- `net.ParseCIDR`, with `netip.ParseAddr` and the reading of the mask's length.
use yukimi.Base.{
  ltb, leb, nat_beq, if◌then◌else◌, Str, length, take, is_empty, is_digit, split_on, ℕ, zero, suc,
  ◌+◌, ◌-◌, ◌*◌, ◌/◌, ◌%◌, Bool, false, not, ◌&&◌, ◌||◌, Option, none, some, List, [], ◌∷◌, ◌++◌,
}

-- What `ParseCIDR` returns: the address as it is written, and the number of ones in the mask.
pub record Cidr : Type 0 where
  pub bits : List Bool
  pub ones : ℕ

-- The value of a text of digits; a leading zero is refused, and so is a value above 255.
octet_from : ℕ → Str → Option ℕ
octet_from acc [] = if ltb 255 acc then none else some acc
octet_from acc (c ∷ s) =
    let more = octet_from (acc * 10 + (c - b'0')) s in if is_digit c then more else none

octet : Str → Option ℕ
unfolding octet_from is_digit
octet [] = none
octet (c ∷ []) = octet_from 0 (c ∷ [])
octet (c ∷ d ∷ s) = if nat_beq c b'0' then none else octet_from 0 (c ∷ d ∷ s)

-- The values of all parts, if each has one.
collect_octets : List Str → Option (List ℕ)
unfolding octet
collect_octets [] = some []
collect_octets (part ∷ parts) = both (octet part) (collect_octets parts)
  where
    both : Option ℕ → Option (List ℕ) → Option (List ℕ)
    both none rest = none
    both (some b) none = none
    both (some b) (some bytes) = some (b ∷ bytes)

abbrev pub when_length : ℕ → Option (List ℕ) → Option (List ℕ)
when_length n none = none
when_length n (some bytes) = if nat_beq (length bytes) n then some bytes else none

-- `parseIPv4`: four octets.
unfoldable pub parse_ipv4 : Str → Option (List ℕ)
unfolding collect_octets split_on
parse_ipv4 s = when_length 4 (collect_octets (split_on b'.' s))

hex_value : ℕ → Option ℕ
unfolding is_digit
hex_value c =
    if is_digit c
    then some (c - b'0')
    else if leb b'a' c && leb c b'f'
    then some (c - b'a' + 10)
    else if leb b'A' c && leb c b'F'
    then some (c - b'A' + 10)
    else none

-- A run of hexadecimal digits: its value, how many they are, and what is behind them.
pub record HexRun : Type 0 where
  pub value : ℕ
  pub digits : ℕ
  pub rest : Str

hex_run : ℕ → ℕ → Str → HexRun
unfolding hex_value
hex_run value digits [] = record { value = value; digits = digits; rest = [] }
hex_run value digits (c ∷ s) = elim (hex_value c) [
  | none ↦ record { value = value; digits = digits; rest = c ∷ s }
  | some h ↦ hex_run (value * 16 + h) (suc digits) s
]

-- The bytes read so far, and where among them the "::" stands.
pub record Groups : Type 0 where
  pub bytes : List ℕ
  pub ellipsis : Option ℕ

abbrev add_bytes : Groups → List ℕ → Groups
add_bytes g bs = record g { bytes = g.bytes ++ bs }

-- The end of the text after a "::", or a dotted quad in the place of the last two groups.
embedded : ℕ → Groups → Option (List ℕ) → Option Groups
embedded left g none = none
embedded left g (some bs) = if ltb left 2 then none else elim g.ellipsis [
  | none ↦ if nat_beq left 2 then some (add_bytes g bs) else none
  | some at ↦ some (add_bytes g bs)
]

mark : Groups → Option Groups
mark g = elim g.ellipsis [
  | some at ↦ none
  | none ↦ some (record g { ellipsis = some (length g.bytes) })
]

starts_with : ℕ → Str → Bool
starts_with b [] = false
starts_with b (c ∷ s) = nat_beq c b

tail : Str → Str
tail [] = []
tail (c ∷ s) = s

-- The loop of `parseIPv6`, over the groups that still fit.
parse_groups : ℕ → Groups → Str → Option Groups
unfolding hex_run embedded mark starts_with tail parse_ipv4
parse_groups zero g s = if is_empty s then some g else none
parse_groups (suc left) g s =
    let run = hex_run 0 0 s in
    let g' = add_bytes g (run.value / 256 ∷ run.value % 256 ∷ []) in
    let after = tail run.rest in
    let plain_next = parse_groups left g' after in
    let marked_next : Option Groups = elim (mark g') [
      | none ↦ none
      | some m ↦ if is_empty (tail after) then some m else parse_groups left m (tail after)
    ] in
    if nat_beq run.digits 0 || ltb 4 run.digits
    then none
    else if starts_with b'.' run.rest
    then embedded (suc left) g (parse_ipv4 s)
    else if is_empty run.rest
    then some g'
    else if not (starts_with b':' run.rest) || is_empty after
    then none
    else if starts_with b':' after
    then marked_next
    else plain_next

zeros : ℕ → List ℕ
zeros zero = []
zeros (suc n) = 0 ∷ zeros n

drop_bytes : ℕ → List ℕ → List ℕ
drop_bytes zero bs = bs
drop_bytes (suc n) [] = []
drop_bytes (suc n) (b ∷ bs) = drop_bytes n bs

-- The "::" stands for the bytes that are missing, two at least.
expand : Groups → Option (List ℕ)
unfolding zeros drop_bytes
expand g = elim g.ellipsis [
  | none ↦ if ltb (length g.bytes) 16 then none else some g.bytes
  | some at ↦
      if ltb (length g.bytes) 16
      then some (take at g.bytes ++ zeros (16 - length g.bytes) ++ drop_bytes at g.bytes)
      else none
]

expanded : Option Groups → Option (List ℕ)
unfolding expand
expanded none = none
expanded (some g) = expand g

-- `parseIPv6`; a zone, which `ParseCIDR` refuses in the end, is refused here.
unfoldable pub parse_ipv6 : Str → Option (List ℕ)
unfolding parse_groups expanded zeros starts_with tail
parse_ipv6 s =
    if starts_with b':' s && starts_with b':' (tail s)
    then (if is_empty (tail (tail s))
        then some (zeros 16)
        else expanded (parse_groups 8 (record { bytes = []; ellipsis = some 0 }) (tail (tail s))))
    else expanded (parse_groups 8 (record { bytes = []; ellipsis = none }) s)

-- `netip.ParseAddr`: the first '.', ':' or '%' decides.
parse_by : Str → Str → Option (List ℕ)
unfolding parse_ipv4 parse_ipv6
parse_by whole [] = none
parse_by whole (c ∷ s) =
    let more = parse_by whole s in
    if nat_beq c b'.'
    then parse_ipv4 whole
    else if nat_beq c b':'
    then parse_ipv6 whole
    else if nat_beq c b'%'
    then none
    else more

unfoldable pub parse_address : Str → Option (List ℕ)
unfolding parse_by
parse_address s = parse_by s s

-- The length of the mask: digits only, in the range of the address.
mask_from : ℕ → Str → Option ℕ
mask_from acc [] = some acc
mask_from acc (c ∷ s) =
    let more = mask_from (acc * 10 + (c - b'0')) s in if is_digit c then more else none

unfoldable pub mask_length : Str → Option ℕ
unfolding mask_from is_digit
mask_length [] = none
mask_length (c ∷ s) = mask_from 0 (c ∷ s)

byte_bits : ℕ → ℕ → List Bool
byte_bits zero b = []
byte_bits (suc n) b = byte_bits n (b / 2) ++ nat_beq (b % 2) 1 ∷ []

unfoldable pub address_bits : List ℕ → List Bool
unfolding byte_bits
address_bits [] = []
address_bits (b ∷ bs) = byte_bits 8 b ++ address_bits bs

abbrev pub fits : List Bool → Option ℕ → Option Cidr
fits bits none = none
fits bits (some n) = if ltb (length bits) n then none else some (record { bits = bits; ones = n })

with_mask : Option (List ℕ) → Option ℕ → Option Cidr
unfolding address_bits
with_mask none n = none
with_mask (some bytes) n = fits (address_bits bytes) n

-- The text before the first '/' and the text behind it.
split_slash : Str → Str → Option (Str × Str)
split_slash before [] = none
split_slash before (c ∷ s) =
    let more = split_slash (before ++ c ∷ []) s in if nat_beq c b'/' then some (before, s) else more

parse_parts : Option (Str × Str) → Option Cidr
unfolding with_mask parse_address mask_length
parse_parts none = none
parse_parts (some (address, mask)) = with_mask (parse_address address) (mask_length mask)

-- `ParseCIDR`
unfoldable pub parse_cidr : Str → Option Cidr
unfolding split_slash parse_parts
parse_cidr s = parse_parts (split_slash [] s)
