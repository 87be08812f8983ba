-- ===== src/Config/Cidr.antt =====
-- `net.ParseCIDR` and `IPNet.Contains`, and ContainsCIDR of internal/config/backplane/backplane.go.
-- An address is its bits, 32 for dotted text and 128 for IPv6 text, the highest first.
pub mod Parse
pub mod Prefixes
pub mod Containment
use yukimi.Base.{
  leb, nat_beq, if◌then◌else◌, Str, text, length, ℕ, zero, suc, ◌-◌, Bool, true, false, not, ◌&&◌,
  Option, none, some, List, [], ◌∷◌, ◌++◌,
}
use yukimi.Errors.{Error, Result, ok, err, new_user_error}
use yukimi.Results.{◌>>=◌}
use yukimi.Config.Cidr.Parse.{Cidr, address_bits, parse_cidr}

-- `IP.To4`: an IPv4 address that is written as IPv6 is that IPv4 address.
mapped_prefix : List Bool
unfolding address_bits
mapped_prefix = address_bits (0 ∷ 0 ∷ 0 ∷ 0 ∷ 0 ∷ 0 ∷ 0 ∷ 0 ∷ 0 ∷ 0 ∷ 255 ∷ 255 ∷ [])

unfoldable pub strip : List Bool → List Bool → Option (List Bool)
strip [] bits = some bits
strip (p ∷ prefix) [] = none
strip (true ∷ prefix) (b ∷ bits) = let rest = strip prefix bits in if b then rest else none
strip (false ∷ prefix) (b ∷ bits) = let rest = strip prefix bits in if b then none else rest

unfoldable pub mapped_part : List Bool → Option (List Bool)
unfolding strip mapped_prefix
mapped_part bits = strip mapped_prefix bits

abbrev pub shorter : List Bool → Option (List Bool) → List Bool
shorter bits none = bits
shorter bits (some part) = part

unfoldable pub short_ip : List Bool → List Bool
unfolding mapped_part
short_ip bits = shorter bits (mapped_part bits)

-- The network as `Contains` reads it: under a mask of 96 ones or more an IPv4 address that is
-- written as IPv6 stays one, and the mask loses its first 96 ones.
abbrev pub effective : Cidr → Option (List Bool) → Cidr
effective net none = net
effective net (some part) =
    if leb 96 net.ones then record { bits = part; ones = net.ones - 96 } else net

unfoldable pub same_prefix : ℕ → List Bool → List Bool → Bool
same_prefix zero xs ys = true
same_prefix (suc n) [] ys = true
same_prefix (suc n) (x ∷ xs) [] = false
same_prefix (suc n) (true ∷ xs) (y ∷ ys) = y && same_prefix n xs ys
same_prefix (suc n) (false ∷ xs) (y ∷ ys) = not y && same_prefix n xs ys

unfoldable pub within : Cidr → List Bool → Bool
unfolding same_prefix
within net ip = nat_beq (length net.bits) (length ip) && same_prefix net.ones net.bits ip

-- `IPNet.Contains`
unfoldable pub net_contains : Cidr → List Bool → Bool
unfolding within short_ip mapped_part
net_contains net ip = within (effective net (mapped_part net.bits)) (short_ip ip)

pub invalid_cidr : Str → Error
invalid_cidr s = new_user_error (text "'" ++ s ++ text "' is not a valid CIDR")

abbrev pub cidr_or_error : Str → Option Cidr → Result Cidr
cidr_or_error s none = err (invalid_cidr s)
cidr_or_error s (some net) = ok net

-- The test of the loop of ContainsCIDR.
unfoldable pub covers : Cidr → Cidr → Bool
unfolding net_contains
covers range candidate = leb range.ones candidate.ones && net_contains range candidate.bits

unfoldable pub any_covers : List Str → Cidr → Result Bool
unfolding covers parse_cidr
any_covers [] candidate = ok false
any_covers (r ∷ ranges) candidate =
    let rest = any_covers ranges candidate in
    cidr_or_error r (parse_cidr r) >>= λ range. if covers range candidate then ok true else rest

-- `ContainsCIDR`
unfoldable pub contains_cidr : List Str → Str → Result Bool
unfolding any_covers parse_cidr
contains_cidr ranges candidate = do
  net ← cidr_or_error candidate (parse_cidr candidate)
  any_covers ranges net
