-- ===== src/Config/Cidr/Containment.antt =====
-- What the answer of ContainsCIDR (internal/config/backplane/backplane.go) says of addresses.
use mathlib.Core.List.{Memᴰ}
use yukimi.Errors.{ok}
use yukimi.Base.{
  leb, Bool-cases, Option-cases, Str, length, ℕ, ◌≤◌, ◌≡◌, refl, sym, ap, subst, ◌∙◌, ◌↔◌, inl, inr,
  Bool, true, false, ◌&&◌, Option, none, some, List, [], ◌∷◌, arith,
}
use yukimi.Config.Cidr.Prefixes.{
  same_prefix_refl, same_prefix_trans, flip, length-flip, same_prefix-flip, flip-differs,
  strip-short,
}
use yukimi.Config.Cidr.Parse.{Cidr, parse_cidr}
use yukimi.Config.Cidr.{
  mapped_prefix, mapped_part, shorter, short_ip, effective, same_prefix, within, net_contains,
  covers, any_covers, contains_cidr,
}

-- Every address of the second network is one of the first.
pub Includes : Cidr → Cidr → Type 0
Includes net part = (x : List Bool) → net_contains part x ≡ true → net_contains net x ≡ true

effective-ones : (net : Cidr) (o : Option (List Bool)) → (effective net o).ones ≤ net.ones
effective-ones net none = omega arith
effective-ones net (some part) = ground arith

within_trans :
    (net part : Cidr) (x : List Bool)
    → net.ones ≤ part.ones
    → within net part.bits ≡ true
    → within part x ≡ true
    → within net x ≡ true
unfolding within
within_trans net part x l h k =
    ground (arith, same_prefix_trans net.ones part.ones net.bits part.bits x)

-- A network that is not IPv4 written as IPv6 is read as it stands.
net_contains-plain :
    (net : Cidr) (x : List Bool)
    → mapped_part net.bits ≡ none
    → net_contains net x ≡ within net (short_ip x)
unfolding net_contains
net_contains-plain net x h = ap (λ o. within (effective net o) (short_ip x)) h

short_ip-plain : (x : List Bool) → mapped_part x ≡ none → short_ip x ≡ x
unfolding short_ip
short_ip-plain x h = ap (shorter x) h

-- The two halves of the test.
both_tests : (a b : ℕ) (t : Bool) → (leb a b && t) ≡ true → (a ≤ b) × (t ≡ true)
both_tests a b true h = (ground arith, refl)
both_tests a b false h = ground arith

both_hold : (a b : ℕ) (t : Bool) → a ≤ b → t ≡ true → (leb a b && t) ≡ true
both_hold a b t l h = ground arith

pub covers-Includes :
    (net part : Cidr) → mapped_part part.bits ≡ none → covers net part ≡ true → Includes net part
unfolding covers Includes net_contains
covers-Includes net part unmapped h x k =
    let parts = both_tests net.ones part.ones (net_contains net part.bits) h in
    within_trans (effective net (mapped_part net.bits)) part (short_ip x)
      (omega (arith, effective-ones net (mapped_part net.bits), parts.0))
      (subst (λ y. within (effective net (mapped_part net.bits)) y ≡ true)
        (short_ip-plain part.bits unmapped) parts.1)
      (sym (net_contains-plain part x unmapped) ∙ k)

-- What `ParseCIDR` returns for a dotted address: 32 bits, and no more ones than that.
pub record IsDotted (net : Cidr) : Type 0 where
  pub width : length net.bits ≡ 32
  pub masked : net.ones ≤ 32

dotted-unmapped : (x : List Bool) → length x ≡ 32 → mapped_part x ≡ none
unfolding mapped_part mapped_prefix
dotted-unmapped x h = strip-short mapped_prefix x (omega arith)

-- Between dotted addresses `Contains` compares the masked bits.
net_contains-dotted :
    (net : Cidr) (x : List Bool)
    → length net.bits ≡ 32
    → length x ≡ 32
    → net_contains net x ≡ same_prefix net.ones net.bits x
unfolding within
net_contains-dotted net x h k =
    net_contains-plain net x (dotted-unmapped net.bits h)
    ∙ ap (within net) (short_ip-plain x (dotted-unmapped x k))
    ∙ ground arith

Includes-longer :
    (net part : Cidr) → IsDotted net → IsDotted part → Includes net part → net.ones ≤ part.ones
unfolding Includes
Includes-longer net part r c inc = elim (Bool-cases (leb net.ones part.ones)) [
  | inl h ↦ ground arith
  | inr h ↦
      let l = length-flip part.ones part.bits ∙ c.width in
      let at = inc part.bits (
        net_contains-dotted part part.bits c.width c.width
        ∙ same_prefix_refl part.ones part.bits (omega (arith, c.width, c.masked))) in
      let turned = inc (flip part.ones part.bits) (
        net_contains-dotted part (flip part.ones part.bits) c.width l
        ∙ same_prefix-flip part.ones part.bits) in
      ground (
        arith,
        flip-differs part.ones net.ones net.bits part.bits (ground arith)
            (omega (arith, r.width, r.masked))
            (sym (net_contains-dotted net part.bits r.width c.width) ∙ at)
            (sym (net_contains-dotted net (flip part.ones part.bits) r.width l) ∙ turned),
      )
]

-- For dotted ranges and candidates, the test of the loop of ContainsCIDR (mask lengths, and the
-- candidate's own address) says yes exactly when every address of the candidate's network is one
-- of the range's.
pub covers-iff-Includes :
    (net part : Cidr) → IsDotted net → IsDotted part → (covers net part ≡ true) ↔ Includes net part
unfolding covers Includes
covers-iff-Includes net part r c = (
  covers-Includes net part (dotted-unmapped part.bits c.width),
  λ inc.
      both_hold net.ones part.ones (net_contains net part.bits) (Includes-longer net part r c inc) (
        inc part.bits (
          net_contains-dotted part part.bits c.width c.width
          ∙ same_prefix_refl part.ones part.bits (omega (arith, c.width, c.masked)))),
)

-- The range that the loop stops at.
pub record Covering (ranges : List Str) (candidate : Cidr) : Type 0 where
  pub range : Str
  pub member : Memᴰ range ranges
  pub net : Cidr
  pub parsed : parse_cidr range ≡ some net
  pub covering : covers net candidate ≡ true

widen :
    (r : Str) (ranges : List Str) (candidate : Cidr)
    → Covering ranges candidate
    → Covering (r ∷ ranges) candidate
widen r ranges candidate c = record {
  range = c.range;
  member = Memᴰ.tail c.member;
  net = c.net;
  parsed = c.parsed;
  covering = c.covering;
}

pub any_covers-Covering :
    (ranges : List Str) (candidate : Cidr)
    → any_covers ranges candidate ≡ ok true
    → Covering ranges candidate
unfolding any_covers
any_covers-Covering [] candidate = λ h. ground arith
any_covers-Covering (r ∷ ranges) candidate = elim (Option-cases (parse_cidr r)) [
  | inl k ↦ rw k (λ h. ground arith)
  | inr (net, k) ↦ elim (Bool-cases (covers net candidate)) [
    | inl c ↦
        λ h. record { range = r; member = Memᴰ.head refl; net = net; parsed = k; covering = c }
    | inr c ↦ rw k (rw c (λ h. widen r ranges candidate (any_covers-Covering ranges candidate h)))
  ]
]

-- Where ContainsCIDR says that a candidate is contained, and the candidate is not an IPv4 address
-- that is written as IPv6, one of the ranges includes every address of the candidate's network.
pub contains_cidr-Includes :
    (ranges : List Str) (candidate : Str) (part : Cidr)
    → parse_cidr candidate ≡ some part
    → mapped_part part.bits ≡ none
    → contains_cidr ranges candidate ≡ ok true
    → (range : Str) × (net : Cidr) × Memᴰ range ranges
      × (parse_cidr range ≡ some net)
      × Includes net part
unfolding contains_cidr
contains_cidr-Includes ranges candidate part k unmapped = rw k (λ h.
    let c = any_covers-Covering ranges part h in
    (c.range, c.net, c.member, c.parsed, covers-Includes c.net part unmapped c.covering))
