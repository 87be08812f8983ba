-- ===== src/Snowflake/Pool/Locks/Places.antt =====
-- Connections at places: a goroutine's hands or an entry of the pool. Three changes keep each open
-- connection at one place: one is opened, one is closed, two places swap what they hold.
use yukimi.Snowflake.Pool.Locks.{update}
use yukimi.Account.ResourceData.{Db}
use yukimi.Base.{
  nat_beq, if◌then◌else◌, Bool-cases, Eq, ◌==◌, ◌≡◌, sym, ap, ◌∙◌, inl, inr, Bool, true, false,
  Option, none, some, arith,
}

-- The places hold each open connection once, and no other.
pub record Exact {P : Type 0} (holds : P → Option Db) (is_open : Db → Bool) : Type 0 where
  pub unique : (p q : P) (d : Db) → holds p ≡ some d → holds q ≡ some d → p ≡ q
  pub live : (p : P) (d : Db) → holds p ≡ some d → is_open d ≡ true
  pub found : (d : Db) → is_open d ≡ true → (p : P) × (holds p ≡ some d)

module _ {P : Type 0} ⦃e : Eq P⦄ {h h' : P → Option Db} {o : Db → Bool} (x : Exact h o) (p : P)
    (d : Db) (others : (q : P) → (q == p) ≡ false → h' q ≡ h q) where
  pub acquire : h p ≡ none → o d ≡ false → h' p ≡ some d → Exact h' (update o d true)
  acquire empty closed now = record {
    unique = λ q r y a c. ground (
      arith,
      e.beq_iff q p,
      e.beq_iff r p,
      others q,
      others r,
      x.unique q r y,
      x.live q y,
      x.live r y,
    );
    live = λ q y a. ground (arith, e.beq_iff q p, others q, x.live q y);
    found = λ y a. elim (Bool-cases (nat_beq y d)) [
      | inl same ↦ (p, ground arith)
      | inr other ↦
          let (q, k) = x.found y (ground arith) in (q, ground (arith, e.beq_iff q p, others q))
    ];
  }

  pub release : h p ≡ some d → h' p ≡ none → Exact h' (update o d false)
  release full now = record {
    unique = λ q r y a c.
        ground (arith, e.beq_iff q p, e.beq_iff r p, others q, others r, x.unique q r y);
    live = λ q y a. ground (arith, e.beq_iff q p, others q, x.live q y, x.unique q p y);
    found = λ y a.
        let (q, k) = x.found y (ground arith) in (q, ground (arith, e.beq_iff q p, others q));
  }

module _ {P : Type 0} ⦃e : Eq P⦄ (p q : P) where
  -- The place whose content a place has after the swap.
  abbrev pub swapped : P → P
  swapped r = if r == p then q else if r == q then p else r

  swapped_twice : (r : P) → swapped (swapped r) ≡ r
  swapped_twice r = ground (
    arith,
    e.beq_iff r p,
    e.beq_iff r q,
    e.beq_iff p q,
    e.beq_iff q p,
    e.beq_iff p p,
    e.beq_iff q q,
  )

  pub swap :
      {h h' : P → Option Db} {o : Db → Bool}
      → Exact h o
      → ((r : P) → h' r ≡ h (swapped r))
      → Exact h' o
  swap x same = record {
    unique = λ r s y a c.
        sym (swapped_twice r)
        ∙ ap swapped (x.unique (swapped r) (swapped s) y (sym (same r) ∙ a) (sym (same s) ∙ c))
        ∙ swapped_twice s;
    live = λ r y a. x.live (swapped r) y (sym (same r) ∙ a);
    found =
        λ y a. let (r, k) = x.found y a in (swapped r, same (swapped r) ∙ rw (swapped_twice r) k);
  }

pub Exact-same :
    {P : Type 0} {h h' : P → Option Db} {o : Db → Bool}
    → Exact h o
    → ((p : P) → h' p ≡ h p)
    → Exact h' o
Exact-same x same = record {
  unique = λ p q d a c. x.unique p q d (sym (same p) ∙ a) (sym (same q) ∙ c);
  live = λ p d a. x.live p d (sym (same p) ∙ a);
  found = λ d a. let (p, k) = x.found d a in (p, same p ∙ k);
}
