-- ===== src/Snowflake/Pool/Leaks.antt =====
-- Which connections stay open over the calls of internal/snowflake/pool: a count of each
-- connection in the pool against whether the driver has it open.
pub mod Keeps
pub mod Operations
pub mod Handed
pub mod Calls
use yukimi.Snowflake.Pool.Cache.{tenant_key_eq, TenantKey, tenant_key_beq_iff, TenantEntry}
use yukimi.Account.ResourceData.{Db}
use yukimi.Base.{
  nat_beq, Bool-cases, ◌==◌, beq_refl, Dict, get, delete, put, get-delete, ℕ, ◌+◌, ◌≡◌, refl, ◌∙◌,
  inl, inr, Bool, true, false, not, ◌&&◌, ◌||◌, Option, none, some, [], ◌∷◌, arith,
}

abbrev pub one_if : Bool → ℕ
one_if true = 1
one_if false = 0

abbrev pub org_admin_holds : Db → Option Db → ℕ
org_admin_holds x none = 0
org_admin_holds x (some db) = one_if (nat_beq x db)

abbrev pub entry_holds : Db → Option TenantEntry → ℕ
entry_holds x none = 0
entry_holds x (some entry) = one_if (nat_beq x entry.db)

-- How often the entries hold a connection.
unfoldable pub entries_hold : Db → Dict TenantKey TenantEntry → ℕ
entries_hold x [] = 0
entries_hold x ((key, entry) ∷ entries) = one_if (nat_beq x entry.db) + entries_hold x entries

-- A Go map has one entry for a key.
abbrev pub IsMap : Dict TenantKey TenantEntry → Type 0
IsMap [] = Unit
IsMap ((key, entry) ∷ entries) = (get key entries ≡ none) × IsMap entries

pub delete-IsMap :
    (key : TenantKey) (m : Dict TenantKey TenantEntry) → IsMap m → IsMap (delete key m)
unfolding delete
delete-IsMap key [] h = tt
delete-IsMap key ((j, entry) ∷ m) h = elim (Bool-cases (j == key)) [
  | inl e ↦ rw e (delete-IsMap key m h.1)
  | inr e ↦ rw e (elim (Bool-cases (key == j)) [
    | inl k ↦ (get-delete key j m ∙ rw k refl, delete-IsMap key m h.1)
    | inr k ↦ (get-delete key j m ∙ rw k h.0, delete-IsMap key m h.1)
  ])
]

pub put-IsMap :
    (key : TenantKey) (entry : TenantEntry) (m : Dict TenantKey TenantEntry)
    → IsMap m
    → IsMap (put key entry m)
unfolding put
put-IsMap key entry m h = (get-delete key key m ∙ rw (beq_refl key) refl, delete-IsMap key m h)

delete_absent :
    (key : TenantKey) (m : Dict TenantKey TenantEntry) → get key m ≡ none → delete key m ≡ m
unfolding delete get
delete_absent key [] h = refl
delete_absent key ((j, entry) ∷ m) h = ground (arith, delete_absent key m)

-- What is deleted is the entry that `get` finds.
pub entries_hold-delete :
    (x : Db) (key : TenantKey) (m : Dict TenantKey TenantEntry)
    → IsMap m
    → entries_hold x (delete key m) + entry_holds x (get key m) ≡ entries_hold x m
unfolding entries_hold delete get
entries_hold-delete x key [] h = refl
entries_hold-delete x key ((j, entry) ∷ m) h = elim (Bool-cases (j == key)) [
  | inl e ↦
      let absent : get key m ≡ none = rw (← (tenant_key_beq_iff j key).0 e) h.0 in
      rw (e, delete_absent key m absent) (omega arith)
  | inr e ↦ rw e (omega (arith, entries_hold-delete x key m h.1))
]

pub opened_count :
    (p a : Bool) (n : ℕ) → n ≡ one_if a → (p ≡ true → a ≡ false) → one_if p + n ≡ one_if (p || a)
opened_count true true n h k = ground arith
opened_count true false n h k = omega arith
opened_count false a n h k = omega (arith, h)

pub closed_count :
    (q a : Bool) (org rest : ℕ)
    → org + (rest + one_if q) ≡ one_if a
    → org + rest ≡ one_if (not q && a)
closed_count true true org rest h = omega arith
closed_count true false org rest h = omega arith
closed_count false true org rest h = omega arith
closed_count false false org rest h = omega arith

pub replaced_count :
    (p q a : Bool) (org rest : ℕ)
    → org + (rest + one_if q) ≡ one_if a
    → (p ≡ true → a ≡ false)
    → org + (one_if p + rest) ≡ one_if (not q && (p || a))
replaced_count true true true org rest h k = ground arith
replaced_count true true false org rest h k = omega arith
replaced_count true false true org rest h k = ground arith
replaced_count true false false org rest h k = omega arith
replaced_count false true true org rest h k = omega arith
replaced_count false true false org rest h k = omega arith
replaced_count false false true org rest h k = omega arith
replaced_count false false false org rest h k = omega arith
