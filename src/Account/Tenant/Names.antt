-- ===== src/Account/Tenant/Names.antt =====
-- The names and numbers of internal/account/tenant.
use mathlib.Core.List.{append_cancel_right}
use yukimi.Base.{
  str_eq, nat_beq, if◌then◌else◌, nat_beq_iff, Bool-cases, Str, replace_all, all_bytes, ℕ, ◌≡◌,
  refl, sym, ap, ◌∙◌, inl, inr, Bool, true, false, not, ◌&&◌, List, [], ◌∷◌, arith,
}
use yukimi.Account.Tenant.{resolve_name}

-- A byte of the name of a Kubernetes object is no '_'.
abbrev pub is_name_byte : ℕ → Bool
is_name_byte c = not (nat_beq c b'_')

read_back : Str → Str
read_back [] = []
read_back (c ∷ s) = (if nat_beq c b'_' then b'-' else c) ∷ read_back s

rest_passes : (b r : Bool) → (b && r) ≡ true → (b ≡ true) × (r ≡ true)
rest_passes true r h = (refl, h)
rest_passes false r h = ground arith

not-true : (b : Bool) → not b ≡ true → b ≡ false
not-true true h = ground arith
not-true false h = refl

-- The translation of a name without '_' can be undone.
read_back-replace_all :
    (s : Str) → all_bytes is_name_byte s ≡ true → read_back (replace_all b'-' (b'_' ∷ []) s) ≡ s
unfolding replace_all read_back all_bytes
read_back-replace_all [] h = refl
read_back-replace_all (c ∷ s) h =
    let (first, rest) = rest_passes (is_name_byte c) (all_bytes is_name_byte s) h in
    elim (Bool-cases (nat_beq c b'-')) [
      | inl k ↦ rw k (
          ap (λ r. b'-' ∷ r) (read_back-replace_all s rest)
          ∙ ap (λ d. d ∷ s) (sym ((nat_beq_iff c b'-').0 k)))
      | inr k ↦
          rw k
            (rw (not-true (nat_beq c b'_') first) (ap (λ r. c ∷ r) (read_back-replace_all s rest)))
    ]

-- Two accounts of one namespace have different Snowflake names, as long as their own names are
-- different and have no '_', as the names of Kubernetes objects have none.
pub resolve_name_injective :
    (sha256 : Str → List ℕ) (name other namespace : Str)
    → all_bytes is_name_byte name ≡ true
    → all_bytes is_name_byte other ≡ true
    → resolve_name sha256 name namespace ≡ resolve_name sha256 other namespace
    → name ≡ other
unfolding resolve_name
resolve_name_injective sha256 name other namespace h k e =
    sym (read_back-replace_all name h)
    ∙ ap read_back (append_cancel_right _ _ _ e)
    ∙ read_back-replace_all other k
