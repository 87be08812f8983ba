-- ===== src/Base/Lists.antt =====
-- A property of every entry of a list.
use mathlib.Core.Path.{sym, subst}
use mathlib.Core.List.{List, [], ◌∷◌, Memᴰ}

pub data All {ℓ κ} {A : Type ℓ} (P : A → Type κ) : List A → Type (ℓ ⊔ κ) where
  none_left : All P []
  one_more : {a : A} {xs : List A} → P a → All P xs → All P (a ∷ xs)

pub all_at {ℓ κ} : {A : Type ℓ} {P : A → Type κ} {a : A} {xs : List A} → All P xs → Memᴰ a xs → P a
all_at none_left m = elim m [ ]
all_at {P} (one_more p ps) (Memᴰ.head e) = subst P (sym e) p
all_at (one_more p ps) (Memᴰ.tail m) = all_at ps m
