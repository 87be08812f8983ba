-- ===== src/Config/Backplane/Load/Order.antt =====
-- The order of a Go map and `Load` of internal/config/backplane/backplane.go, which sorts the names.
use yukimi.Base.{
  str_eq, ltb, nat_beq, if◌then◌else◌, Bool-cases, Str, text, str_beq, str_beq_iff, Dict, get, put,
  ◌≡◌, refl, sym, ap, ◌∙◌, inl, inr, Bool, true, false, some, List, [], ◌∷◌, arith,
}
use yukimi.Errors.{Result, ok}
use yukimi.Results.{◌>>=◌}
use yukimi.Config.Files.{FileRead, content}
use yukimi.Config.Backplane.{Region}
use yukimi.Config.Backplane.Load.{
  RawRegion, RawBackplane, load_region, str_leb, insert_string, sort_strings, keys, raw_region,
  load_regions, file_content, load,
}

str_leb_total : (s t : Str) → str_leb s t ≡ false → str_leb t s ≡ true
unfolding str_leb
str_leb_total [] t h = ground arith
str_leb_total (c ∷ s) [] h = refl
str_leb_total (c ∷ s) (d ∷ t) h = ground (arith, str_leb_total s t)

str_leb_trans : (s t u : Str) → str_leb s t ≡ true → str_leb t u ≡ true → str_leb s u ≡ true
unfolding str_leb
str_leb_trans [] t u h k = refl
str_leb_trans (c ∷ s) [] u h k = ground arith
str_leb_trans (c ∷ s) (d ∷ t) [] h k = ground arith
str_leb_trans (c ∷ s) (d ∷ t) (e ∷ u) h k = ground (arith, str_leb_trans s t u)

str_leb_antisym : (s t : Str) → str_leb s t ≡ true → str_leb t s ≡ true → s ≡ t
unfolding str_leb
str_leb_antisym [] [] h k = refl
str_leb_antisym [] (d ∷ t) h k = ground arith
str_leb_antisym (c ∷ s) [] h k = ground arith
str_leb_antisym (c ∷ s) (d ∷ t) h k =
    let same : c ≡ d = ground arith in
    let (l, r) = tails (nat_beq c d) (nat_beq d c) (ground arith) (ground arith) h k in
    ap (λ x. x ∷ s) same ∙ ap (λ u. d ∷ u) (str_leb_antisym s t l r)
  where
    tails :
        (x y : Bool)
        → x ≡ true
        → y ≡ true
        → (if x then str_leb s t else ltb c d) ≡ true
        → (if y then str_leb t s else ltb d c) ≡ true
        → (str_leb s t ≡ true) × (str_leb t s ≡ true)
    tails true true e f g j = (g, j)
    tails true false e f g j = ground arith
    tails false y e f g j = ground arith

-- Two texts in front, in their order.
pair_order :
    (a b : Str) (l : List Str)
    → (if str_leb a b then a ∷ b ∷ l else b ∷ a ∷ l)
      ≡ (if str_leb b a then b ∷ a ∷ l else a ∷ b ∷ l)
pair_order a b l = elim (Bool-cases (str_leb a b)) [
  | inl k ↦ rw k (elim (Bool-cases (str_leb b a)) [
    | inl j ↦ rw j (
        ap (λ x. x ∷ b ∷ l) (str_leb_antisym a b k j)
        ∙ ap (λ x. b ∷ x ∷ l) (sym (str_leb_antisym a b k j)))
    | inr j ↦ rw j refl
  ])
  | inr k ↦ rw k (rw (str_leb_total a b k) refl)
]

-- One text belongs before the head of the list and the other behind it.
insert_across :
    (a b c : Str) (l : List Str)
    → str_leb a c ≡ true
    → str_leb b c ≡ false
    → insert_string a (insert_string b (c ∷ l)) ≡ insert_string b (insert_string a (c ∷ l))
unfolding insert_string
insert_across a b c l k j = elim (Bool-cases (str_leb b a)) [
  | inl i ↦ clash (sym j ∙ str_leb_trans b a c i k)
  | inr i ↦ rw j (rw k (rw i (rw j refl)))
]
  where
    clash : {A : Type 0} → false ≡ true → A
    clash h = ground arith

insert_string_comm :
    (a b : Str) (l : List Str)
    → insert_string a (insert_string b l) ≡ insert_string b (insert_string a l)
unfolding insert_string
insert_string_comm a b [] = pair_order a b []
insert_string_comm a b (c ∷ l) = elim (Bool-cases (str_leb a c)) [
  | inl k ↦ elim (Bool-cases (str_leb b c)) [
    | inl j ↦ rw k (rw j (rw k (pair_order a b (c ∷ l))))
    | inr j ↦ insert_across a b c l k j
  ]
  | inr k ↦ elim (Bool-cases (str_leb b c)) [
    | inl j ↦ sym (insert_across b a c l j k)
    | inr j ↦ rw k (rw j (rw k (ap (λ t. c ∷ t) (insert_string_comm a b l))))
  ]
]

-- Two orders of one Go map: neighbours with different keys are exchanged.
pub data Shuffled : Dict Str RawRegion → Dict Str RawRegion → Type 0 where
  same : {m : Dict Str RawRegion} → Shuffled m m
  swap :
      {a b : Str} {r s : RawRegion} {m : Dict Str RawRegion}
      → str_beq a b ≡ false
      → Shuffled ((a, r) ∷ (b, s) ∷ m) ((b, s) ∷ (a, r) ∷ m)
  keep :
      {a : Str} {r : RawRegion} {m n : Dict Str RawRegion}
      → Shuffled m n
      → Shuffled ((a, r) ∷ m) ((a, r) ∷ n)
  andthen : {m n o : Dict Str RawRegion} → Shuffled m n → Shuffled n o → Shuffled m o

sort_strings-Shuffled :
    (m n : Dict Str RawRegion) → Shuffled m n → sort_strings (keys m) ≡ sort_strings (keys n)
unfolding sort_strings keys
sort_strings-Shuffled m n (Shuffled.same) = refl
sort_strings-Shuffled m n (Shuffled.swap {a} {b} {r} {s} {m = l} d) =
    insert_string_comm a b (sort_strings (keys l))
sort_strings-Shuffled m n (Shuffled.keep {a} {r} {m = k} {n = l} p) =
    ap (insert_string a) (sort_strings-Shuffled k l p)
sort_strings-Shuffled m n (Shuffled.andthen {m = j} {n = k} {o = l} p q) =
    sort_strings-Shuffled j k p ∙ sort_strings-Shuffled k l q

get-Shuffled : (name : Str) (m n : Dict Str RawRegion) → Shuffled m n → get name m ≡ get name n
unfolding get
get-Shuffled name m n (Shuffled.same) = refl
get-Shuffled name m n (Shuffled.swap {a} {b} {r} {s} {m = l} d) =
    ground (arith, str_beq_iff a name, str_beq_iff b name, str_beq_iff a b)
get-Shuffled name m n (Shuffled.keep {a} {r} {m = k} {n = l} p) =
    ap (λ o. if str_beq a name then some r else o) (get-Shuffled name k l p)
get-Shuffled name m n (Shuffled.andthen {m = j} {n = k} {o = l} p q) =
    get-Shuffled name j k p ∙ get-Shuffled name k l q

load_regions-Shuffled :
    (m n : Dict Str RawRegion) (names : List Str) (regions : Dict Str Region)
    → Shuffled m n
    → load_regions m names regions ≡ load_regions n names regions
unfolding load_regions raw_region
load_regions-Shuffled m n [] regions p = refl
load_regions-Shuffled m n (name ∷ names) regions p = rw (get-Shuffled name m n p) (
    ap (λ k. load_region name (raw_region name n) >>= k)
      (λ i region. load_regions-Shuffled m n names (put name region regions) p i))

-- The order in which Go hands out the regions of the file makes no difference: where, on the bytes
-- of the file that is read, two decoders give the same global parameters and the same regions in
-- another order, `Load` gives the same configuration, or the same error.
pub load-Shuffled :
    (read_file : Str → Str → FileRead) (decode other : Str → Result RawBackplane)
    (config_dir bytes : Str) (global_parameters : Dict Str Str) (m n : Dict Str RawRegion)
    → read_file config_dir (text "backplane.yaml") ≡ content bytes
    → decode bytes ≡ ok (record { global_parameters = global_parameters; regions = m })
    → other bytes ≡ ok (record { global_parameters = global_parameters; regions = n })
    → Shuffled m n
    → load read_file decode config_dir ≡ load read_file other config_dir
unfolding load file_content
load-Shuffled read_file decode other config_dir bytes global_parameters m n f h k p =
    rw (f, h, k)
      (rw (sort_strings-Shuffled m n p)
        (rw (load_regions-Shuffled m n (sort_strings (keys n)) [] p) refl))
