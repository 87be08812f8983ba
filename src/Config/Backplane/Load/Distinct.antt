-- ===== src/Config/Backplane/Load/Distinct.antt =====
-- What the inventory loop of internal/config/backplane/backplane.go makes sure of.
use yukimi.Base.{
  str_eq, if◌then◌else◌, Bool-cases, Option-cases, beq_refl, Str, str_beq, str_beq_iff, is_empty,
  Dict, get, put, get-put, All, ℕ, suc, ◌≡◌, refl, sym, ap, subst, ◌∙◌, inl, inr, Bool, true, false,
  Option, none, some, List, [], ◌∷◌, arith,
}
use yukimi.Errors.{Error, Result, ok}
use yukimi.Results.{◌>>=◌, ◌>>◌, bind_ok, then_ok, ok_inj, err-not-ok}
use yukimi.Config.Cidr.Parse.{Cidr, parse_cidr}
use yukimi.Config.Backplane.{Connection, connection_in}
use yukimi.Config.Backplane.Load.Inventory.{
  RawConnection, is_seen, check_connection, each_cidr, invalid_range, converted, load_inventory,
  index_connections,
}

pub IsCidr : Str → Type 0
IsCidr s = (net : Cidr) × (parse_cidr s ≡ some net)

pub record IsComplete (c : Connection) : Type 0 where
  pub named : is_empty c.name ≡ false
  pub typed : is_empty c.type ≡ false
  pub ranges : All IsCidr c.max_cidrs

-- No name of the list is the name of a later entry.
pub data Distinct : List Connection → Type 0 where
  none_left : Distinct []
  one_more :
      {c : Connection} {cs : List Connection}
      → connection_in cs c.name ≡ none
      → Distinct cs
      → Distinct (c ∷ cs)

pub each_cidr_ok :
    (invalid : Str → Error) (cidrs : List Str) → each_cidr invalid cidrs ≡ ok tt → All IsCidr cidrs
unfolding each_cidr IsCidr
each_cidr_ok invalid [] = λ h. All.none_left
each_cidr_ok invalid (cidr ∷ cidrs) = elim (Option-cases (parse_cidr cidr)) [
  | inl k ↦ rw k (λ h. err-not-ok h)
  | inr (net, k) ↦ rw k (λ h. All.one_more (net, k) (each_cidr_ok invalid cidrs h))
]

check_connection_ok :
    (region_name : Str) (idx : ℕ) (seen : Dict Str Bool) (rc : RawConnection)
    → check_connection region_name idx seen rc ≡ ok tt
    → (is_empty rc.connection ≡ false)
      × (is_empty rc.type ≡ false)
      × (is_seen rc.connection seen ≡ false)
unfolding check_connection
check_connection_ok region_name idx seen rc = elim (Bool-cases (is_empty rc.connection)) [
  | inl k ↦ rw k (λ h. err-not-ok h)
  | inr k ↦ rw k (elim (Bool-cases (is_empty rc.type)) [
    | inl t ↦ rw t (λ h. err-not-ok h)
    | inr t ↦ rw t (elim (Bool-cases (is_seen rc.connection seen)) [
      | inl u ↦ rw u (λ h. err-not-ok h)
      | inr u ↦ rw u (λ h. (refl, refl, refl))
    ])
  ])
]

-- What the loop over the inventory has made sure of.
pub record Loaded (seen : Dict Str Bool) (inventory : List Connection) : Type 0 where
  pub complete : All IsComplete inventory
  pub distinct : Distinct inventory
  pub fresh : (name : Str) → is_seen name seen ≡ true → connection_in inventory name ≡ none

is_seen-put :
    (name other : Str) (seen : Dict Str Bool)
    → is_seen other (put name true seen) ≡ (if str_beq name other then true else is_seen other seen)
unfolding is_seen
is_seen-put name other seen = elim (Bool-cases (str_beq name other)) [
  | inl k ↦ rw (get-put name other true seen) (rw k refl)
  | inr k ↦ rw (get-put name other true seen) (rw k refl)
]

converted-Loaded :
    (seen : Dict Str Bool) (rc : RawConnection) (cs : List Connection)
    → is_empty rc.connection ≡ false
    → is_empty rc.type ≡ false
    → is_seen rc.connection seen ≡ false
    → All IsCidr rc.max_cidrs
    → Loaded (put rc.connection true seen) cs
    → Loaded seen (converted rc ∷ cs)
unfolding converted connection_in
converted-Loaded seen rc cs n t u ranges rest = record {
  complete = All.one_more (record { named = n; typed = t; ranges = ranges }) rest.complete;
  distinct =
      Distinct.one_more
        (rest.fresh rc.connection (
          is_seen-put rc.connection rc.connection seen
          ∙ ap (λ b. if b then true else is_seen rc.connection seen) (beq_refl rc.connection)))
        rest.distinct;
  fresh = λ name s. elim (Bool-cases (str_beq rc.connection name)) [
    | inl k ↦
        let e = (str_beq_iff rc.connection name).0 k in
        let c : false ≡ true = sym u ∙ ap (λ other. is_seen other seen) e ∙ s in ground (arith, c)
    | inr k ↦ rw k (rest.fresh name (is_seen-put rc.connection name seen ∙ rw k s))
  ];
}

pub load_inventory-Loaded :
    (region_name : Str) (idx : ℕ) (seen : Dict Str Bool) (rcs : List RawConnection)
    (inventory : List Connection)
    → load_inventory region_name idx seen rcs ≡ ok inventory
    → Loaded seen inventory
unfolding load_inventory connection_in
load_inventory-Loaded region_name idx seen [] inventory h =
    subst (Loaded seen) (ok_inj [] inventory h)
      (record { complete = All.none_left; distinct = Distinct.none_left; fresh = λ name s. refl })
load_inventory-Loaded region_name idx seen (rc ∷ rcs) inventory h =
    let collect : List Connection → Result (List Connection) = λ cs. ok (converted rc ∷ cs) in
    let rest = load_inventory region_name (suc idx) (put rc.connection true seen) rcs in
    let ranges = each_cidr (invalid_range region_name idx) rc.max_cidrs in
    let check = check_connection region_name idx seen rc in
    let (both, h'') = then_ok (check >> ranges) (rest >>= collect) h in
    let (k, k') = then_ok check ranges both in
    let (cs, k'', e) = bind_ok rest collect h'' in
    let checks = check_connection_ok region_name idx seen rc k in
    subst (Loaded seen) (ok_inj (converted rc ∷ cs) inventory e) (
      converted-Loaded seen rc cs checks.0 checks.1 checks.2
        (each_cidr_ok (invalid_range region_name idx) rc.max_cidrs k')
        (load_inventory-Loaded region_name (suc idx) (put rc.connection true seen) rcs cs k''))

-- The last connection of a name is its first.
unfoldable pub choose : Option Connection → Option Connection → Option Connection
choose none other = other
choose (some c) other = some c

pub get-index_connections :
    (name : Str) (cs : List Connection) (m : Dict Str Connection)
    → Distinct cs
    → get name (index_connections cs m) ≡ choose (connection_in cs name) (get name m)
unfolding index_connections connection_in choose
get-index_connections name [] m d = refl
get-index_connections name (c ∷ cs) m (Distinct.one_more new d) =
    get-index_connections name cs (put c.name c m) d
    ∙ ap (choose (connection_in cs name)) (get-put c.name name c m)
    ∙ elim (Bool-cases (str_beq c.name name)) [
      | inl k ↦ rw k (
          ap (λ o. choose o (some c))
            (ap (connection_in cs) (sym ((str_beq_iff c.name name).0 k)) ∙ new))
      | inr k ↦ rw k refl
    ]
