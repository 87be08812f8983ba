-- ===== src/Config/Backplane/Load/Valid.antt =====
-- What a region that internal/config/backplane/backplane.go has loaded satisfies.
use yukimi.Base.{
  str_eq, Str, get, All, ◌≡◌, refl, sym, subst, ◌∙◌, inl, inr, true, false, Option, none, some,
  List, [], ◌∷◌,
}
use yukimi.Errors.{Error, Result, ok}
use yukimi.Results.{◌>>=◌, Result-cases, bind_ok, then_ok, ok_inj, err-not-ok}
use yukimi.Config.Cidr.{contains_cidr}
use yukimi.Config.Backplane.{Connection, AllowlistEntry, Region, connection_in}
use yukimi.Config.Backplane.Load.Inventory.{load_inventory, index_connections}
use yukimi.Config.Backplane.Load.Allowlist.{
  RawAllowlistEntry, not_contained, contained, each_contained, check_entry, load_allowlist,
}
use yukimi.Config.Backplane.Load.Distinct.{
  IsComplete, Distinct, load_inventory-Loaded, choose, get-index_connections,
}
use yukimi.Config.Backplane.Load.{RawRegion, load_region}

-- The entry narrows a connection that the lookup finds.
pub record Narrows (inventory : List Connection) (entry : AllowlistEntry) : Type 0 where
  pub conn : Connection
  pub found : connection_in inventory entry.connection ≡ some conn
  pub within : All (λ ip. contains_cidr conn.max_cidrs ip ≡ ok true) entry.allowed_ips

each_contained_ok :
    (outside : Str → Error) (ranges ips : List Str)
    → each_contained outside ranges ips ≡ ok tt
    → All (λ ip. contains_cidr ranges ip ≡ ok true) ips
unfolding each_contained contained
each_contained_ok outside ranges [] = λ h. All.none_left
each_contained_ok outside ranges (ip ∷ ips) = elim (Result-cases (contains_cidr ranges ip)) [
  | inl (true, k) ↦ rw k (λ h. All.one_more k (each_contained_ok outside ranges ips h))
  | inl (false, k) ↦ rw k (λ h. err-not-ok h)
  | inr (e, k) ↦ rw k (λ h. err-not-ok h)
]

check_entry_ok :
    (region_name : Str) (ra : RawAllowlistEntry) (o : Option Connection)
    → check_entry region_name ra o ≡ ok tt
    → (conn : Connection) × (o ≡ some conn)
      × All (λ ip. contains_cidr conn.max_cidrs ip ≡ ok true) ra.allowed_ips
unfolding check_entry
check_entry_ok region_name ra none h = err-not-ok h
check_entry_ok region_name ra (some conn) h =
    let outside = not_contained region_name ra.connection conn.max_cidrs in
    let (first, last) = then_ok _ (each_contained outside conn.max_cidrs ra.allowed_ips) h in
    (conn, refl, each_contained_ok outside conn.max_cidrs ra.allowed_ips last)

load_allowlist-Narrows :
    (region_name : Str) (inventory : List Connection) (ras : List RawAllowlistEntry)
    (entries : List AllowlistEntry)
    → Distinct inventory
    → load_allowlist region_name (index_connections inventory []) ras ≡ ok entries
    → All (Narrows inventory) entries
unfolding load_allowlist choose get
load_allowlist-Narrows region_name inventory [] entries d h =
    subst (All (Narrows inventory)) (ok_inj [] entries h) All.none_left
load_allowlist-Narrows region_name inventory (ra ∷ ras) entries d h =
    let by_name = index_connections inventory [] in
    let entry : AllowlistEntry = record {
      connection = ra.connection;
      allowed_ips = ra.allowed_ips;
    } in
    let collect : List AllowlistEntry → Result (List AllowlistEntry) = λ es. ok (entry ∷ es) in
    let rest = load_allowlist region_name by_name ras in
    let (k, h') =
      then_ok (check_entry region_name ra (get ra.connection by_name)) (rest >>= collect) h in
    let (es, k', e) = bind_ok rest collect h' in
    let (conn, found, within) = check_entry_ok region_name ra (get ra.connection by_name) k in
    subst (All (Narrows inventory)) (ok_inj (entry ∷ es) entries e) (
      All.one_more
        (record {
          conn = conn;
          found =
              chosen (connection_in inventory ra.connection) conn
                (sym (get-index_connections ra.connection inventory [] d) ∙ found);
          within = within;
        })
        (load_allowlist-Narrows region_name inventory ras es d k'))
  where
    chosen : (o : Option Connection) (c : Connection) → choose o none ≡ some c → o ≡ some c
    chosen none c h = h
    chosen (some d) c h = h

-- A region that `loadRegion` accepts.
pub record IsValid (r : Region) : Type 0 where
  pub complete : All IsComplete r.inventory
  pub distinct : Distinct r.inventory
  pub narrowing : All (Narrows r.inventory) r.regional_allowlist

pub load_region-IsValid :
    (region_name : Str) (rr : RawRegion) (r : Region)
    → load_region region_name rr ≡ ok r
    → IsValid r
unfolding load_region
load_region-IsValid region_name rr r h =
    let (inventory, k, h') = bind_ok (load_inventory region_name 0 [] rr.inventory) _ h in
    let (entries, k', e) =
      bind_ok (load_allowlist region_name (index_connections inventory []) rr.regional_allowlist) _
        h' in
    let loaded = load_inventory-Loaded region_name 0 [] rr.inventory inventory k in
    subst IsValid (ok_inj _ r e) (record {
      complete = loaded.complete;
      distinct = loaded.distinct;
      narrowing =
          load_allowlist-Narrows region_name inventory rr.regional_allowlist entries loaded.distinct
            k';
    })
