-- ===== src/Config/Backplane/Load/Refusals.antt =====
-- The errors of `Load` of internal/config/backplane/backplane.go.
use yukimi.Config.Backplane.{Connection, Region}
use yukimi.Config.Cidr.{contains_cidr}
use yukimi.Config.Files.{FileRead, content, not_exist, unreadable}
use yukimi.Config.Backplane.Load.{
  RawRegion, RawBackplane, load_region, sort_strings, keys, raw_region, load_regions, not_found,
  file_content, load,
}
use yukimi.Config.Backplane.Load.Allowlist.{
  RawAllowlistEntry, invalid_ip, not_contained, contained, each_contained, no_entries, check_entry,
  load_allowlist,
}
use yukimi.Base.{
  str_eq, if◌then◌else◌, Str, text, is_empty, Dict, get, put, ℕ, suc, ◌≡◌, refl, subst, Bool, true,
  false, not, ◌&&◌, Option, none, some, List, [], ◌∷◌,
}
use yukimi.Errors.{Error, Result, ok, err, wrap, is_user_error}
use yukimi.Results.{◌>>=◌}
use yukimi.Effects.{rename_error}
use yukimi.Config.Cidr.Parse.{Cidr, parse_cidr}
use yukimi.Config.Backplane.Load.Inventory.{
  RawConnection, is_seen, check_connection, require_cidr, each_cidr, invalid_range, load_inventory,
  index_connections,
}

-- A value, or a system error.
IsSystem : {A : Type 0} → Result A → Type 0
IsSystem (ok a) = Unit {0}
IsSystem (err e) = is_user_error e ≡ false

bind-IsSystem :
    {A B : Type 0} (r : Result A) (next : A → Result B)
    → IsSystem r
    → ((a : A) → IsSystem (next a))
    → IsSystem (r >>= next)
unfolding IsSystem
bind-IsSystem (ok a) next s n = n a
bind-IsSystem (err e) next s n = s

if-IsSystem :
    {A : Type 0} (b : Bool) (r s : Result A)
    → IsSystem r
    → IsSystem s
    → IsSystem (if b then r else s)
if-IsSystem true r s h k = h
if-IsSystem false r s h k = k

each_cidr-IsSystem :
    (invalid : Str → Error) (cidrs : List Str)
    → ((cidr : Str) → is_user_error (invalid cidr) ≡ false)
    → IsSystem (each_cidr invalid cidrs)
unfolding each_cidr IsSystem
each_cidr-IsSystem invalid [] system = tt
each_cidr-IsSystem invalid (cidr ∷ cidrs) system =
    bind-IsSystem (require_cidr (invalid cidr) (parse_cidr cidr)) (λ done. each_cidr invalid cidrs)
      (one (parse_cidr cidr)) (λ done. each_cidr-IsSystem invalid cidrs system)
  where
    one : (o : Option Cidr) → IsSystem (require_cidr (invalid cidr) o)
    one none = system cidr
    one (some net) = tt

load_inventory-IsSystem :
    (region_name : Str) (idx : ℕ) (seen : Dict Str Bool) (rcs : List RawConnection)
    → IsSystem (load_inventory region_name idx seen rcs)
unfolding load_inventory check_connection IsSystem is_user_error
load_inventory-IsSystem region_name idx seen [] = tt
load_inventory-IsSystem region_name idx seen (rc ∷ rcs) =
    bind-IsSystem _ _
      (bind-IsSystem _ _
        (if-IsSystem (is_empty rc.connection) _ _ refl (
          if-IsSystem (is_empty rc.type) _ _ refl
            (if-IsSystem (is_seen rc.connection seen) _ _ refl tt)))
        (λ done. each_cidr-IsSystem (invalid_range region_name idx) rc.max_cidrs (λ cidr. refl)))
      (λ done.
        bind-IsSystem _ _
          (load_inventory-IsSystem region_name (suc idx) (put rc.connection true seen) rcs)
          (λ inventory. tt))

each_contained-IsSystem :
    (outside : Str → Error) (ranges ips : List Str)
    → ((ip : Str) → is_user_error (outside ip) ≡ false)
    → IsSystem (each_contained outside ranges ips)
unfolding each_contained IsSystem
each_contained-IsSystem outside ranges [] system = tt
each_contained-IsSystem outside ranges (ip ∷ ips) system =
    if-IsSystem (contained (contains_cidr ranges ip)) _ _
      (each_contained-IsSystem outside ranges ips system) (system ip)

check_entry-IsSystem :
    (region_name : Str) (ra : RawAllowlistEntry) (o : Option Connection)
    → IsSystem (check_entry region_name ra o)
unfolding check_entry IsSystem is_user_error
check_entry-IsSystem region_name ra none = refl
check_entry-IsSystem region_name ra (some conn) =
    bind-IsSystem _ _
      (bind-IsSystem _ _
        (each_cidr-IsSystem (invalid_ip region_name ra.connection) ra.allowed_ips (λ ip. refl))
        (λ done.
          if-IsSystem (not (no_entries ra.allowed_ips) && no_entries conn.max_cidrs) _ _ refl tt))
      (λ done.
        each_contained-IsSystem (not_contained region_name ra.connection conn.max_cidrs)
          conn.max_cidrs ra.allowed_ips (λ ip. refl))

load_allowlist-IsSystem :
    (region_name : Str) (by_name : Dict Str Connection) (ras : List RawAllowlistEntry)
    → IsSystem (load_allowlist region_name by_name ras)
unfolding load_allowlist IsSystem
load_allowlist-IsSystem region_name by_name [] = tt
load_allowlist-IsSystem region_name by_name (ra ∷ ras) =
    bind-IsSystem _ _ (check_entry-IsSystem region_name ra (get ra.connection by_name))
      (λ done. bind-IsSystem _ _ (load_allowlist-IsSystem region_name by_name ras) (λ entries. tt))

load_region-IsSystem : (region_name : Str) (rr : RawRegion) → IsSystem (load_region region_name rr)
unfolding load_region IsSystem
load_region-IsSystem region_name rr =
    bind-IsSystem _ _ (load_inventory-IsSystem region_name 0 [] rr.inventory) (λ inventory.
      bind-IsSystem _ _
        (load_allowlist-IsSystem region_name (index_connections inventory []) rr.regional_allowlist)
        (λ entries. tt))

load_regions-IsSystem :
    (raw : Dict Str RawRegion) (names : List Str) (regions : Dict Str Region)
    → IsSystem (load_regions raw names regions)
unfolding load_regions IsSystem
load_regions-IsSystem raw [] regions = tt
load_regions-IsSystem raw (name ∷ names) regions =
    bind-IsSystem _ _ (load_region-IsSystem name (raw_region name raw))
      (λ region. load_regions-IsSystem raw names (put name region regions))

file_content-IsSystem :
    (config_dir : Str) (outcome : FileRead)
    → ((e : Error) → outcome ≡ unreadable e → is_user_error e ≡ false)
    → IsSystem (file_content config_dir outcome)
unfolding file_content not_found IsSystem is_user_error
file_content-IsSystem config_dir (content bytes) h = tt
file_content-IsSystem config_dir not_exist h = refl
file_content-IsSystem config_dir (unreadable e) h = h e refl

rename-IsSystem :
    {A : Type 0} (s : Str) (r : Result A)
    → ((e : Error) → r ≡ err e → is_user_error e ≡ false)
    → IsSystem (rename_error (wrap s) r)
unfolding IsSystem is_user_error
rename-IsSystem s (ok a) h = tt
rename-IsSystem s (err e) h = h e refl

IsSystem-err :
    {A : Type 0} (r : Result A) (e : Error) → IsSystem r → r ≡ err e → is_user_error e ≡ false
unfolding IsSystem
IsSystem-err r e s h = subst IsSystem h s

-- Every error of `Load` is a system error, as long as the errors of reading the file and of the
-- YAML decoder are none of the program's user errors.
pub load-is_user_error :
    (read_file : Str → Str → FileRead) (decode : Str → Result RawBackplane)
    → ((dir name : Str) (e : Error) → read_file dir name ≡ unreadable e → is_user_error e ≡ false)
    → ((bytes : Str) (e : Error) → decode bytes ≡ err e → is_user_error e ≡ false)
    → (config_dir : Str) (e : Error) → load read_file decode config_dir ≡ err e
    → is_user_error e ≡ false
unfolding load IsSystem
load-is_user_error read_file decode read_law decode_law config_dir e =
    IsSystem-err (load read_file decode config_dir) e (
      bind-IsSystem _ _
        (file_content-IsSystem config_dir (read_file config_dir (text "backplane.yaml"))
          (read_law config_dir (text "backplane.yaml")))
        (λ bytes.
          bind-IsSystem _ _
            (rename-IsSystem (text "failed to parse backplane.yaml: ") (decode bytes)
              (decode_law bytes))
            (λ raw.
              bind-IsSystem _ _
                (load_regions-IsSystem raw.regions (sort_strings (keys raw.regions)) [])
                (λ regions. tt))))
