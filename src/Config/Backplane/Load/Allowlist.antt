-- ===== src/Config/Backplane/Load/Allowlist.antt =====
-- The loop of `loadRegion` of internal/config/backplane/backplane.go over the allowlist.
use yukimi.Base.{
  str_eq, if◌then◌else◌, Str, text, Dict, get, Bool, true, false, not, ◌&&◌, Option, none, some,
  List, [], ◌∷◌, ◌++◌,
}
use yukimi.Errors.{Error, plain, Result, ok, err}
use yukimi.Results.{◌>>=◌, ◌>>◌}
use yukimi.Config.Cidr.{contains_cidr}
use yukimi.Config.Backplane.{Connection, AllowlistEntry}
use yukimi.Config.Backplane.Load.Inventory.{each_cidr}

pub record RawAllowlistEntry : Type 0 where
  pub connection : Str
  pub allowed_ips : List Str

abbrev in_allowlist : Str → Str → Str → Error
in_allowlist region_name connection rest =
    plain (
      text "regions."
      ++ region_name
      ++ text ".regionalAllowlist connection '"
      ++ connection
      ++ rest)

abbrev pub unknown_connection : Str → Str → Error
unknown_connection region_name connection = plain (
    text "regions."
    ++ region_name
    ++ text ".regionalAllowlist references unknown connection '"
    ++ connection
    ++ text "'")

abbrev pub invalid_ip : Str → Str → Str → Error
invalid_ip region_name connection ip =
    in_allowlist region_name connection
      (text "' allowedIPs '" ++ ip ++ text "' is not a valid CIDR")

abbrev pub nothing_to_narrow : Str → Str → Error
nothing_to_narrow region_name connection =
    in_allowlist region_name connection
      (text "' specifies allowedIPs but this connection has no maxCidrs to narrow")

-- `%v` of a list of texts.
pub spaced : List Str → Str
spaced [] = []
spaced (s ∷ []) = s
spaced (s ∷ t ∷ ss) = s ++ text " " ++ spaced (t ∷ ss)

abbrev pub not_contained : Str → Str → List Str → Str → Error
not_contained region_name connection ranges ip = in_allowlist region_name connection (
    text "' allowedIPs '"
    ++ ip
    ++ text "' is not contained within maxCidrs ["
    ++ spaced ranges
    ++ text "]")

-- `contained, _ := ContainsCIDR(...)`
unfoldable pub contained : Result Bool → Bool
contained (ok b) = b
contained (err e) = false

unfoldable pub each_contained : (Str → Error) → List Str → List Str → Result (Unit {0})
each_contained outside ranges [] = ok tt
each_contained outside ranges (ip ∷ ips) =
    let rest = each_contained outside ranges ips in
    if contained (contains_cidr ranges ip) then rest else err (outside ip)

unfoldable pub no_entries : List Str → Bool
no_entries [] = true
no_entries (s ∷ ss) = false

-- The tests of one entry of the allowlist, on the connection that it names.
unfoldable pub check_entry : Str → RawAllowlistEntry → Option Connection → Result (Unit {0})
check_entry region_name ra none = err (unknown_connection region_name ra.connection)
check_entry region_name ra (some conn) =
    each_cidr (invalid_ip region_name ra.connection) ra.allowed_ips
    >> (if not (no_entries ra.allowed_ips) && no_entries conn.max_cidrs
        then err (nothing_to_narrow region_name ra.connection)
        else ok tt)
    >> each_contained (not_contained region_name ra.connection conn.max_cidrs) conn.max_cidrs
        ra.allowed_ips

-- The loop over `rr.RegionalAllowlist`.
unfoldable pub load_allowlist :
    Str → Dict Str Connection → List RawAllowlistEntry → Result (List AllowlistEntry)
load_allowlist region_name conn_by_name [] = ok []
load_allowlist region_name conn_by_name (ra ∷ ras) =
    let rest = load_allowlist region_name conn_by_name ras in
    check_entry region_name ra (get ra.connection conn_by_name)
    >> (rest >>= λ entries.
        ok (record { connection = ra.connection; allowed_ips = ra.allowed_ips } ∷ entries))
