-- ===== src/Config/Backplane/Load/Inventory.antt =====
-- The loop of `loadRegion` of internal/config/backplane/backplane.go over the inventory.
use yukimi.Base.{
  str_eq, if◌then◌else◌, Str, text, is_empty, decimal, Dict, get, put, ℕ, suc, String, Bool, true,
  false, Option, none, some, List, [], ◌∷◌, ◌++◌,
}
use yukimi.Errors.{Error, plain, Result, ok, err}
use yukimi.Results.{◌>>=◌, ◌>>◌}
use yukimi.Config.Cidr.Parse.{Cidr, parse_cidr}
use yukimi.Config.Backplane.{Connection}

pub record RawConnection : Type 0 where
  pub connection : Str
  pub type : Str
  pub vpce_id : Str
  pub max_cidrs : List Str

-- The tests of one entry of the inventory, before its ranges.
abbrev pub at_entry : Str → ℕ → String → Str → Error
at_entry region_name idx field rest = plain (
    text "regions."
    ++ region_name
    ++ text ".inventory["
    ++ decimal idx
    ++ text "]."
    ++ text field
    ++ rest)

abbrev pub repeated_connection : Str → Str → Error
repeated_connection region_name name = plain (
    text "regions."
    ++ region_name
    ++ text ".inventory contains connection '"
    ++ name
    ++ text "' more than once")

-- The value of a pointer or of a map's key, or the zero value.
abbrev pub or_default {ℓ} : {A : Type ℓ} → A → Option A → A
or_default d none = d
or_default d (some a) = a

unfoldable pub is_seen : Str → Dict Str Bool → Bool
unfolding get
is_seen name seen = or_default false (get name seen)

unfoldable pub check_connection : Str → ℕ → Dict Str Bool → RawConnection → Result (Unit {0})
check_connection region_name idx seen rc =
    if is_empty rc.connection
    then err (at_entry region_name idx "connection" (text " is required"))
    else if is_empty rc.type
    then err (at_entry region_name idx "type" (text " is required"))
    else if is_seen rc.connection seen
    then err (repeated_connection region_name rc.connection)
    else ok tt

abbrev pub require_cidr : Error → Option Cidr → Result (Unit {0})
require_cidr invalid none = err invalid
require_cidr invalid (some net) = ok tt

-- `for _, cidr := range ...`: each text is a CIDR, or the error for the first that is none.
unfoldable pub each_cidr : (Str → Error) → List Str → Result (Unit {0})
each_cidr invalid [] = ok tt
each_cidr invalid (cidr ∷ cidrs) =
    require_cidr (invalid cidr) (parse_cidr cidr) >> each_cidr invalid cidrs

abbrev pub invalid_range : Str → ℕ → Str → Error
invalid_range region_name idx cidr =
    at_entry region_name idx "maxCidrs" (text " '" ++ cidr ++ text "' is not a valid CIDR")

unfoldable pub converted : RawConnection → Connection
converted rc = record {
  name = rc.connection;
  type = rc.type;
  vpce_id = rc.vpce_id;
  max_cidrs = rc.max_cidrs;
}

-- The loop over `rr.Inventory`.
unfoldable pub load_inventory :
    Str → ℕ → Dict Str Bool → List RawConnection → Result (List Connection)
load_inventory region_name idx seen [] = ok []
load_inventory region_name idx seen (rc ∷ rcs) =
    let rest = load_inventory region_name (suc idx) (put rc.connection true seen) rcs in
    check_connection region_name idx seen rc
    >> each_cidr (invalid_range region_name idx) rc.max_cidrs
    >> (rest >>= λ inventory. ok (converted rc ∷ inventory))

-- `connByName`
unfoldable pub index_connections : List Connection → Dict Str Connection → Dict Str Connection
index_connections [] conn_by_name = conn_by_name
index_connections (c ∷ cs) conn_by_name = index_connections cs (put c.name c conn_by_name)
