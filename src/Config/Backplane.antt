-- ===== src/Config/Backplane.antt =====
-- internal/config/backplane/backplane.go: the catalog and its lookups.
pub mod Load
use yukimi.Errors.{Error, Result, ok, err, new_user_error}
use yukimi.Base.{
  str_eq, if◌then◌else◌, Str, text, str_beq, Dict, get, Bool, Option, none, some, List, [], ◌∷◌,
  ◌++◌,
}

pub record Connection : Type 0 where
  pub name : Str
  pub type : Str
  pub vpce_id : Str
  pub max_cidrs : List Str

pub record AllowlistEntry : Type 0 where
  pub connection : Str
  pub allowed_ips : List Str

pub record Region : Type 0 where
  pub available : Bool
  pub inventory : List Connection
  pub regional_parameters : Dict Str Str
  pub regional_allowlist : List AllowlistEntry

-- `Config`
pub record Backplane : Type 0 where
  pub global_parameters : Dict Str Str
  pub regions : Dict Str Region

pub region_unavailable : Str → Error
region_unavailable name =
    new_user_error
      (text "region '" ++ name ++ text "' is not yet available; choose a different one")

known_region : Str → Option Region → Result Region
known_region name none = err (region_unavailable name)
known_region name (some r) = ok r

-- `Config.Region`
unfoldable pub find_region : Backplane → Str → Result Region
unfolding known_region get
find_region config name = known_region name (get name config.regions)

-- `Region.Connection`
unfoldable pub connection_in : List Connection → Str → Option Connection
connection_in [] name = none
connection_in (c ∷ cs) name = if str_beq c.name name then some c else connection_in cs name

unfoldable pub find_connection : Region → Str → Option Connection
unfolding connection_in
find_connection r name = connection_in r.inventory name
