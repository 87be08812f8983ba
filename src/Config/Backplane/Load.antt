-- ===== src/Config/Backplane/Load.antt =====
-- `Load` of internal/config/backplane/backplane.go. Reading a file and decoding YAML are parameters;
-- a map that is nil is an empty one.
pub mod Inventory
pub mod Allowlist
pub mod Distinct
pub mod Valid
pub mod Outcome
pub mod Refusals
pub mod Order
use yukimi.Base.{
  str_eq, ltb, nat_beq, if◌then◌else◌, Str, text, Dict, get, put, Bool, true, false, Option, none,
  List, [], ◌∷◌, ◌++◌,
}
use yukimi.Errors.{Error, plain, Result, ok, err, wrap}
use yukimi.Results.{◌>>=◌, ◌>>◌}
use yukimi.Config.Backplane.{Region, Backplane}
use yukimi.Effects.{rename_error}
use yukimi.Config.Files.{FileRead, content, not_exist, unreadable}
use yukimi.Config.Backplane.Load.Inventory.{
  RawConnection, or_default, load_inventory, index_connections,
}
use yukimi.Config.Backplane.Load.Allowlist.{RawAllowlistEntry, load_allowlist}

pub record RawRegion : Type 0 where
  pub available : Option Bool
  pub inventory : List RawConnection
  pub regional_parameters : Dict Str Str
  pub regional_allowlist : List RawAllowlistEntry

pub record RawBackplane : Type 0 where
  pub global_parameters : Dict Str Str
  pub regions : Dict Str RawRegion

-- `loadRegion`
unfoldable pub load_region : Str → RawRegion → Result Region
unfolding load_inventory index_connections load_allowlist
load_region region_name rr = do
  inventory ← load_inventory region_name 0 [] rr.inventory
  allowlist ← load_allowlist region_name (index_connections inventory []) rr.regional_allowlist
  ok (record {
    available = or_default false rr.available;
    inventory = inventory;
    regional_parameters = rr.regional_parameters;
    regional_allowlist = allowlist;
  })

-- `sort.Strings`: the order of Go strings is that of their bytes.
str_leb : Str → Str → Bool
str_leb [] t = true
str_leb (c ∷ s) [] = false
str_leb (c ∷ s) (d ∷ t) = let rest = str_leb s t in if nat_beq c d then rest else ltb c d

insert_string : Str → List Str → List Str
insert_string s [] = s ∷ []
insert_string s (t ∷ ts) =
    let rest = insert_string s ts in if str_leb s t then s ∷ t ∷ ts else t ∷ rest

sort_strings : List Str → List Str
sort_strings [] = []
sort_strings (s ∷ ss) = insert_string s (sort_strings ss)

keys : Dict Str RawRegion → List Str
keys [] = []
keys ((name, rr) ∷ m) = name ∷ keys m

-- `raw.Regions[regionName]`, with the zero value for a missing key.
zero_region : RawRegion
zero_region = record {
  available = none;
  inventory = [];
  regional_parameters = [];
  regional_allowlist = [];
}

raw_region : Str → Dict Str RawRegion → RawRegion
raw_region name m = or_default zero_region (get name m)

-- The loop over the sorted names.
load_regions : Dict Str RawRegion → List Str → Dict Str Region → Result (Dict Str Region)
load_regions raw [] regions = ok regions
load_regions raw (name ∷ names) regions = load_region name (raw_region name raw) >>= λ region.
    load_regions raw names (put name region regions)

not_found : Str → Error
not_found config_dir = plain (text "backplane.yaml not found in " ++ config_dir)

file_content : Str → FileRead → Result Str
file_content config_dir (content bytes) = ok bytes
file_content config_dir not_exist = err (not_found config_dir)
file_content config_dir (unreadable e) = err (wrap (text "reading backplane.yaml: ") e)

module _ (read_file : Str → Str → FileRead) (decode : Str → Result RawBackplane) where
  -- `Load`
  unfoldable pub load : Str → Result Backplane
  unfolding file_content not_found load_regions sort_strings insert_string str_leb keys raw_region
      zero_region
  load config_dir = do
    bytes ← file_content config_dir (read_file config_dir (text "backplane.yaml"))
    raw ← rename_error (wrap (text "failed to parse backplane.yaml: ")) (decode bytes)
    regions ← load_regions raw.regions (sort_strings (keys raw.regions)) []
    ok (record { global_parameters = raw.global_parameters; regions = regions })
