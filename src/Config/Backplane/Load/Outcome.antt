-- ===== src/Config/Backplane/Load/Outcome.antt =====
-- What `Load` of internal/config/backplane/backplane.go promises of its two outcomes.
use yukimi.Base.{
  str_eq, Bool-cases, some-not-none, Str, text, str_beq, Dict, get, put, get-put, ◌≡◌, sym, ap,
  subst, ◌∙◌, inl, inr, Option, none, some, List, [], ◌∷◌,
}
use yukimi.Errors.{Result, ok, wrap}
use yukimi.Effects.{rename_error}
use yukimi.Results.{bind_ok, ok_inj, err-not-ok}
use yukimi.Config.Files.{FileRead}
use yukimi.Config.Backplane.{Region, Backplane, known_region, find_region}
use yukimi.Config.Backplane.Load.Valid.{IsValid, load_region-IsValid}
use yukimi.Config.Backplane.Load.{
  RawRegion, RawBackplane, load_region, sort_strings, keys, raw_region, load_regions, file_content,
  load,
}

AllValid : Dict Str Region → Type 0
AllValid regions = (name : Str) (r : Region) → get name regions ≡ some r → IsValid r

from_option : Region → Option Region → Region
from_option d none = d
from_option d (some r) = r

known_some : (name : Str) (o : Option Region) (r : Region) → known_region name o ≡ ok r → o ≡ some r
unfolding known_region
known_some name none r h = err-not-ok h
known_some name (some r') r h = ap some (ok_inj r' r h)

AllValid-put :
    (name : Str) (r : Region) (regions : Dict Str Region)
    → IsValid r
    → AllValid regions
    → AllValid (put name r regions)
unfolding AllValid from_option
AllValid-put name r regions v all other r' = elim (Bool-cases (str_beq name other)) [
  | inl k ↦ rw (get-put name other r regions) (rw k (λ h. subst IsValid (ap (from_option r) h) v))
  | inr k ↦ rw (get-put name other r regions) (rw k (λ h. all other r' h))
]

load_regions-AllValid :
    (raw : Dict Str RawRegion) (names : List Str) (regions result : Dict Str Region)
    → AllValid regions
    → load_regions raw names regions ≡ ok result
    → AllValid result
unfolding load_regions
load_regions-AllValid raw [] regions result all h = subst AllValid (ok_inj regions result h) all
load_regions-AllValid raw (name ∷ names) regions result all h =
    let (r, k, h') = bind_ok (load_region name (raw_region name raw)) _ h in
    load_regions-AllValid raw names (put name r regions) result
      (AllValid-put name r regions (load_region-IsValid name (raw_region name raw) r k) all) h'

-- Whatever region `Config.Region` finds in a configuration that `Load` has returned: its
-- connections have a name, a type and CIDRs as ranges, no two of them have the same name, and each
-- allowlist entry names one of them, with addresses that ContainsCIDR finds within its ranges.
pub load-IsValid :
    (read_file : Str → Str → FileRead) (decode : Str → Result RawBackplane) (config_dir : Str)
    (config : Backplane) (name : Str) (r : Region)
    → load read_file decode config_dir ≡ ok config
    → find_region config name ≡ ok r
    → IsValid r
unfolding load find_region AllValid get
load-IsValid read_file decode config_dir config name r h f =
    let (bytes, k, h') =
      bind_ok (file_content config_dir (read_file config_dir (text "backplane.yaml"))) _ h in
    let (raw, k', h'') =
      bind_ok (rename_error (wrap (text "failed to parse backplane.yaml: ")) (decode bytes)) _ h' in
    let (regions, k'', e) =
      bind_ok (load_regions raw.regions (sort_strings (keys raw.regions)) []) _ h'' in
    load_regions-AllValid raw.regions (sort_strings (keys raw.regions)) [] regions
      (λ other x g. some-not-none (sym g)) k'' name r
      (ap (λ c. get name c.regions) (ok_inj _ config e)
        ∙ known_some name (get name config.regions) r f)
