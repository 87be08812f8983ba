-- ===== src/Account/Module/Checks.antt =====
-- apply.go: the checks before a fresh create has any side effect.
use yukimi.Results.{◌>>=◌, ◌>>◌}
use yukimi.Errors.{Error, Result, ok, err, new_user_error}
use yukimi.Base.{
  str_eq, ltb, leb, if◌then◌else◌, Str, text, length, decimal, Dict, ℕ, ◌+◌, ◌-◌, Bool, not, ◌&&◌,
  ◌∷◌, ◌++◌,
}
use yukimi.Config.Backplane.{region_unavailable, find_region}
use yukimi.Account.Tenant.{alpha_tester}
use yukimi.Account.Module.Existing.{ModuleConfig}

abbrev pub max_account_label_len : ℕ
max_account_label_len = 63

-- `%d` of a difference.
decimal_difference : ℕ → ℕ → Str
decimal_difference a b = if leb b a then decimal (a - b) else b'-' ∷ decimal (b - a)

pub name_too_long : ModuleConfig → Str → Str → Error
name_too_long m name resolved = new_user_error (
    text "account name must be "
    ++ decimal_difference (max_account_label_len - 1 + length name) (length m.org + length resolved)
    ++ text " characters or fewer")

unfoldable pub region_check : Str → Bool → Bool → Result (Unit {0})
region_check region available is_alpha_tester =
    if not available && not is_alpha_tester then err (region_unavailable region) else ok tt

-- `len(cr.Name) > maxAccountLabelLen - 1 - len(org) - (len(resolvedName) - len(cr.Name))`, with
-- every term that is subtracted moved to the left side.
unfoldable pub name_check : ModuleConfig → Str → Str → Result (Unit {0})
name_check m name resolved =
    if ltb max_account_label_len (1 + length m.org + length resolved)
    then err (name_too_long m name resolved)
    else ok tt

-- `module.checkCreatable`
unfoldable pub check_creatable : ModuleConfig → Str → Str → Str → Dict Str Str → Result (Unit {0})
unfolding region_check name_check
check_creatable m name region resolved labels = do
  entry ← find_region m.backplane region
  is_alpha_tester ← alpha_tester labels
  region_check region entry.available is_alpha_tester
  name_check m name resolved
