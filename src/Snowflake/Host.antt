-- ===== src/Snowflake/Host.antt =====
-- internal/snowflake/host/host.go and internal/account/tenant/url.go.
pub mod Regions
use yukimi.Base.{
  nat_beq, if◌then◌else◌, Str, text, str_beq, Bool, not, ◌||◌, Option, none, some, [], ◌∷◌, ◌++◌,
}
use yukimi.Errors.{Result, ok, err, new_user_error}
use yukimi.Results.{◌>>=◌, ◌>>◌}

private_link_suffix : Str
unfolding text
private_link_suffix = text ".privatelink.snowflakecomputing.com"

public_suffix : Str
unfolding text
public_suffix = text ".snowflakecomputing.com"

-- `validClouds[cloud]`
is_valid_cloud : Str → Bool
unfolding str_beq text
is_valid_cloud cloud =
    str_beq cloud (text "aws") || str_beq cloud (text "azure") || str_beq cloud (text "gcp")

-- `region[:idx]` and `region[idx+1:]` for the first '-', if there is one.
split_at_dash : Str → Option (Str × Str)
split_at_dash [] = none
split_at_dash (c ∷ s) =
    if nat_beq c b'-'
    then some ([], s)
    else elim (split_at_dash s) [ none ↦ none | some (cloud, rest) ↦ some (c ∷ cloud, rest) ]

pub region_message : Str → Str
region_message region =
    text "region '"
    ++ region
    ++ text "' does not match the expected cloud-region format (expected: aws-eu-central-1)"

abbrev pub bare_region : Str
bare_region = text "aws-eu-central-1"

segment_of : Str → Option (Str × Str) → Result Str
segment_of region none = err (new_user_error (region_message region))
segment_of region (some (cloud, rest)) =
    if not (is_valid_cloud cloud)
    then err (new_user_error (region_message region))
    else if str_beq region bare_region
    then ok (text "eu-central-1")
    else ok (rest ++ b'.' ∷ cloud)

unfoldable pub region_segment : Str → Result Str
unfolding split_at_dash segment_of is_valid_cloud str_beq text
region_segment region = segment_of region (split_at_dash region)

unfoldable pub hostname : Str → Str → Bool → Result Str
unfolding region_segment private_link_suffix public_suffix
hostname locator region use_private_link = do
  segment ← region_segment region
  let suffix = if use_private_link then private_link_suffix else public_suffix
  ok (locator ++ (b'.' ∷ (segment ++ suffix)))

unfoldable pub url : Str → Str → Bool → Result Str
unfolding hostname text
url locator region use_private_link = do
  name ← hostname locator region use_private_link
  ok (text "https://" ++ name)

-- tenant.AccountURL
unfoldable pub account_url : Str → Str → Bool → Result Str
unfolding url text
account_url locator region use_private_link = do
  base ← url locator region use_private_link
  ok (base ++ text "/console/login")
