-- ===== src/Config/Base/Shape.antt =====
-- The tests of `Load` of internal/config/base/base.go that come before the settings with defaults.
use yukimi.Base.{if◌then◌else◌, Str, text, is_empty, String, Bool, not, ◌&&◌, List, [], ◌∷◌, ◌++◌}
use yukimi.Errors.{Result, ok, err, new_user_error}
use yukimi.Results.{◌>>◌}
use yukimi.Config.Base.Patterns.{
  matches_identifier, matches_locator, matches_aws_region, matches_org_admin_region,
  matches_kms_key,
}
use yukimi.Config.Base.Settings.{RawSnowflake, RawAws}

-- `strings.Join(..., ", ")`
joined : List Str → Str
joined [] = []
joined (s ∷ []) = s
joined (s ∷ t ∷ ss) = s ++ text ", " ++ joined (t ∷ ss)

-- `switch len(cloudSections)`: the one section.
unfoldable pub one_section : List Str → Result Str
unfolding joined
one_section [] =
    err (new_user_error (text "base.yaml must contain one cloud section (one of: aws, azure, gcp)"))
one_section (section ∷ []) = ok section
one_section (first ∷ second ∷ sections) = err (
    new_user_error (
      text "base.yaml contains several cloud sections ("
      ++ joined (first ∷ second ∷ sections)
      ++ text "); exactly one is allowed"))

-- A field that must be there and match its pattern.
unfoldable pub check_field : String → (Str → Bool) → String → Str → Result (Unit {0})
check_field field matches expected value =
    if is_empty value
    then err (new_user_error (text field ++ text " is required in base.yaml"))
    else if not (matches value)
    then err (
        new_user_error (
          text field
          ++ text " '"
          ++ value
          ++ text "' does not match the expected format (expected: "
          ++ text expected
          ++ text ")"))
    else ok tt

-- A field that may be left out.
unfoldable pub check_optional : String → (Str → Bool) → String → Str → Result (Unit {0})
check_optional field matches expected value =
    if not (is_empty value) && not (matches value)
    then err (
        new_user_error (
          text field
          ++ text " '"
          ++ value
          ++ text "' does not match the expected format (expected: "
          ++ text expected
          ++ text ")"))
    else ok tt

unfoldable pub check_snowflake : RawSnowflake → Result (Unit {0})
unfolding check_field
check_snowflake raw =
    check_field "snowflake.org" matches_identifier "my_org_name" raw.org
    >> check_field "snowflake.orgAdminAccount" matches_identifier "my_org_admin_account_name"
        raw.org_admin_account
    >> check_field "snowflake.orgAdminAccountLocator" matches_locator "xy12345"
        raw.org_admin_account_locator
    >> check_field "snowflake.orgAdminAccountRegion" matches_org_admin_region
        "aws-eu-central-1 or azure-westeurope" raw.org_admin_account_region

unfoldable pub check_aws : RawAws → Result (Unit {0})
unfolding check_optional
check_aws raw =
    check_optional "aws.region" matches_aws_region "eu-central-1" raw.region
    >> check_optional "aws.kmsKeyId" matches_kms_key
        "a KMS key ID, alias, or ARN, e.g. alias/my-key" raw.kms_key_id
