-- ===== src/Tests/Admissions.antt =====
-- An admitted account and an admitted permit.
use yukimi.Secrets.Identifier.Admitted.{admitted_identifier_injective}
use yukimi.Account.Tenant.Form.{is_byte, resolve_name-matches_identifier}
use yukimi.Deletion.Permits.{authorizes}
use yukimi.Apis.DeletionPermit.{DeletionPermit}
use yukimi.Apis.Admission.Named.{is_name_byte}
use yukimi.Tests.Fixtures.{small_crossplane, frankfurt, small_config}
use yukimi.Account.Module.Laws.Identifiers.{check_creatable-new_tenant_identifier}
use yukimi.Account.Module.Checks.{check_creatable}
use yukimi.Account.Tenant.{resolve_name, alpha_tester}
use yukimi.Apis.Admission.{
  is_name_char, is_admitted_name, is_admitted_permit_spec, is_admitted_state,
}
use yukimi.Config.Backplane.{find_region}
use yukimi.Config.Base.Patterns.{is_lower, some_bytes, matches_identifier}
use yukimi.Controller.PermitReconciler.Expiry.{permit_run_expires, permit_run-is_admitted_state}
use yukimi.Controller.PermitReconciler.Lifecycle.{observed, used, permit_run}
use yukimi.Secrets.Identifier.{
  segment_message, is_valid_segment, to_secret_safe, Identifier, new_tenant_identifier,
}
use yukimi.Errors.{Error, ok, err, new_user_error, is_user_error}
use yukimi.Base.{
  str_eq, Str, text, length, str_beq, replace_all, all_bytes, is_letter, is_digit, split_on, get, ℕ,
  ◌+◌, ◌≤◌, ◌≡◌, refl, true, false, ◌&&◌, none, List, [], ◌∷◌, ◌++◌, arith,
}

abbrev dashes : Str
dashes = b'-' ∷ b'-' ∷ []

abbrev shop : Str
shop = text "shop-1"

shop_admitted : is_admitted_name shop ≡ true
unfolding is_admitted_name text is_lower is_digit split_on some_bytes all_bytes
shop_admitted = refl

leading_dash : is_admitted_name (text "-shop") ≡ false
unfolding is_admitted_name text is_lower is_digit split_on some_bytes all_bytes
leading_dash = refl

double_dash : is_admitted_name (text "shop" ++ (dashes ++ text "1")) ≡ false
unfolding is_admitted_name text is_lower is_digit split_on some_bytes all_bytes
double_dash = refl

abbrev team : Str
team = text "team" ++ (dashes ++ text "a")

abbrev digest : Str → List ℕ
digest s =
    1 ∷ 2 ∷ 3 ∷ 4 ∷ 5 ∷ 6 ∷ 7 ∷ 8 ∷ 9 ∷ 10 ∷ 11 ∷ 12 ∷ 13 ∷ 14 ∷ 15 ∷ 16 ∷ 17 ∷ 18 ∷ 19 ∷ 20 ∷ 21
    ∷ 22 ∷ 23 ∷ 24 ∷ 25 ∷ 26 ∷ 27 ∷ 28 ∷ 29 ∷ 30 ∷ 31 ∷ 255 ∷ []

creatable : check_creatable small_config shop frankfurt (resolve_name digest shop team) [] ≡ ok tt
unfolding check_creatable find_region get alpha_tester resolve_name str_beq text replace_all
creatable = refl

abbrev refusal : Error
refusal = new_user_error (segment_message (text "namespace") team)

refused_team : new_tenant_identifier small_config.org team shop ≡ err refusal
unfolding new_tenant_identifier text is_valid_segment is_letter is_digit to_secret_safe
    new_user_error
refused_team = refl

short_team : length team ≤ 63
unfolding text
short_team = omega arith

check_creatable-new_tenant_identifier_example :
    (is_user_error refusal ≡ true)
    × (is_valid_segment small_config.org && is_valid_segment team ≡ false)
check_creatable-new_tenant_identifier_example =
    check_creatable-new_tenant_identifier digest small_config shop team frankfurt [] refusal refl
      shop_admitted short_team creatable refused_team

abbrev shop_identifier : Identifier
shop_identifier = record {
  value = text "yk-acme" ++ (dashes ++ (text "team" ++ (dashes ++ text "shop-1")));
}

shop_named : new_tenant_identifier (text "acme") (text "team") shop ≡ ok shop_identifier
unfolding new_tenant_identifier text is_valid_segment is_letter is_digit to_secret_safe
shop_named = refl

team_bytes : all_bytes is_name_byte (text "team") ≡ true
unfolding all_bytes is_name_char is_lower is_digit text
team_bytes = refl

admitted_identifier_injective_example : (text "team" ≡ text "team") × (shop ≡ shop)
admitted_identifier_injective_example =
    admitted_identifier_injective (text "acme") (text "team") shop (text "team") shop
      shop_identifier shop_admitted shop_admitted team_bytes team_bytes shop_named shop_named

digest_bytes : all_bytes is_byte (digest team) ≡ true
unfolding all_bytes
digest_bytes = refl

resolve_name-matches_identifier_example :
    (matches_identifier (resolve_name digest shop team) ≡ true)
    × (length (resolve_name digest shop team) ≡ length shop + 6)
resolve_name-matches_identifier_example =
    resolve_name-matches_identifier digest shop team shop_admitted refl digest_bytes

abbrev hour_permit : DeletionPermit small_crossplane
hour_permit = record {
  name = b'p' ∷ [];
  namespace = b't' ∷ [];
  creation_timestamp = 5;
  deletion_timestamp = none;
  spec = record {
    target_ref = record { kind = text "SnowflakeAccount"; name = shop };
    duration = 3600000000000;
    reason = text "moved";
    management_policies = [];
  };
  status = record { conditions = false; valid_until = none; state = [] };
}

permit_admitted : is_admitted_permit_spec hour_permit.spec ≡ true
unfolding is_admitted_permit_spec str_beq text
permit_admitted = refl

permit_run_expires_example :
    authorizes
      (text "SnowflakeAccount")
      shop
      (permit_run ((observed 9 ∷ []) ++ observed 28800000000006 ∷ observed 10 ∷ []) hour_permit)
    ≡ false
permit_run_expires_example =
    permit_run_expires (text "SnowflakeAccount") shop (observed 9 ∷ []) (observed 10 ∷ [])
      28800000000006 hour_permit permit_admitted refl (omega arith)

new_state : is_admitted_state [] ≡ true
unfolding is_admitted_state
new_state = refl

permit_run-is_admitted_state_example :
    is_admitted_state (permit_run (observed 9 ∷ used ∷ []) hour_permit).status.state ≡ true
permit_run-is_admitted_state_example =
    permit_run-is_admitted_state (observed 9 ∷ used ∷ []) hour_permit new_state
