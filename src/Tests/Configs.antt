-- ===== src/Tests/Configs.antt =====
-- Small configuration files, and the pool that is closed.
use yukimi.Base.{
  str_eq, Str, text, str_beq, all_bytes, is_letter, is_digit, split_on, get, put, ◌*◌, ◌≡◌, refl,
  sym, ap, subst, ◌↔◌, true, false, Option, none, some, [], ◌∷◌, arith,
}
use yukimi.Errors.{Error, plain, Result, ok, err, wrap, is_user_error}
use yukimi.Results.{err-not-ok}
use yukimi.Config.Files.{FileRead, content, not_exist, unreadable}
use mathlib.Core.List.{Memᴰ}
use yukimi.Config.Base.Shape.{one_section, check_field, check_optional, check_snowflake, check_aws}
use yukimi.Config.Cidr.Parse.{Cidr, address_bits, parse_cidr}
use yukimi.Config.Cidr.{mapped_part, covers, contains_cidr}
use yukimi.Config.Cidr.Containment.{Includes, IsDotted, covers-iff-Includes, contains_cidr-Includes}
use yukimi.Config.Backplane.{Region, Backplane, find_region}
use yukimi.Config.Backplane.Load.Inventory.{
  is_seen, check_connection, each_cidr, converted, load_inventory,
}
use yukimi.Config.Backplane.Load.Allowlist.{
  contained, each_contained, no_entries, check_entry, load_allowlist,
}
use yukimi.Config.Backplane.Load.{RawRegion, RawBackplane, load_region, load}
use yukimi.Config.Backplane.Load.Valid.{IsValid}
use yukimi.Config.Backplane.Load.Outcome.{load-IsValid}
use yukimi.Config.Backplane.Load.Refusals.{load-is_user_error}
use yukimi.Config.Base.Patterns.{
  is_lower, some_bytes, matches_identifier, matches_locator, matches_aws_region, behind,
  rest_matches, matches_org_admin_region, matches_kms_key,
}
use yukimi.Config.Base.Resolve.{
  ℤ, pos, resolve_positive_int, resolve_non_negative_int, resolve_int_in_range,
  resolve_positive_duration,
}
use yukimi.Config.Base.Document.{
  document_node, mapping_node, other_kind, Node, node, no_nodes, more_nodes, is_cloud_section,
  cloud_keys,
}
use yukimi.Config.Base.Settings.{BaseConfig, RawConfig, zero_config}
use yukimi.Config.Base.{
  second, minute, snowflake_settings, secrets_settings, deletion_settings, load_base,
}
use yukimi.Config.Base.Valid.{IsSound, load_base-IsSound}

abbrev pub ten : Str
ten = text "10.0.0.0/8"

abbrev pub ten_one : Str
ten_one = text "10.1.0.0/16"

abbrev ten_net : Cidr
ten_net = record { bits = address_bits (10 ∷ 0 ∷ 0 ∷ 0 ∷ []); ones = 8 }

abbrev ten_one_net : Cidr
ten_one_net = record { bits = address_bits (10 ∷ 1 ∷ 0 ∷ 0 ∷ []); ones = 16 }

ten_one_parsed : parse_cidr ten_one ≡ some ten_one_net
unfolding parse_cidr address_bits text
ten_one_parsed = refl

ten_one_unmapped : mapped_part ten_one_net.bits ≡ none
unfolding mapped_part address_bits
ten_one_unmapped = refl

ten_one_contained : contains_cidr (ten ∷ []) ten_one ≡ ok true
unfolding contains_cidr parse_cidr text
ten_one_contained = refl

contains_cidr-Includes_example :
    (range : Str) × (net : Cidr) × Memᴰ range (ten ∷ [])
    × (parse_cidr range ≡ some net)
    × Includes net ten_one_net
contains_cidr-Includes_example =
    contains_cidr-Includes (ten ∷ []) ten_one ten_one_net ten_one_parsed ten_one_unmapped
      ten_one_contained

ten_IsDotted : IsDotted ten_net
unfolding address_bits
ten_IsDotted = record { width = refl; masked = omega arith }

ten_one_IsDotted : IsDotted ten_one_net
unfolding address_bits
ten_one_IsDotted = record { width = refl; masked = omega arith }

covers-iff-Includes_example : (covers ten_net ten_one_net ≡ true) ↔ Includes ten_net ten_one_net
covers-iff-Includes_example = covers-iff-Includes ten_net ten_one_net ten_IsDotted ten_one_IsDotted

-- A backplane with one region, whose allowlist narrows its one connection.
abbrev pub agn : Str
agn = text "agn"

abbrev pub raw_region_one : RawRegion
raw_region_one = record {
  available = some true;
  inventory =
      record { connection = agn; type = text "IPV4"; vpce_id = []; max_cidrs = ten ∷ [] } ∷ [];
  regional_parameters = [];
  regional_allowlist = record { connection = agn; allowed_ips = ten_one ∷ [] } ∷ [];
}

abbrev pub frankfurt : Str
frankfurt = text "aws-eu-central-1"

abbrev pub raw_backplane : RawBackplane
raw_backplane = record { global_parameters = []; regions = (frankfurt, raw_region_one) ∷ [] }

abbrev pub region_one : Region
region_one = record {
  available = true;
  inventory = record { name = agn; type = text "IPV4"; vpce_id = []; max_cidrs = ten ∷ [] } ∷ [];
  regional_parameters = [];
  regional_allowlist = record { connection = agn; allowed_ips = ten_one ∷ [] } ∷ [];
}

abbrev pub loaded_backplane : Backplane
loaded_backplane = record { global_parameters = []; regions = (frankfurt, region_one) ∷ [] }

abbrev pub some_file : Str → Str → FileRead
some_file dir name = content []

abbrev pub decode_backplane : Str → Result RawBackplane
decode_backplane bytes = ok raw_backplane

pub backplane_loaded : load some_file decode_backplane [] ≡ ok loaded_backplane
unfolding load is_seen put converted no_entries load_region load_inventory load_allowlist
    check_connection check_entry each_cidr each_contained contained contains_cidr parse_cidr get
    str_beq text
backplane_loaded = refl

frankfurt_found : find_region loaded_backplane frankfurt ≡ ok region_one
unfolding find_region get str_beq text
frankfurt_found = refl

load-IsValid_example : IsValid region_one
load-IsValid_example =
    load-IsValid some_file decode_backplane [] loaded_backplane frankfurt region_one
      backplane_loaded frankfurt_found

abbrev denied : Error
denied = plain (text "permission denied")

abbrev unreadable_file : Str → Str → FileRead
unreadable_file dir name = unreadable denied

error_of : FileRead → Error
error_of (content bytes) = denied
error_of not_exist = denied
error_of (unreadable e) = e

denied_law :
    (dir name : Str) (e : Error) → unreadable_file dir name ≡ unreadable e → is_user_error e ≡ false
unfolding error_of is_user_error
denied_law dir name e h = subst (λ x. is_user_error x ≡ false) (ap error_of h) refl

load-denied :
    load unreadable_file decode_backplane [] ≡ err (wrap (text "reading backplane.yaml: ") denied)
unfolding load
load-denied = refl

load-is_user_error_example : is_user_error (wrap (text "reading backplane.yaml: ") denied) ≡ false
load-is_user_error_example =
    load-is_user_error unreadable_file decode_backplane denied_law (λ bytes e h. err-not-ok (sym h))
      [] (wrap (text "reading backplane.yaml: ") denied) load-denied

-- A base configuration with the required fields and a grace period.
abbrev pub scalar : Str → Node
scalar s = node other_kind s no_nodes

abbrev pub document : Node
document = node document_node [] (
    more_nodes
      (node mapping_node [] (
        more_nodes (scalar (text "snowflake")) (
          more_nodes (scalar [])
            (more_nodes (scalar (text "aws")) (more_nodes (scalar []) no_nodes)))))
      no_nodes)

abbrev pub raw_base : RawConfig
raw_base = record zero_config {
  snowflake = record zero_config.snowflake {
    org = text "acme";
    org_admin_account = text "admin";
    org_admin_account_locator = text "xy12345";
    org_admin_account_region = frankfurt;
    max_connection_pool_size = some (pos 3);
  };
  aws = record { region = text "eu-central-1"; kms_key_id = text "alias/my-key" };
  deletion = record { grace_period_days = some (pos 45); protection = none };
}

abbrev pub no_durations : Str → Option ℤ
no_durations s = none

abbrev pub unmarshal : Str → Result Node
unmarshal bytes = ok document

abbrev pub decode_base : Node → Result RawConfig
decode_base root = ok raw_base

abbrev pub loaded_base : BaseConfig
loaded_base = record {
  snowflake = record {
    org = text "acme";
    org_admin_account = text "admin";
    org_admin_account_locator = text "xy12345";
    org_admin_account_region = frankfurt;
    use_private_link = true;
    disable_ocsp_checks = false;
    max_connection_pool_size = 3;
    max_idle_connections = 2;
    connection_max_lifetime = 30 * minute;
    connection_max_idle_time = 5 * minute;
    connection_probe_timeout = 10 * second;
    account_creation_grace_period = 5 * minute;
  };
  aws = record { region = text "eu-central-1"; kms_key_id = text "alias/my-key" };
  secrets = record { cache_ttl = 5 * minute; rotation_interval = 4320 * 60 * minute };
  deletion = record { grace_period_days = 45; protection = true };
  cloud_provider = text "aws";
}

pub base_loaded : load_base some_file unmarshal decode_base no_durations [] ≡ ok loaded_base
unfolding load_base zero_config snowflake_settings secrets_settings deletion_settings
    resolve_positive_int resolve_non_negative_int resolve_int_in_range resolve_positive_duration
    one_section check_snowflake check_aws check_field check_optional matches_identifier
    matches_locator matches_org_admin_region matches_aws_region matches_kms_key cloud_keys
    is_cloud_section some_bytes all_bytes is_lower is_digit is_letter split_on behind rest_matches
    str_beq text
base_loaded = refl

load_base-IsSound_example : IsSound loaded_base
load_base-IsSound_example =
    load_base-IsSound some_file unmarshal decode_base no_durations [] loaded_base base_loaded
