-- ===== src/Apis/SnowflakeAccount.antt =====
-- apis/base/v1alpha1/snowflakeaccount_types.go.
use yukimi.Base.{Str, Dict, ℕ, Bool, Option, List}
use yukimi.Apis.Crossplane.{Crossplane}

pub record IdentityIntegration : Type 0 where
  pub groups : Dict Str (List Str)
  pub role_bindings : Dict Str Str

pub record NetworkRule : Type 0 where
  pub connection : Str
  pub allowed_ips : List Str

pub record CustomNetworkRules : Type 0 where
  pub service_users : Dict Str (List NetworkRule)
  pub account_wide : List NetworkRule

pub record AuthException : Type 0 where
  pub user : Str
  pub rsa_key_allowed : Bool
  pub pat_allowed : Bool
  pub reason : Str

pub record CustomAuthRules : Type 0 where
  pub exceptions : List AuthException

-- `creditQuota` is an int32 that no code reads, here its 32 bits as a number.
pub record SnowflakeAccountSpec : Type 0 where
  pub description : Str
  pub contact : Str
  pub region : Str
  pub environment : Str
  pub credit_quota : ℕ
  pub identity_integration : IdentityIntegration
  pub custom_network_rules : Option CustomNetworkRules
  pub custom_auth_rules : Option CustomAuthRules
  pub management_policies : List Str

-- `xpv1.ResourceStatus` is the conditions and the observed generation.
pub record SnowflakeAccountStatus (xp : Crossplane) : Type 0 where
  pub conditions : xp.Conditions
  pub observed_generation : ℕ
  pub account_name : Str
  pub account_locator : Str
  pub account_created_at : Option ℕ
  pub account_url : Str

-- Of the object's metadata, the fields that the program reads.
pub record SnowflakeAccount (xp : Crossplane) : Type 0 where
  pub name : Str
  pub namespace : Str
  pub generation : ℕ
  pub creation_timestamp : ℕ
  pub deletion_timestamp : Option ℕ
  pub spec : SnowflakeAccountSpec
  pub status : SnowflakeAccountStatus xp
