-- ===== src/Apis/Managed.antt =====
-- apis/base/v1alpha1: what the two types offer to crossplane-runtime, written out by hand in the
-- source: the accessors of `resource.Managed`. A reference to a connection secret is its name.
use yukimi.Apis.SnowflakeAccount.{SnowflakeAccount}
use yukimi.Apis.DeletionPermit.{DeletionPermit}
use yukimi.Apis.Crossplane.{Crossplane}
use yukimi.Base.{Str, Option, none, List}

-- The part of `resource.Managed` that the types implement, but for `GetCondition`.
pub record Managed (xp : Crossplane) (R : Type 0) : Type 0 where
  pub get_management_policies : R → List Str
  pub set_management_policies : List Str → R → R
  pub get_write_connection_secret : R → Option Str
  pub set_write_connection_secret : Option Str → R → R
  pub set_conditions : List xp.Condition → R → R

module _ {xp : Crossplane} where
  pub account_get_management_policies : SnowflakeAccount xp → List Str
  account_get_management_policies a = a.spec.management_policies

  pub account_set_management_policies : List Str → SnowflakeAccount xp → SnowflakeAccount xp
  account_set_management_policies p a = record a {
    spec = record a.spec { management_policies = p };
  }

  -- No connection secret is ever wanted.
  pub account_get_write_connection_secret : SnowflakeAccount xp → Option Str
  account_get_write_connection_secret a = none

  pub account_set_write_connection_secret : Option Str → SnowflakeAccount xp → SnowflakeAccount xp
  account_set_write_connection_secret ref a = a

  pub account_set_conditions : List xp.Condition → SnowflakeAccount xp → SnowflakeAccount xp
  account_set_conditions c a = record a {
    status = record a.status { conditions = xp.set_conditions c a.status.conditions };
  }

  pub permit_get_management_policies : DeletionPermit xp → List Str
  permit_get_management_policies r = r.spec.management_policies

  pub permit_set_management_policies : List Str → DeletionPermit xp → DeletionPermit xp
  permit_set_management_policies p r = record r { spec = record r.spec { management_policies = p } }

  pub permit_get_write_connection_secret : DeletionPermit xp → Option Str
  permit_get_write_connection_secret r = none

  pub permit_set_write_connection_secret : Option Str → DeletionPermit xp → DeletionPermit xp
  permit_set_write_connection_secret ref r = r

  pub permit_set_conditions : List xp.Condition → DeletionPermit xp → DeletionPermit xp
  permit_set_conditions c r = record r {
    status = record r.status { conditions = xp.set_conditions c r.status.conditions };
  }

  instance abbrev pub account_managed : Managed xp (SnowflakeAccount xp)
  account_managed = record {
    get_management_policies = account_get_management_policies;
    set_management_policies = account_set_management_policies;
    get_write_connection_secret = account_get_write_connection_secret;
    set_write_connection_secret = account_set_write_connection_secret;
    set_conditions = account_set_conditions;
  }

  instance abbrev pub permit_managed : Managed xp (DeletionPermit xp)
  permit_managed = record {
    get_management_policies = permit_get_management_policies;
    set_management_policies = permit_set_management_policies;
    get_write_connection_secret = permit_get_write_connection_secret;
    set_write_connection_secret = permit_set_write_connection_secret;
    set_conditions = permit_set_conditions;
  }
