-- ===== src/Apis/DeletionPermit.antt =====
-- apis/base/v1alpha1/deletionpermit_types.go.
use yukimi.Base.{Str, ℕ, Option, List}
use yukimi.Apis.Crossplane.{Crossplane}

pub record TargetRef : Type 0 where
  pub kind : Str
  pub name : Str

-- The API server admits a duration above 0 and of at most 8h.
pub record DeletionPermitSpec : Type 0 where
  pub target_ref : TargetRef
  pub duration : ℕ
  pub reason : Str
  pub management_policies : List Str

pub record DeletionPermitStatus (xp : Crossplane) : Type 0 where
  pub conditions : xp.Conditions
  pub valid_until : Option ℕ
  pub state : Str

pub record DeletionPermit (xp : Crossplane) : Type 0 where
  pub name : Str
  pub namespace : Str
  pub creation_timestamp : ℕ
  pub deletion_timestamp : Option ℕ
  pub spec : DeletionPermitSpec
  pub status : DeletionPermitStatus xp
