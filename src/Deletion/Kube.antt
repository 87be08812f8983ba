-- ===== src/Deletion/Kube.antt =====
-- What the controllers use of the Kubernetes client, over a world `W`.
use yukimi.Apis.DeletionPermit.{DeletionPermit}
use yukimi.Apis.SnowflakeAccount.{SnowflakeAccount}
use yukimi.Apis.Crossplane.{Crossplane}
use yukimi.Effects.{Action}
use yukimi.Base.{Str, Dict, List}

pub record Kube (xp : Crossplane) (W : Type 0) : Type 0 where
  -- `Get` of a namespace, and of it the labels
  pub get_namespace : Str → Action W (Dict Str Str)
  -- `List` of the DeletionPermits in a namespace
  pub list_permits : Str → Action W (List (DeletionPermit xp))
  -- `Status().Update` of a permit and of an account: the object as the server returns it
  pub update_permit_status : DeletionPermit xp → Action W (DeletionPermit xp)
  pub update_account_status : SnowflakeAccount xp → Action W (SnowflakeAccount xp)
  -- `event.Recorder.Event`
  pub record_event : SnowflakeAccount xp → xp.Event → W → W
