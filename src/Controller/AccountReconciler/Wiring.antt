-- ===== src/Controller/AccountReconciler/Wiring.antt =====
-- How Setup and Connect of internal/controller/snowflakeaccount/reconciler.go put the controller
-- together from the two configurations.
use yukimi.Base.{Str, ℕ, List, [], ◌∷◌}
use yukimi.Apis.Crossplane.{Crossplane}
use yukimi.Deletion.Kube.{Kube}
use yukimi.Account.Tenant.{resolve_name}
use yukimi.Account.Pipeline.{Module}
use yukimi.Account.Module.{account_module}
use yukimi.Account.Module.Existing.{Platform, ModuleConfig}
use yukimi.Config.Base.Settings.{BaseConfig}
use yukimi.Config.Backplane.{Backplane}
use yukimi.Controller.AccountReconciler.{External}

-- The arguments of `accountmodule.New`.
unfoldable pub module_config : BaseConfig → Backplane → ModuleConfig
module_config cfg backplane = record {
  org = cfg.snowflake.org;
  grace_period = cfg.snowflake.account_creation_grace_period;
  deletion_grace_period_days = cfg.deletion.grace_period_days;
  use_private_link = cfg.snowflake.use_private_link;
  backplane = backplane;
}

module _ {xp : Crossplane} {W : Type 0} (kube : Kube xp W) (p : Platform W)
    (sha256 : Str → List ℕ) where
  -- `pipeline.New`, of exactly one module
  new_pipeline : BaseConfig → Backplane → List (Module xp W)
  unfolding module_config
  new_pipeline cfg backplane = account_module p (module_config cfg backplane) ∷ []

  -- `connector.Connect`
  unfoldable pub connect_external : BaseConfig → Backplane → External xp W
  unfolding new_pipeline
  connect_external cfg backplane = record {
    kube = kube;
    logging = p.logging;
    modules = new_pipeline cfg backplane;
    protection = cfg.deletion.protection;
    resolve = resolve_name sha256;
  }
