-- ===== src/Controller/Options.antt =====
-- How the Setup functions of internal/controller build a reconciler of crossplane-runtime: the
-- options in their order. What an option holds is the library's.
use yukimi.Base.{if◌then◌else◌, Bool, List, [], ◌∷◌, ◌++◌}

pub data ReconcilerOption : Type 0 where
  external_connector : ReconcilerOption
  with_logger : ReconcilerOption
  poll_interval : ReconcilerOption
  recorder : ReconcilerOption
  management_policies : ReconcilerOption
  change_logger : ReconcilerOption
  metric_recorder : ReconcilerOption

-- `controller.Options`, as far as the Setup functions ask it.
pub record Options : Type 0 where
  pub beta_management_policies : Bool
  pub alpha_change_logs : Bool
  pub metrics : Bool

append_if : Bool → ReconcilerOption → List ReconcilerOption → List ReconcilerOption
append_if test o opts = if test then opts ++ o ∷ [] else opts

abbrev base_options : List ReconcilerOption
base_options = external_connector ∷ with_logger ∷ poll_interval ∷ recorder ∷ []

-- `Setup` of internal/controller/deletionpermit
pub permit_options : Options → List ReconcilerOption
unfolding append_if
permit_options o = append_if o.metrics metric_recorder (
    append_if o.alpha_change_logs change_logger
      (append_if o.beta_management_policies management_policies base_options))

-- `Setup` of internal/controller/snowflakeaccount
pub account_options : Options → List ReconcilerOption
unfolding append_if
account_options o = append_if o.metrics metric_recorder (
    append_if o.alpha_change_logs change_logger
      (append_if o.beta_management_policies management_policies base_options))
