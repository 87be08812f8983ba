-- ===== src/Controller/AccountReconciler.antt =====
-- internal/controller/snowflakeaccount/reconciler.go: the methods of `external`, over the pipeline
-- and the deletion permits. An error that a method returns is a Result. `W` is the world.
pub mod Gate
pub mod Vanish
pub mod Wiring
pub mod Default
use yukimi.Deletion.Kube.{Kube}
use yukimi.Deletion.Permits.{find_active_permit, mark_consumed}
use yukimi.Account.Pipeline.{
  Module, Report, ExternalObservation, external_observation, observation_report, result_report,
  pipeline_observe, pipeline_apply, pipeline_destroy,
}
use yukimi.Account.Outcome.{outcomes_err, outcomes_conditions, outcomes_events}
use yukimi.Account.ResourceData.{ResourceData, with_status, new_resource_data}
use yukimi.Logger.{Operation, op_observe, op_update, op_delete, Logger, Logging, handle}
use yukimi.Apis.SnowflakeAccount.{SnowflakeAccount}
use yukimi.Apis.DeletionPermit.{DeletionPermit}
use yukimi.Apis.Crossplane.{Crossplane}
use yukimi.Effects.{Action, on_error}
use yukimi.Base.{
  if◌then◌else◌, Str, text, is_empty, Dict, Bool, true, false, not, Option, none, some, List, [],
  ◌∷◌, ◌++◌,
}
use yukimi.Errors.{Error, Result, ok, err, wrap, new_user_error, message}

-- The fields of `external`. Of the pool, the modules have it.
pub record External (xp : Crossplane) (W : Type 0) : Type 0 where
  pub kube : Kube xp W
  pub logging : Logging W
  pub modules : List (Module xp W)
  -- `cfg.Deletion.Protection`
  pub protection : Bool
  -- `pipeline.ResolveName`
  pub resolve : Str → Str → Str

abbrev pub account_kind : Str
account_kind = text "SnowflakeAccount"

pub blocked_error : Error
blocked_error =
    new_user_error (text "deletion blocked: no active DeletionPermit authorizes this account")

abbrev pub log_of : {xp : Crossplane} → SnowflakeAccount xp → Operation → Logger
log_of cr op = record { namespace = cr.namespace; kind = account_kind; name = cr.name; op = op }

-- `ExternalObservation{}` and the observation of an account that is being deleted
abbrev pub deleting : {xp : Crossplane} → SnowflakeAccount xp → ExternalObservation
deleting cr = record {
  resource_exists = not (is_empty cr.status.account_locator);
  resource_up_to_date = true;
}

-- `cr.SetConditions(xpv1.Unavailable().WithMessage(blockedErr.Error()))`
abbrev pub mark_blocked : {xp : Crossplane} → SnowflakeAccount xp → SnowflakeAccount xp
mark_blocked {xp} cr = record cr {
  status = record cr.status {
    conditions =
        xp.set_conditions (xp.unavailable (message blocked_error) ∷ []) cr.status.conditions;
  };
}

as_result : {A : Type 0} → A → Option Error → Result A
as_result a none = ok a
as_result a (some e) = err e

first_of : Option Error → Option Error → Option Error
first_of none later = later
first_of (some e) later = some e

module _ {xp : Crossplane} {W : Type 0} where
  -- The CR and the world that a method leaves behind.
  abbrev pub left : ResourceData xp W → SnowflakeAccount xp × W
  left d = (d.cr, d.world)

  module _ (e : External xp W) where
    -- `log.Handle`
    unfoldable pub handled :
        {A : Type 0}
        → A
        → Logger
        → Option Error
        → SnowflakeAccount xp × W
        → Result A × SnowflakeAccount xp × W
    unfolding as_result
    handled a log problem (cr, w) =
        let (problem', w') = handle e.logging log problem w in (as_result a problem', cr, w')

    -- `namespaceLabels`
    unfoldable pub namespace_labels : Str → Action W (Dict Str Str)
    namespace_labels namespace =
        on_error (wrap (text "failed to get namespace " ++ namespace ++ text ": "))
          (e.kube.get_namespace namespace)

    record_events : SnowflakeAccount xp → List xp.Event → W → W
    record_events cr [] w = w
    record_events cr (ev ∷ evs) w = record_events cr evs (e.kube.record_event cr ev w)

    abbrev set_status_conditions : List xp.Condition → ResourceData xp W → ResourceData xp W
    set_status_conditions cs d =
        with_status (λ s. record s { conditions = xp.set_conditions cs s.conditions }) d

    -- `external.report`
    unfoldable pub report : Report xp → ResourceData xp W → ResourceData xp W
    unfolding record_events outcomes_events outcomes_conditions
    report r d = set_status_conditions (r.ready_condition ∷ []) (
        set_status_conditions (outcomes_conditions r.outcomes)
          (record d { world = record_events d.cr (outcomes_events r.outcomes) d.world }))

    observe_with :
        SnowflakeAccount xp
        → Logger
        → Result (Dict Str Str) × W
        → Result ExternalObservation × SnowflakeAccount xp × W
    unfolding handled pipeline_observe report observation_report external_observation outcomes_err
    observe_with cr log (err problem, w) =
        handled (record { resource_exists = false; resource_up_to_date = false }) log (some problem)
          (cr, w)
    observe_with cr log (ok labels, w) =
        let (obs, d) = pipeline_observe e.modules (new_resource_data e.resolve cr labels log w) in
        handled (external_observation obs) log (outcomes_err obs.outcomes)
          (left (report (observation_report obs) d))

    -- `external.Observe`
    unfoldable pub account_reconciler_observe :
        SnowflakeAccount xp → W → Result ExternalObservation × SnowflakeAccount xp × W
    unfolding observe_with namespace_labels
    account_reconciler_observe cr w = elim cr.deletion_timestamp [
      | some t ↦ (ok (deleting cr), cr, w)
      | none ↦ observe_with cr (log_of cr op_observe) (namespace_labels cr.namespace w)
    ]

    -- The write of the status, and the first of the two errors.
    persist :
        Logger
        → Option Error
        → Result (SnowflakeAccount xp) × W
        → SnowflakeAccount xp
        → Result (Unit {0}) × SnowflakeAccount xp × W
    unfolding as_result
    persist log first (ok cr', w) cr = (as_result tt first, cr', w)
    persist log (some problem) (err later, w) cr = (err problem, cr, w)
    persist log none (err later, w) cr =
        let (problem, w') = handle e.logging log (some later) w in (as_result tt problem, cr, w')

    apply_with :
        SnowflakeAccount xp
        → Logger
        → Result (Dict Str Str) × W
        → Result (Unit {0}) × SnowflakeAccount xp × W
    unfolding handled pipeline_apply report result_report outcomes_err persist
    apply_with cr log (err problem, w) = handled tt log (some problem) (cr, w)
    apply_with cr log (ok labels, w) =
        let (res, d) = pipeline_apply e.modules (new_resource_data e.resolve cr labels log w) in
        let d' = report (result_report res) d in
        let (first, w') = handle e.logging log (outcomes_err res.outcomes) d'.world in
        persist log first (e.kube.update_account_status d'.cr w') d'.cr

    -- `external.apply`, which is `Create` and `Update`
    unfoldable pub account_reconciler_apply :
        SnowflakeAccount xp → W → Result (Unit {0}) × SnowflakeAccount xp × W
    unfolding apply_with namespace_labels
    account_reconciler_apply cr w =
        apply_with cr (log_of cr op_update) (namespace_labels cr.namespace w)

    unfoldable pub consume :
        Option (DeletionPermit xp)
        → SnowflakeAccount xp × W
        → Result (Unit {0}) × SnowflakeAccount xp × W
    unfolding mark_consumed
    consume none (cr, w) = (ok tt, cr, w)
    consume (some permit) (cr, w) = let (r, w') = mark_consumed e.kube permit w in (r, cr, w')

    unfoldable pub after_destroy :
        Logger
        → Option (DeletionPermit xp)
        → Result (Unit {0}) × ResourceData xp W
        → Result (Unit {0}) × SnowflakeAccount xp × W
    unfolding handled consume
    after_destroy log permit (err problem, d) = handled tt log (some problem) (left d)
    after_destroy log permit (ok u, d) = consume permit (left d)

    unfoldable pub destroy_with :
        SnowflakeAccount xp
        → Logger
        → Option (DeletionPermit xp)
        → Result (Dict Str Str) × W
        → Result (Unit {0}) × SnowflakeAccount xp × W
    unfolding handled after_destroy pipeline_destroy
    destroy_with cr log permit (err problem, w) = handled tt log (some problem) (cr, w)
    destroy_with cr log permit (ok labels, w) =
        after_destroy log permit
          (pipeline_destroy e.modules (new_resource_data e.resolve cr labels log w))

    -- Phase 3 of `external.Delete`.
    unfoldable pub delete_destroy :
        SnowflakeAccount xp
        → Option (DeletionPermit xp)
        → W
        → Result (Unit {0}) × SnowflakeAccount xp × W
    unfolding destroy_with namespace_labels
    delete_destroy cr permit w =
        destroy_with cr (log_of cr op_delete) permit (namespace_labels cr.namespace w)

    abbrev pub blocked_world : SnowflakeAccount xp → W → W
    blocked_world cr w =
        e.kube.record_event cr (xp.warning (text "DeletionBlocked") blocked_error) w

    -- No permit: a warning on the object, and an error.
    unfoldable pub delete_blocked :
        SnowflakeAccount xp → W → Result (Unit {0}) × SnowflakeAccount xp × W
    unfolding handled
    delete_blocked cr w =
        handled tt (log_of cr op_delete) (some blocked_error) (mark_blocked cr, blocked_world cr w)

    -- Phase 2 of `external.Delete`.
    unfoldable pub delete_gated :
        SnowflakeAccount xp
        → Result (Option (DeletionPermit xp)) × W
        → Result (Unit {0}) × SnowflakeAccount xp × W
    unfolding delete_destroy delete_blocked handled
    delete_gated cr (err problem, w) = handled tt (log_of cr op_delete) (some problem) (cr, w)
    delete_gated cr (ok none, w) = delete_blocked cr w
    delete_gated cr (ok (some permit), w) = delete_destroy cr (some permit) w

    -- `external.Delete`
    unfoldable pub account_reconciler_delete :
        SnowflakeAccount xp → W → Result (Unit {0}) × SnowflakeAccount xp × W
    unfolding delete_gated delete_destroy find_active_permit
    account_reconciler_delete cr w =
        if e.protection
        then delete_gated cr (find_active_permit e.kube cr.namespace account_kind cr.name w)
        else delete_destroy cr none w
