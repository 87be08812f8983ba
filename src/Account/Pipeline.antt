-- ===== src/Account/Pipeline.antt =====
-- internal/account/pipeline: the pipeline itself, pipeline.go, and the interface of a module.
pub mod Readiness
pub mod Order
use yukimi.Base.{
  str_eq, nat_beq, if◌then◌else◌, Str, text, str_beq, Bool, true, false, not, ◌&&◌, ◌||◌, List, [],
  ◌∷◌, reverse,
}
use yukimi.Effects.{Action, ◌>>◌, pure}
use yukimi.Apis.Crossplane.{Crossplane}
use yukimi.Account.ResourceData.{ResourceData, with_status}
use yukimi.Account.Outcome.{Outcome, is_done, is_drifted, account_module_name, all_done, ready}

-- `Module`, over the state of a run.
pub record Module (xp : Crossplane) (W : Type 0) : Type 0 where
  pub name : Str
  pub observe : ResourceData xp W → Outcome xp × ResourceData xp W
  pub apply : ResourceData xp W → Outcome xp × ResourceData xp W
  pub teardown : Action (ResourceData xp W) (Unit {0})

-- What `report` reads of an observation or a result.
pub record Report (xp : Crossplane) : Type 0 where
  pub outcomes : List (Outcome xp)
  pub ready_condition : xp.Condition

pub record Observation (xp : Crossplane) : Type 0 where
  pub outcomes : List (Outcome xp)
  pub generation_applied : Bool
  pub ready_latched : Bool

pub record ApplyResult (xp : Crossplane) : Type 0 where
  pub outcomes : List (Outcome xp)
  pub ready_latched : Bool

pub record ExternalObservation : Type 0 where
  pub resource_exists : Bool
  pub resource_up_to_date : Bool

module _ {xp : Crossplane} where
  exists_in : List (Outcome xp) → Bool
  exists_in [] = false
  exists_in (o ∷ os) =
      if str_beq o.owner account_module_name
      then is_done o.state || is_drifted o.state
      else exists_in os

  none_drifted : List (Outcome xp) → Bool
  none_drifted [] = true
  none_drifted (o ∷ os) = not (is_drifted o.state) && none_drifted os

  up_to_date : Observation xp → Bool
  unfolding none_drifted
  up_to_date o = o.generation_applied && none_drifted o.outcomes

  -- `Observation.ExternalObservation`
  unfoldable pub external_observation : Observation xp → ExternalObservation
  unfolding exists_in up_to_date str_beq text
  external_observation o = record {
    resource_exists = exists_in o.outcomes;
    resource_up_to_date = up_to_date o;
  }

  -- `Observation.Ready` and `Result.Ready`
  unfoldable pub observation_report : Observation xp → Report xp
  unfolding ready
  observation_report o = record {
    outcomes = o.outcomes;
    ready_condition = ready o.ready_latched false o.outcomes;
  }

  unfoldable pub result_report : ApplyResult xp → Report xp
  unfolding ready all_done
  result_report r = record {
    outcomes = r.outcomes;
    ready_condition = ready r.ready_latched (all_done r.outcomes) r.outcomes;
  }

abbrev pub named : {xp : Crossplane} → Str → Outcome xp → Outcome xp
named n o = record o { owner = n }

module _ {xp : Crossplane} {W : Type 0} where
  unfoldable pub observe_all :
      List (Module xp W) → ResourceData xp W → List (Outcome xp) × ResourceData xp W
  observe_all [] d = ([], d)
  observe_all (m ∷ ms) d =
      let (o, d') = m.observe d in let (os, d'') = observe_all ms d' in (named m.name o ∷ os, d'')

  -- `Pipeline.Observe`
  unfoldable pub pipeline_observe :
      List (Module xp W) → ResourceData xp W → Observation xp × ResourceData xp W
  unfolding observe_all
  pipeline_observe ms d =
      let (os, d') = observe_all ms d in
      (
        record {
          outcomes = os;
          generation_applied = nat_beq d.cr.status.observed_generation d.cr.generation;
          ready_latched = xp.is_ready d.cr.status.conditions;
        },
        d',
      )

  -- The loop of `Apply`: it stops behind the first outcome that aborts.
  unfoldable pub apply_all :
      List (Module xp W) → ResourceData xp W → List (Outcome xp) × ResourceData xp W
  apply_all [] d = ([], d)
  apply_all (m ∷ ms) d =
      let (o, d') = m.apply d in
      let rest = apply_all ms d' in
      if o.aborted then (named m.name o ∷ [], d') else (named m.name o ∷ rest.0, rest.1)

  mark_applied : ResourceData xp W → ResourceData xp W
  mark_applied d = with_status (λ s. record s { observed_generation = d.cr.generation }) d

  -- `Pipeline.Apply`
  unfoldable pub pipeline_apply :
      List (Module xp W) → ResourceData xp W → ApplyResult xp × ResourceData xp W
  unfolding apply_all mark_applied all_done
  pipeline_apply ms d =
      let (os, d') = apply_all ms d in
      (
        record { outcomes = os; ready_latched = xp.is_ready d.cr.status.conditions },
        if all_done os then mark_applied d' else d',
      )

  -- `Pipeline.Destroy`: the modules in reverse order, up to the first error.
  teardown_all : List (Module xp W) → Action (ResourceData xp W) (Unit {0})
  teardown_all [] = pure tt
  teardown_all (m ∷ ms) = do m.teardown; teardown_all ms

  unfoldable pub pipeline_destroy : List (Module xp W) → Action (ResourceData xp W) (Unit {0})
  unfolding teardown_all
  pipeline_destroy ms = teardown_all (reverse ms)
