-- ===== src/Account/Outcome.antt =====
-- internal/account/pipeline/module.go, and the methods of `Outcomes` of pipeline.go.
use yukimi.Errors.{Error}
use yukimi.Base.{
  if◌then◌else◌, Str, text, Bool, true, false, not, ◌&&◌, ◌||◌, Option, none, some, List, [], ◌∷◌,
  ◌++◌,
}
use yukimi.Apis.Crossplane.{Crossplane}

pub data State : Type 0 where
  state_done state_pending state_drifted state_failed : State

pub record Outcome (xp : Crossplane) : Type 0 where
  pub owner : Str
  pub state : State
  pub reason : Str
  pub error : Option Error
  pub aborted : Bool
  pub condition : Option xp.Condition
  pub events : List xp.Event

abbrev pub is_done : State → Bool
is_done state_done = true
is_done _ = false

abbrev pub is_drifted : State → Bool
is_drifted state_drifted = true
is_drifted _ = false

module _ {xp : Crossplane} where
  blank : State → Outcome xp
  blank s = record {
    owner = [];
    state = s;
    reason = [];
    error = none;
    aborted = false;
    condition = none;
    events = [];
  }

  unfoldable pub done : Outcome xp
  unfolding blank
  done = blank state_done

  unfoldable pub pending : Str → Outcome xp
  unfolding blank
  pending reason = record (blank state_pending) { reason = reason }

  unfoldable pub drifted : Outcome xp
  unfolding blank
  drifted = blank state_drifted

  unfoldable pub failed : Error → Outcome xp
  unfolding blank
  failed e = record (blank state_failed) { error = some e }

  -- `Outcome.Abort`
  unfoldable pub abort : Outcome xp → Outcome xp
  abort o = if not (is_done o.state) then record o { aborted = true } else o

  unfoldable pub with_condition : xp.Condition → Outcome xp → Outcome xp
  with_condition c o = record o { condition = some c }

  unfoldable pub with_event : xp.Event → Outcome xp → Outcome xp
  with_event e o = record o { events = o.events ++ e ∷ [] }

abbrev own_condition : {C : Type 0} → Option C → List C → List C
own_condition none cs = cs
own_condition (some c) cs = c ∷ cs

abbrev pub account_module_name : Str
account_module_name = text "account"

module _ {xp : Crossplane} where
  -- `Outcomes.Err`
  unfoldable pub outcomes_err : List (Outcome xp) → Option Error
  outcomes_err [] = none
  outcomes_err (o ∷ os) =
      let rest = outcomes_err os in elim o.state [ state_failed ↦ o.error | _ ↦ rest ]

  unfoldable pub all_states_done : List (Outcome xp) → Bool
  all_states_done [] = true
  all_states_done (o ∷ os) = is_done o.state && all_states_done os

  -- `Outcomes.AllDone`
  unfoldable pub all_done : List (Outcome xp) → Bool
  unfolding all_states_done
  all_done [] = false
  all_done (o ∷ os) = all_states_done (o ∷ os)

  -- `Outcomes.Conditions`
  unfoldable pub outcomes_conditions : List (Outcome xp) → List xp.Condition
  outcomes_conditions [] = []
  outcomes_conditions (o ∷ os) = own_condition o.condition (outcomes_conditions os)

  -- `Outcomes.Events`
  unfoldable pub outcomes_events : List (Outcome xp) → List xp.Event
  outcomes_events [] = []
  outcomes_events (o ∷ os) = o.events ++ outcomes_events os

  -- `Outcomes.PendingReason`
  unfoldable pub pending_reason : List (Outcome xp) → Str
  pending_reason [] = []
  pending_reason (o ∷ os) =
      let rest = pending_reason os in elim o.state [ state_pending ↦ o.reason | _ ↦ rest ]

  -- `ready`
  unfoldable pub ready : Bool → Bool → List (Outcome xp) → xp.Condition
  unfolding pending_reason
  ready latched satisfied os =
      if latched || satisfied then xp.available else xp.unavailable (pending_reason os)
