-- ===== src/Controller/PermitReconciler.antt =====
-- internal/controller/deletionpermit: the state machine that `Observe` runs on a DeletionPermit.
-- The time is a parameter.
pub mod Lifecycle
pub mod Expiry
use yukimi.Errors.{Result, ok}
use yukimi.Deletion.Permits.{state_active, state_consumed}
use yukimi.Account.Pipeline.{ExternalObservation}
use yukimi.Apis.DeletionPermit.{DeletionPermit}
use yukimi.Apis.Crossplane.{Crossplane}
use yukimi.Base.{
  ltb, if◌then◌else◌, Str, text, str_beq, ℕ, ◌+◌, Bool, true, false, ◌||◌, none, some, [], ◌∷◌,
}

abbrev pub state_expired : Str
state_expired = text "Expired"

state_at : ℕ → ℕ → Str
state_at now valid_until = if ltb valid_until now then state_expired else state_active

abbrev permit_absent : ExternalObservation
permit_absent = record { resource_exists = false; resource_up_to_date = false }

abbrev permit_current : ExternalObservation
permit_current = record { resource_exists = true; resource_up_to_date = true }

module _ {xp : Crossplane} where
  unfoldable pub is_frozen : DeletionPermit xp → Bool
  is_frozen cr = str_beq cr.status.state state_expired || str_beq cr.status.state state_consumed

  abbrev pub expiry : DeletionPermit xp → ℕ
  expiry cr = cr.creation_timestamp + cr.spec.duration

  unfoldable pub recompute : ℕ → DeletionPermit xp → DeletionPermit xp
  unfolding state_at
  recompute now cr = record cr {
    status = record cr.status { valid_until = some (expiry cr); state = state_at now (expiry cr) };
  }

  set_available : DeletionPermit xp → DeletionPermit xp
  set_available cr = record cr {
    status = record cr.status {
      conditions = xp.set_conditions (xp.available ∷ []) cr.status.conditions;
    };
  }

  observe_live : ℕ → DeletionPermit xp → DeletionPermit xp
  unfolding is_frozen recompute set_available
  observe_live now cr = set_available (if is_frozen cr then cr else recompute now cr)

  -- `external.Observe`
  unfoldable pub permit_observe : ℕ → DeletionPermit xp → ExternalObservation × DeletionPermit xp
  unfolding observe_live
  permit_observe now cr = elim cr.deletion_timestamp [
    | some t ↦ (permit_absent, cr)
    | none ↦ (permit_current, observe_live now cr)
  ]

-- `connector`, and `external`, which manages nothing outside
pub data PermitExternal : Type 0 where
  permit_external : PermitExternal

module _ {xp : Crossplane} where
  -- `connector.Connect`
  pub permit_connect : DeletionPermit xp → Result PermitExternal
  permit_connect cr = ok permit_external

  -- `external.Create`, `external.Update` and `external.Delete`: nothing changes, nothing fails.
  pub permit_create : DeletionPermit xp → Result (Unit {0}) × DeletionPermit xp
  permit_create cr = (ok tt, cr)

  pub permit_update : DeletionPermit xp → Result (Unit {0}) × DeletionPermit xp
  permit_update cr = (ok tt, cr)

  pub permit_delete : DeletionPermit xp → Result (Unit {0}) × DeletionPermit xp
  permit_delete cr = (ok tt, cr)

-- `external.Disconnect`
pub permit_disconnect : PermitExternal → Result (Unit {0})
permit_disconnect permit_external = ok tt
