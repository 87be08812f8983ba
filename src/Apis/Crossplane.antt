-- ===== src/Apis/Crossplane.antt =====
-- What the program uses of crossplane-runtime: `ConditionedStatus`, the conditions `Available` and
-- `Unavailable`, and events.
use yukimi.Base.{Str, ◌≡◌, Bool, true, false, List, [], ◌∷◌}
use yukimi.Errors.{Error}

pub record Crossplane : Type 1 where
  pub Condition : Type 0
  pub Conditions : Type 0
  pub Event : Type 0
  -- `xpv1.Available()`
  pub available : Condition
  -- `xpv1.Unavailable().WithMessage(msg)`
  pub unavailable : Str → Condition
  -- `SetConditions(c...)`
  pub set_conditions : List Condition → Conditions → Conditions
  -- `GetCondition(xpv1.TypeReady).Status == corev1.ConditionTrue`
  pub is_ready : Conditions → Bool
  -- `event.Warning(reason, err)`
  pub warning : Str → Error → Event

-- The documented behaviour of `SetConditions` on a single Ready condition.
pub record IsCrossplane (xp : Crossplane) : Type 0 where
  pub is_ready-available :
      (s : xp.Conditions) → xp.is_ready (xp.set_conditions (xp.available ∷ []) s) ≡ true
  pub is_ready-unavailable :
      (msg : Str) (s : xp.Conditions)
      → xp.is_ready (xp.set_conditions (xp.unavailable msg ∷ []) s) ≡ false
