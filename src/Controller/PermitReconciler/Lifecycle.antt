-- ===== src/Controller/PermitReconciler/Lifecycle.antt =====
-- internal/controller/deletionpermit/reconciler.go and MarkConsumed: the states of a permit.
use yukimi.Controller.PermitReconciler.{state_expired, is_frozen, recompute, permit_observe}
use yukimi.Deletion.Permits.{state_active, state_consumed, authorizes, consumed}
use yukimi.Apis.DeletionPermit.{DeletionPermit}
use yukimi.Apis.Crossplane.{Crossplane}
use yukimi.Base.{
  ltb, leb, Bool-cases, Option-cases, Str, text, str_beq, str_beq_iff, ℕ, ◌+◌, ◌≡◌, refl, inl, inr,
  true, false, ◌||◌, none, some, List, [], ◌∷◌, arith,
}

-- What happens to the status of a permit: an observation at a time, or its use.
pub data PermitEvent : Type 0 where
  observed : ℕ → PermitEvent
  used : PermitEvent

inactive :
    (s : Str)
    → (str_beq s state_expired || str_beq s state_consumed) ≡ true
    → str_beq s state_active ≡ false
unfolding str_beq text
inactive s h = elim (Bool-cases (str_beq s state_expired)) [
  | inl e ↦ rw ((str_beq_iff s state_expired).0 e) refl
  | inr e ↦ rw ((str_beq_iff s state_consumed).0 (ground (arith, e, h))) refl
]

module _ {xp : Crossplane} where
  unfoldable pub permit_step : PermitEvent → DeletionPermit xp → DeletionPermit xp
  permit_step (observed now) cr = (permit_observe now cr).1
  permit_step used cr = consumed cr

  unfoldable pub permit_run : List PermitEvent → DeletionPermit xp → DeletionPermit xp
  unfolding permit_step
  permit_run [] cr = cr
  permit_run (e ∷ es) cr = permit_run es (permit_step e cr)

  frozen_observe :
      (now : ℕ) (cr : DeletionPermit xp)
      → is_frozen cr ≡ true
      → (permit_observe now cr).1.status.state ≡ cr.status.state
  unfolding permit_observe
  frozen_observe now cr h = elim (Option-cases cr.deletion_timestamp) [
    | inl e ↦ rw (e, h) refl
    | inr (t, e) ↦ rw e refl
  ]

  pub frozen_step :
      (e : PermitEvent) (cr : DeletionPermit xp)
      → is_frozen cr ≡ true
      → is_frozen (permit_step e cr) ≡ true
  unfolding permit_step is_frozen consumed str_beq text
  frozen_step (observed now) cr h = rw (frozen_observe now cr h) h
  frozen_step used cr h = refl

  frozen_run :
      (es : List PermitEvent) (cr : DeletionPermit xp)
      → is_frozen cr ≡ true
      → is_frozen (permit_run es cr) ≡ true
  unfolding permit_run
  frozen_run [] cr h = h
  frozen_run (e ∷ es) cr h = frozen_run es (permit_step e cr) (frozen_step e cr h)

  frozen_inactive :
      (kind name : Str) (cr : DeletionPermit xp)
      → is_frozen cr ≡ true
      → authorizes kind name cr ≡ false
  unfolding authorizes is_frozen
  frozen_inactive kind name cr h = rw (inactive cr.status.state h) refl

  -- A permit that has expired or was consumed authorizes no deletion again, whatever observations
  -- and uses follow.
  pub frozen_run-authorizes :
      (kind name : Str) (es : List PermitEvent) (cr : DeletionPermit xp)
      → is_frozen cr ≡ true
      → authorizes kind name (permit_run es cr) ≡ false
  frozen_run-authorizes kind name es cr h =
      frozen_inactive kind name (permit_run es cr) (frozen_run es cr h)

  -- A permit that is not being deleted and was active or new: what one observation leaves.
  pub permit_observe_live :
      (now : ℕ) (cr : DeletionPermit xp)
      → cr.deletion_timestamp ≡ none
      → is_frozen cr ≡ false
      → let (o, cr') = permit_observe now cr in
        (o.resource_exists ≡ true)
        × (cr'.status.valid_until ≡ some (cr.creation_timestamp + cr.spec.duration))
        × (is_frozen cr' ≡ ltb (cr.creation_timestamp + cr.spec.duration) now)
        × (str_beq cr'.status.state state_active
            ≡ leb now (cr.creation_timestamp + cr.spec.duration))
  unfolding permit_observe is_frozen recompute str_beq text
  permit_observe_live now cr h k =
      elim (Bool-cases (ltb (cr.creation_timestamp + cr.spec.duration) now)) [
        | inl late ↦ rw (h, k, late) (refl, refl, refl, ground arith)
        | inr early ↦ rw (h, k, early) (refl, refl, refl, ground arith)
      ]
