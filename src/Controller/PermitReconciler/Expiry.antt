-- ===== src/Controller/PermitReconciler/Expiry.antt =====
-- The permits that the API server admits, in the hands of the controllers that write their status.
use yukimi.Apis.Admission.{max_duration, is_admitted_permit_spec, is_admitted_state}
use yukimi.Controller.PermitReconciler.Lifecycle.{
  PermitEvent, observed, used, permit_step, permit_run, frozen_step, frozen_run-authorizes,
  permit_observe_live,
}
use yukimi.Controller.PermitReconciler.{is_frozen, expiry, recompute, permit_observe}
use yukimi.Deletion.Permits.{authorizes, consumed}
use yukimi.Apis.DeletionPermit.{DeletionPermit}
use yukimi.Apis.Crossplane.{Crossplane}
use yukimi.Base.{
  Bool-cases, Str, text, str_beq, ℕ, ◌+◌, ◌≤◌, ◌<◌, ◌≡◌, refl, ap, ◌∙◌, inl, inr, true, false, none,
  List, [], ◌∷◌, ◌++◌, arith,
}

module _ {xp : Crossplane} where
  -- What no observation and no use changes.
  record SameRequest (a b : DeletionPermit xp) : Type 0 where
    spec : b.spec ≡ a.spec
    created : b.creation_timestamp ≡ a.creation_timestamp
    deleted : b.deletion_timestamp ≡ a.deletion_timestamp

  step-SameRequest : (e : PermitEvent) (cr : DeletionPermit xp) → SameRequest cr (permit_step e cr)
  unfolding permit_step permit_observe is_frozen recompute consumed
  step-SameRequest (observed now) cr = record {
    spec = ground arith;
    created = ground arith;
    deleted = ground arith;
  }
  step-SameRequest used cr = record { spec = refl; created = refl; deleted = refl }

  run-SameRequest :
      (es : List PermitEvent) (cr : DeletionPermit xp) → SameRequest cr (permit_run es cr)
  unfolding permit_run
  run-SameRequest [] cr = record { spec = refl; created = refl; deleted = refl }
  run-SameRequest (e ∷ es) cr =
      let first = step-SameRequest e cr in
      let later = run-SameRequest es (permit_step e cr) in
      record {
        spec = later.spec ∙ first.spec;
        created = later.created ∙ first.created;
        deleted = later.deleted ∙ first.deleted;
      }

  run-append :
      (es fs : List PermitEvent) (cr : DeletionPermit xp)
      → permit_run (es ++ fs) cr ≡ permit_run fs (permit_run es cr)
  unfolding permit_run
  run-append [] fs cr = refl
  run-append (e ∷ es) fs cr = run-append es fs (permit_step e cr)

  admitted_duration :
      (cr : DeletionPermit xp)
      → is_admitted_permit_spec cr.spec ≡ true
      → cr.spec.duration ≤ max_duration
  unfolding is_admitted_permit_spec
  admitted_duration cr h = ground arith

  admitted_expiry :
      (cr later : DeletionPermit xp) (now : ℕ)
      → is_admitted_permit_spec cr.spec ≡ true
      → SameRequest cr later
      → cr.creation_timestamp + max_duration < now
      → expiry later < now
  admitted_expiry cr later now h same late =
      omega (arith, same.created, ap (λ s. s.duration) same.spec, admitted_duration cr h)

  late_observe :
      (now : ℕ) (cr : DeletionPermit xp)
      → cr.deletion_timestamp ≡ none
      → expiry cr < now
      → is_frozen (permit_step (observed now) cr) ≡ true
  unfolding permit_step
  late_observe now cr h late = elim (Bool-cases (is_frozen cr)) [
    | inl frozen ↦ frozen_step (observed now) cr frozen
    | inr live ↦ (permit_observe_live now cr h live).2 ∙ ground arith
  ]

  -- After an observation of an admitted permit that is not being deleted, more than eight hours
  -- after its creation, the permit authorizes nothing: whatever observations and uses came before
  -- and whatever follow.
  pub permit_run_expires :
      (kind name : Str) (before after : List PermitEvent) (now : ℕ) (cr : DeletionPermit xp)
      → is_admitted_permit_spec cr.spec ≡ true
      → cr.deletion_timestamp ≡ none
      → cr.creation_timestamp + max_duration < now
      → authorizes kind name (permit_run (before ++ observed now ∷ after) cr) ≡ false
  unfolding permit_run
  permit_run_expires kind name before after now cr admitted h late =
      let kept = run-SameRequest before cr in
      let reached = permit_run before cr in
      rw (run-append before (observed now ∷ after) cr) (
        frozen_run-authorizes kind name after (permit_step (observed now) reached) (
          late_observe now reached (kept.deleted ∙ h)
            (admitted_expiry cr reached now admitted kept late)))

  step-is_admitted_state :
      (e : PermitEvent) (cr : DeletionPermit xp)
      → is_admitted_state cr.status.state ≡ true
      → is_admitted_state (permit_step e cr).status.state ≡ true
  unfolding permit_step permit_observe is_frozen recompute consumed is_admitted_state text str_beq
  step-is_admitted_state (observed now) cr h = ground arith
  step-is_admitted_state used cr h = refl

  -- Every status that the controllers write over a permit's life has a state that the CRD's schema
  -- allows, so the API server refuses none of these writes for its state.
  pub permit_run-is_admitted_state :
      (es : List PermitEvent) (cr : DeletionPermit xp)
      → is_admitted_state cr.status.state ≡ true
      → is_admitted_state (permit_run es cr).status.state ≡ true
  unfolding permit_run
  permit_run-is_admitted_state [] cr h = h
  permit_run-is_admitted_state (e ∷ es) cr h =
      permit_run-is_admitted_state es (permit_step e cr) (step-is_admitted_state e cr h)
