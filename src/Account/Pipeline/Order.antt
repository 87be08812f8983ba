-- ===== src/Account/Pipeline/Order.antt =====
-- Which modules a pass calls, and in which order.
use mathlib.Core.List.{reverse-append}
use mathlib.Core.Path.{fun_ext}
use yukimi.Base.{
  Str, ◌≡◌, refl, sym, Bool, true, false, not, ◌&&◌, List, [], ◌∷◌, ◌++◌, map, reverse, arith,
}
use yukimi.Effects.{Action, proceed}
use yukimi.Apis.Crossplane.{Crossplane}
use yukimi.Account.ResourceData.{ResourceData}
use yukimi.Account.Outcome.{Outcome, is_done, all_states_done, all_done}
use yukimi.Account.Pipeline.{Module, apply_all, pipeline_apply, teardown_all, pipeline_destroy}

-- No outcome of the modules' `Apply` is both aborted and Done: what `Outcome.Abort` sees to.
abbrev pub AbortsUndone : {xp : Crossplane} {W : Type 0} → List (Module xp W) → Type 0
AbortsUndone [] = Unit {0}
AbortsUndone {xp} {W} (m ∷ ms) =
    ((d : ResourceData xp W) → (m.apply d).0.aborted ≡ true → is_done (m.apply d).0.state ≡ false)
    × AbortsUndone ms

abbrev pub owners : {xp : Crossplane} → List (Outcome xp) → List Str
owners = map (λ o. o.owner)

unfoldable pub none_aborted : {xp : Crossplane} → List (Outcome xp) → Bool
none_aborted [] = true
none_aborted (o ∷ os) = not o.aborted && none_aborted os

all_done_states :
    {xp : Crossplane} (os : List (Outcome xp)) → all_done os ≡ true → all_states_done os ≡ true
unfolding all_done
all_done_states [] h = cc
all_done_states (o ∷ os) h = h

proceed_assoc :
    {S : Type 0} (m k l : Action S (Unit {0})) (s : S)
    → proceed (proceed (m s) (λ _. k)) (λ _. l) ≡ proceed (m s) (λ _ t. proceed (k t) (λ _. l))
proceed_assoc m k l s = ground arith

module _ {xp : Crossplane} {W : Type 0} where
  abbrev pub names : List (Module xp W) → List Str
  names = map (λ m. m.name)

  apply_all_complete :
      (ms : List (Module xp W)) (d : ResourceData xp W)
      → AbortsUndone ms
      → all_states_done (apply_all ms d).0 ≡ true
      → owners (apply_all ms d).0 ≡ names ms
  unfolding apply_all all_states_done
  apply_all_complete [] d kept h = refl
  apply_all_complete (m ∷ ms) d kept h =
      ground (arith, kept.0 d, apply_all_complete ms (m.apply d).1 kept.1)

  -- Where no Done outcome aborts, a pass of `Apply` whose outcomes are all Done has called every
  -- module of the pipeline, in order, and has recorded the resource's generation as observed.
  pub complete-pipeline_apply :
      (ms : List (Module xp W)) (d : ResourceData xp W)
      → AbortsUndone ms
      → all_done (pipeline_apply ms d).0.outcomes ≡ true
      → (owners (pipeline_apply ms d).0.outcomes ≡ names ms)
        × ((pipeline_apply ms d).1.cr.status.observed_generation
            ≡ (pipeline_apply ms d).1.cr.generation)
  unfolding pipeline_apply
  complete-pipeline_apply ms d kept h =
      (apply_all_complete ms d kept (all_done_states (apply_all ms d).0 h), rw h refl)

  apply_all_stops :
      (before after : List (Module xp W)) (m : Module xp W) (d : ResourceData xp W)
      → none_aborted (apply_all before d).0 ≡ true
      → (m.apply (apply_all before d).1).0.aborted ≡ true
      → apply_all (before ++ m ∷ after) d ≡ apply_all (before ++ m ∷ []) d
  unfolding apply_all none_aborted
  apply_all_stops [] after m d h k = ground arith
  apply_all_stops (b ∷ before) after m d h k =
      ground (arith, apply_all_stops before after m (b.apply d).1)

  -- Once a module's outcome aborts, no module behind it takes part in the pass: the result, the
  -- status and the world are those of the pipeline that ends with that module.
  pub pipeline_apply_stops :
      (before after : List (Module xp W)) (m : Module xp W) (d : ResourceData xp W)
      → none_aborted (apply_all before d).0 ≡ true
      → (m.apply (apply_all before d).1).0.aborted ≡ true
      → pipeline_apply (before ++ m ∷ after) d ≡ pipeline_apply (before ++ m ∷ []) d
  unfolding pipeline_apply
  pipeline_apply_stops before after m d h k = rw (apply_all_stops before after m d h k) refl

  teardown_all-append :
      (xs ys : List (Module xp W)) (d : ResourceData xp W)
      → teardown_all (xs ++ ys) d ≡ proceed (teardown_all xs d) (λ _. teardown_all ys)
  unfolding teardown_all
  teardown_all-append [] ys d = refl
  teardown_all-append (x ∷ xs) ys d =
      rw (fun_ext (teardown_all-append xs ys))
        (sym (proceed_assoc x.teardown (teardown_all xs) (teardown_all ys) d))

  -- `Destroy` of two groups of modules tears down the later group first, and calls none of the
  -- earlier group if that fails.
  pub pipeline_destroy-append :
      (xs ys : List (Module xp W)) (d : ResourceData xp W)
      → pipeline_destroy (xs ++ ys) d ≡ proceed (pipeline_destroy ys d) (λ _. pipeline_destroy xs)
  unfolding pipeline_destroy
  pipeline_destroy-append xs ys d =
      rw reverse-append (teardown_all-append (reverse ys) (reverse xs) d)
