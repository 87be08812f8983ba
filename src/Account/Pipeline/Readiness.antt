-- ===== src/Account/Pipeline/Readiness.antt =====
-- What a pass says of the resource: the Ready condition, and whether the account exists.
use yukimi.Base.{
  str_eq, Str, str_beq, str_beq_iff, ◌≡◌, refl, ◌∙◌, Bool, true, false, ◌||◌, List, [], ◌∷◌, ◌++◌,
}
use yukimi.Apis.Crossplane.{Crossplane, IsCrossplane}
use yukimi.Account.ResourceData.{ResourceData}
use yukimi.Account.Outcome.{
  Outcome, is_done, is_drifted, account_module_name, all_done, pending_reason, ready,
}
use yukimi.Account.Pipeline.{
  Module, exists_in, external_observation, observation_report, result_report, observe_all,
  pipeline_observe, apply_all, pipeline_apply,
}

or_false : (b : Bool) → (b || false) ≡ b
or_false true = refl
or_false false = refl

-- No module of the list has the name.
abbrev pub NotNamed : {xp : Crossplane} {W : Type 0} → Str → List (Module xp W) → Type 0
NotNamed n [] = Unit {0}
NotNamed n (m ∷ ms) = (str_beq m.name n ≡ false) × NotNamed n ms

module _ {xp : Crossplane} (law : IsCrossplane xp) where
  is_ready-ready :
      (latched satisfied : Bool) (os : List (Outcome xp)) (s : xp.Conditions)
      → xp.is_ready (xp.set_conditions (ready latched satisfied os ∷ []) s) ≡ latched || satisfied
  unfolding ready
  is_ready-ready true satisfied os s = law.is_ready-available s
  is_ready-ready false true os s = law.is_ready-available s
  is_ready-ready false false os s = law.is_ready-unavailable (pending_reason os) s

module _ {xp : Crossplane} {W : Type 0} (law : IsCrossplane xp) where
  -- Over conditions with the documented behaviour, Ready is a latch. The condition that an
  -- observation reports makes the resource ready exactly when it was ready before; the one that a
  -- pass of `Apply` reports, exactly when it was ready before or all modules of the pass were
  -- done.
  pub is_ready-report :
      (ms : List (Module xp W)) (d : ResourceData xp W) (s : xp.Conditions)
      → let seen = observation_report (pipeline_observe ms d).0 in
        let applied = result_report (pipeline_apply ms d).0 in
        (xp.is_ready (xp.set_conditions (seen.ready_condition ∷ []) s)
          ≡ xp.is_ready d.cr.status.conditions)
        × (xp.is_ready (xp.set_conditions (applied.ready_condition ∷ []) s)
            ≡ xp.is_ready d.cr.status.conditions || all_done applied.outcomes)
  unfolding observation_report result_report pipeline_observe pipeline_apply
  is_ready-report ms d s = (
    is_ready-ready law _ false (observe_all ms d).0 s
        ∙ or_false (xp.is_ready d.cr.status.conditions),
    is_ready-ready law (xp.is_ready d.cr.status.conditions) (all_done (apply_all ms d).0)
        (apply_all ms d).0 s,
  )

module _ {xp : Crossplane} {W : Type 0} where
  exists_in-observe_all :
      (before after : List (Module xp W)) (m : Module xp W) (d : ResourceData xp W)
      → NotNamed account_module_name before
      → str_beq m.name account_module_name ≡ true
      → let o = (m.observe (observe_all before d).1).0 in
        exists_in (observe_all (before ++ m ∷ after) d).0 ≡ is_done o.state || is_drifted o.state
  unfolding exists_in observe_all
  exists_in-observe_all [] after m d h k = rw k refl
  exists_in-observe_all (b ∷ before) after m d h k =
      rw h.0 (exists_in-observe_all before after m (b.observe d).1 h.1 k)

  -- The account exists for Crossplane exactly when the first module named "account" reports it
  -- done or drifted, whatever the modules before and behind it report.
  pub exists-observe :
      (before after : List (Module xp W)) (m : Module xp W) (d : ResourceData xp W)
      → NotNamed account_module_name before
      → m.name ≡ account_module_name
      → let o = (m.observe (observe_all before d).1).0 in
        (external_observation (pipeline_observe (before ++ m ∷ after) d).0).resource_exists
        ≡ is_done o.state || is_drifted o.state
  unfolding external_observation pipeline_observe
  exists-observe before after m d h k =
      exists_in-observe_all before after m d h ((str_beq_iff m.name account_module_name).1 k)
