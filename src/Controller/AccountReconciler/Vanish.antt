-- ===== src/Controller/AccountReconciler/Vanish.antt =====
-- internal/controller/snowflakeaccount/reconciler.go: what an observation says while an account is deleted.
use yukimi.Deletion.Permits.{find_active_permit}
use yukimi.Effects.{proceed, pure}
use yukimi.Account.Pipeline.{pipeline_destroy}
use yukimi.Controller.AccountReconciler.{
  External, account_kind, log_of, deleting, handled, namespace_labels, account_reconciler_observe,
  consume, after_destroy, destroy_with, delete_destroy, delete_gated, account_reconciler_delete,
}
use yukimi.Account.Module.{account_module}
use yukimi.Account.Module.Existing.{Platform, ModuleConfig}
use yukimi.Account.Module.Drop.{drop_account, teardown}
use yukimi.Account.Module.Laws.Removal.{succeeded, locator-teardown, deletion_timestamp-teardown}
use yukimi.Account.ResourceData.{ResourceData, new_resource_data}
use yukimi.Logger.{op_delete, Logger, handle}
use yukimi.Apis.SnowflakeAccount.{SnowflakeAccount}
use yukimi.Apis.Crossplane.{Crossplane}
use yukimi.Base.{
  if◌then◌else◌, Str, is_empty, Dict, ℕ, ◌≡◌, refl, ap, ◌∙◌, true, false, not, ◌||◌, none, some, [],
  ◌∷◌, arith,
}
use yukimi.Errors.{Result, ok, err}

last :
    {xp : Crossplane} {W : Type 0} (r : Result (Unit {0}) × ResourceData xp W)
    → (proceed r (λ _. pure tt)).1 ≡ r.1
last (ok u, d) = refl
last (err problem, d) = refl

module _ {xp : Crossplane} {W : Type 0} (e : External xp W) (p : Platform W)
    (m : ModuleConfig) where
  after_destroy_cr :
      (log : Logger) (r : Result (Unit {0}) × ResourceData xp W)
      → (after_destroy e log none r).1 ≡ r.1.cr
  unfolding after_destroy consume handled handle
  after_destroy_cr log (ok u, d) = refl
  after_destroy_cr log (err problem, d) = ground arith

  destroy_account :
      (d : ResourceData xp W)
      → (pipeline_destroy (account_module p m ∷ []) d).1 ≡ (teardown p m d).1
  unfolding pipeline_destroy account_module
  destroy_account d = last (teardown p m d)

  observe_deleting :
      (cr : SnowflakeAccount xp) (w : W) (t : ℕ)
      → cr.deletion_timestamp ≡ some t
      → (account_reconciler_observe e cr w).0 ≡ ok (deleting cr)
  unfolding account_reconciler_observe
  observe_deleting cr w t h = rw h refl

  -- The run of a deletion of the account.
  abbrev pub deletion_data : SnowflakeAccount xp → Dict Str Str → W → ResourceData xp W
  deletion_data cr labels w = new_resource_data e.resolve cr labels (log_of cr op_delete) w

  -- The other branch of the test of the protection.
  abbrev gated : SnowflakeAccount xp → W → Result (Unit {0}) × SnowflakeAccount xp × W
  gated cr w = delete_gated e cr (find_active_permit e.kube cr.namespace account_kind cr.name w)

  labelled :
      (cr : SnowflakeAccount xp) (labels : Dict Str Str) (w w' : W)
      → e.kube.get_namespace cr.namespace w ≡ (ok labels, w')
      → (delete_destroy e cr none w).1
        ≡ (after_destroy e
            (log_of cr op_delete)
            none
            (pipeline_destroy e.modules (deletion_data cr labels w'))).1
  unfolding delete_destroy destroy_with namespace_labels
  labelled cr labels w w' k = rw k refl

  delete_cr :
      (cr : SnowflakeAccount xp) (labels : Dict Str Str) (w w' : W)
      → e.protection ≡ false
      → e.modules ≡ account_module p m ∷ []
      → e.kube.get_namespace cr.namespace w ≡ (ok labels, w')
      → (account_reconciler_delete e cr w).1 ≡ (teardown p m (deletion_data cr labels w')).1.cr
  unfolding account_reconciler_delete
  delete_cr cr labels w w' h l k =
      let d = deletion_data cr labels w' in
      let unguarded = ap (λ b. (if b then gated cr w else delete_destroy e cr none w).1) h in
      unguarded
      ∙ labelled cr labels w w' k
      ∙ after_destroy_cr (log_of cr op_delete) (pipeline_destroy e.modules d)
      ∙ ap (λ ms. (pipeline_destroy ms d).1.cr) l
      ∙ ap (λ x. x.cr) (destroy_account d)

  -- Where protection is off, the labels can be read and the account module is the only one, the
  -- observation after `Delete` of an account that is being deleted says that it is gone exactly
  -- when its locator was empty or DROP ACCOUNT succeeded, even where `Delete` then failed to
  -- delete the credential.
  pub observe-delete :
      (cr : SnowflakeAccount xp) (labels : Dict Str Str) (w w' : W) (t : ℕ)
      → e.protection ≡ false
      → e.modules ≡ account_module p m ∷ []
      → e.kube.get_namespace cr.namespace w ≡ (ok labels, w')
      → cr.deletion_timestamp ≡ some t
      → let (r, cr', w'') = account_reconciler_delete e cr w in
        (account_reconciler_observe e cr' w'').0
        ≡ ok (record {
          resource_exists = not (
              is_empty cr.status.account_locator
              || succeeded (drop_account p m (deletion_data cr labels w')).0);
          resource_up_to_date = true;
        })
  observe-delete cr labels w w' t h k l n =
      let c = delete_cr cr labels w w' h k l in
      let d = deletion_data cr labels w' in
      observe_deleting _ _ t
        (ap (λ a. a.deletion_timestamp) c ∙ deletion_timestamp-teardown p m d ∙ n)
      ∙ ap (λ b. ok (record { resource_exists = not b; resource_up_to_date = true }))
          (ap (λ a. is_empty a.status.account_locator) c ∙ locator-teardown p m d)
