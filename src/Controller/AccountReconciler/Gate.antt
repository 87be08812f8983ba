-- ===== src/Controller/AccountReconciler/Gate.antt =====
-- internal/controller/snowflakeaccount/reconciler.go: `Delete` and its permit.
use yukimi.Account.ResourceData.{ResourceData, new_resource_data}
use yukimi.Effects.{Action}
use yukimi.Logger.{op_delete, Logger, handle}
use yukimi.Controller.AccountReconciler.{
  External, account_kind, blocked_error, log_of, mark_blocked, left, handled, namespace_labels,
  after_destroy, destroy_with, delete_destroy, blocked_world, delete_blocked, delete_gated,
  account_reconciler_delete,
}
use yukimi.Deletion.Permits.{find_earliest, find_active_permit}
use yukimi.Deletion.Earliest.{NoneAuthorizes, NoneAuthorizes-find}
use yukimi.Account.Pipeline.{Module, pipeline_destroy}
use yukimi.Apis.SnowflakeAccount.{SnowflakeAccount}
use yukimi.Apis.DeletionPermit.{DeletionPermit}
use yukimi.Apis.Crossplane.{Crossplane}
use yukimi.Base.{
  Bool-cases, Str, Dict, ◌≡◌, refl, sym, ap, ◌∙◌, inl, inr, Bool, true, false, Option, none, some,
  List,
}
use yukimi.Errors.{Error, Result, ok, err, is_user_error}

abbrev pub is_error : {A : Type 0} → Result A → Bool
is_error (ok a) = false
is_error (err e) = true

module _ {xp : Crossplane} {W : Type 0} (e : External xp W) where
  delete_protected :
      (cr : SnowflakeAccount xp) (w w' : W) (ps : List (DeletionPermit xp))
      → e.protection ≡ true
      → e.kube.list_permits cr.namespace w ≡ (ok ps, w')
      → account_reconciler_delete e cr w
        ≡ delete_gated e cr (ok (find_earliest account_kind cr.name none ps), w')
  unfolding account_reconciler_delete find_active_permit
  delete_protected cr w w' ps h k = rw (h, k) refl

  handled_problem :
      {A : Type 0} (a : A) (log : Logger) (problem : Error) (cr : SnowflakeAccount xp) (w : W)
      → (is_error (handled e a log (some problem) (cr, w)).0 ≡ true)
        × ((handled e a log (some problem) (cr, w)).1 ≡ cr)
  unfolding handled handle
  handled_problem a log problem cr w = elim (Bool-cases (is_user_error problem)) [
    | inl h ↦ rw h (refl, refl)
    | inr h ↦ rw h (refl, refl)
  ]

  delete_blocked_refuses :
      (cr : SnowflakeAccount xp) (w : W)
      → (is_error (delete_blocked e cr w).0 ≡ true)
        × ((delete_blocked e cr w).1.status.account_locator ≡ cr.status.account_locator)
  unfolding delete_blocked
  delete_blocked_refuses cr w =
      let (f, g) =
        handled_problem tt (log_of cr op_delete) blocked_error (mark_blocked cr)
          (blocked_world e cr w) in
      (f, ap (λ c. c.status.account_locator) g)

  unauthorized_eq :
      (cr : SnowflakeAccount xp) (w w' : W) (ps : List (DeletionPermit xp))
      → e.protection ≡ true
      → e.kube.list_permits cr.namespace w ≡ (ok ps, w')
      → NoneAuthorizes account_kind cr.name ps
      → account_reconciler_delete e cr w ≡ delete_blocked e cr w'
  unfolding delete_gated
  unauthorized_eq cr w w' ps h k n =
      delete_protected cr w w' ps h k ∙ rw (NoneAuthorizes-find account_kind cr.name ps n) refl

  -- The run of a deletion.
  abbrev pub destroy_data : SnowflakeAccount xp → Dict Str Str → W → ResourceData xp W
  destroy_data cr labels w = new_resource_data e.resolve cr labels (log_of cr op_delete) w

  authorized_destroy :
      (cr : SnowflakeAccount xp) (permit : Option (DeletionPermit xp)) (labels : Dict Str Str)
      (w w' : W)
      → e.kube.get_namespace cr.namespace w ≡ (ok labels, w')
      → delete_destroy e cr permit w
        ≡ after_destroy e
            (log_of cr op_delete)
            permit
            (pipeline_destroy e.modules (destroy_data cr labels w'))
  unfolding delete_destroy destroy_with namespace_labels
  authorized_destroy cr permit labels w w' h = rw h refl

  guarded_delete :
      (cr : SnowflakeAccount xp) (w w1 : W) (permit : DeletionPermit xp)
      → e.protection ≡ true
      → find_active_permit e.kube cr.namespace account_kind cr.name w ≡ (ok (some permit), w1)
      → account_reconciler_delete e cr w ≡ delete_destroy e cr (some permit) w1
  unfolding account_reconciler_delete delete_gated
  guarded_delete cr w w1 permit h k = rw h (ap (delete_gated e cr) k)

  failed_delete :
      (cr : SnowflakeAccount xp) (w w1 w2 : W) (permit : DeletionPermit xp) (labels : Dict Str Str)
      (problem : Error) (d : ResourceData xp W)
      → e.protection ≡ true
      → find_active_permit e.kube cr.namespace account_kind cr.name w ≡ (ok (some permit), w1)
      → e.kube.get_namespace cr.namespace w1 ≡ (ok labels, w2)
      → pipeline_destroy e.modules (destroy_data cr labels w2) ≡ (err problem, d)
      → account_reconciler_delete e cr w
        ≡ handled e tt (log_of cr op_delete) (some problem) (left d)
  unfolding after_destroy
  failed_delete cr w w1 w2 permit labels problem d h k l n =
      guarded_delete cr w w1 permit h k
      ∙ authorized_destroy cr (some permit) labels w1 w2 l
      ∙ ap (after_destroy e (log_of cr op_delete) (some permit)) n

module _ {xp : Crossplane} {W : Type 0} (e : External xp W) where
  -- With deletion protection on, where the permits can be listed and none of them is active and
  -- names the account, `Delete` fails, keeps the locator, and runs no module: with any others in
  -- their place it does the same.
  pub delete_unauthorized :
      (ms : List (Module xp W)) (cr : SnowflakeAccount xp) (w w' : W)
      (ps : List (DeletionPermit xp))
      → e.protection ≡ true
      → e.kube.list_permits cr.namespace w ≡ (ok ps, w')
      → NoneAuthorizes account_kind cr.name ps
      → (account_reconciler_delete (record e { modules = ms }) cr w
          ≡ account_reconciler_delete e cr w)
        × (is_error (account_reconciler_delete e cr w).0 ≡ true)
        × ((account_reconciler_delete e cr w).1.status.account_locator ≡ cr.status.account_locator)
  unfolding delete_blocked handled
  delete_unauthorized ms cr w w' ps h k n =
      let blocked = unauthorized_eq e cr w w' ps h k n in
      let (refused, kept) = delete_blocked_refuses e cr w' in
      (
        unauthorized_eq (record e { modules = ms }) cr w w' ps h k n ∙ sym blocked,
        ap (λ x. is_error x.0) blocked ∙ refused,
        ap (λ x. x.1.status.account_locator) blocked ∙ kept,
      )

  -- The same program with another write of a permit's status.
  abbrev pub with_permit_write : Action W (DeletionPermit xp) → External xp W
  with_permit_write write = record e { kube = record e.kube { update_permit_status = λ _. write } }

  -- With deletion protection on, an active permit and readable labels, a `Delete` whose teardown
  -- fails returns an error and does not write the status of a permit: with any other such write in
  -- its place it does the same.
  pub delete_failed_keeps_permit :
      (write : Action W (DeletionPermit xp)) (cr : SnowflakeAccount xp) (w w1 w2 : W)
      (permit : DeletionPermit xp) (labels : Dict Str Str) (problem : Error) (d : ResourceData xp W)
      → e.protection ≡ true
      → find_active_permit e.kube cr.namespace account_kind cr.name w ≡ (ok (some permit), w1)
      → e.kube.get_namespace cr.namespace w1 ≡ (ok labels, w2)
      → pipeline_destroy e.modules (destroy_data e cr labels w2) ≡ (err problem, d)
      → (account_reconciler_delete (with_permit_write write) cr w
          ≡ account_reconciler_delete e cr w)
        × (is_error (account_reconciler_delete e cr w).0 ≡ true)
  unfolding handled find_active_permit
  delete_failed_keeps_permit write cr w w1 w2 permit labels problem d h k l n =
      let eq = failed_delete e cr w w1 w2 permit labels problem d h k l n in
      (
        failed_delete (with_permit_write write) cr w w1 w2 permit labels problem d h k l n ∙ sym eq,
        ap (λ x. is_error x.0) eq
            ∙ (handled_problem e tt (log_of cr op_delete) problem d.cr d.world).0,
      )
