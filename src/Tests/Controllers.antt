-- ===== src/Tests/Controllers.antt =====
-- The reconcilers and the permits.
use yukimi.Tests.Configs.{
  loaded_backplane, some_file, document, raw_base, no_durations, unmarshal, decode_base,
  loaded_base, base_loaded,
}
use yukimi.Results.{ok_inj}
use yukimi.Config.Base.Settings.{RawConfig}
use yukimi.Controller.AccountReconciler.Wiring.{connect_external}
use yukimi.Controller.AccountReconciler.Default.{delete-load_base}
use yukimi.Tests.Fixtures.{
  small_crossplane, account, small_logging, small_platform, small_config, fixed_module,
}
use yukimi.Controller.AccountReconciler.{
  External, account_kind, account_reconciler_observe, account_reconciler_delete,
}
use yukimi.Controller.AccountReconciler.Gate.{
  is_error, destroy_data, delete_unauthorized, with_permit_write, delete_failed_keeps_permit,
}
use yukimi.Controller.AccountReconciler.Vanish.{deletion_data, observe-delete}
use yukimi.Controller.PermitReconciler.{is_frozen}
use yukimi.Controller.PermitReconciler.Lifecycle.{observed, used, permit_run, frozen_run-authorizes}
use yukimi.Deletion.Kube.{Kube}
use yukimi.Deletion.Permits.{
  state_active, state_consumed, authorizes, earlier, consider, find_earliest, find_active_permit,
}
use yukimi.Deletion.Earliest.{NoneAuthorizes, Earliest, find_active_permit-Earliest}
use yukimi.Account.Module.{account_module}
use yukimi.Account.Module.Drop.{drop_account}
use yukimi.Account.Module.Laws.Removal.{succeeded}
use yukimi.Account.Outcome.{done}
use yukimi.Account.Pipeline.{Module, pipeline_destroy}
use yukimi.Apis.DeletionPermit.{DeletionPermit}
use yukimi.Apis.SnowflakeAccount.{SnowflakeAccount}
use yukimi.Base.{
  Str, text, str_beq, is_empty, ℕ, suc, ◌≡◌, refl, sym, ap, Bool, true, false, not, ◌||◌, Option,
  none, some, List, [], ◌∷◌,
}
use yukimi.Errors.{plain, Result, ok, err}

abbrev permit : Str → ℕ → DeletionPermit small_crossplane
permit state created = record {
  name = b'p' ∷ [];
  namespace = b't' ∷ b'm' ∷ [];
  creation_timestamp = created;
  deletion_timestamp = none;
  spec = record {
    target_ref = record { kind = account_kind; name = b's' ∷ b'h' ∷ b'o' ∷ b'p' ∷ [] };
    duration = 60;
    reason = [];
    management_policies = [];
  };
  status = record { conditions = false; valid_until = none; state = state };
}

abbrev kube_with : List (DeletionPermit small_crossplane) → Kube small_crossplane ℕ
kube_with permits = record {
  get_namespace = λ namespace w. (ok [], w);
  list_permits = λ namespace w. (ok permits, w);
  update_permit_status = λ p w. (ok p, w);
  update_account_status = λ cr w. (ok cr, w);
  record_event = λ cr ev w. suc w;
}

abbrev external_with :
    Bool
    → List (DeletionPermit small_crossplane)
    → List (Module small_crossplane ℕ)
    → External small_crossplane ℕ
external_with protection permits modules = record {
  kube = kube_with permits;
  logging = small_logging;
  modules = modules;
  protection = protection;
  resolve = λ name namespace. name;
}

abbrev live_account : SnowflakeAccount small_crossplane
live_account = account (b'l' ∷ []) (some 90)

abbrev failing : Module small_crossplane ℕ
failing = fixed_module [] done (err (plain []))

none_active : NoneAuthorizes account_kind live_account.name (permit state_consumed 1 ∷ [])
unfolding authorizes str_beq text
none_active = (refl, tt)

delete_unauthorized_example :
    (account_reconciler_delete (external_with true (permit state_consumed 1 ∷ []) []) live_account 0
      ≡ account_reconciler_delete
          (external_with true (permit state_consumed 1 ∷ []) (failing ∷ []))
          live_account
          0)
    × (is_error
          (account_reconciler_delete
            (external_with true (permit state_consumed 1 ∷ []) (failing ∷ []))
            live_account
            0).0
        ≡ true)
    × ((account_reconciler_delete
          (external_with true (permit state_consumed 1 ∷ []) (failing ∷ []))
          live_account
          0).1.status.account_locator
        ≡ b'l' ∷ [])
delete_unauthorized_example =
    delete_unauthorized (external_with true (permit state_consumed 1 ∷ []) (failing ∷ [])) []
      live_account 0 0 (permit state_consumed 1 ∷ []) refl refl none_active

one_active :
    find_active_permit
      (kube_with (permit state_active 1 ∷ []))
      live_account.namespace
      account_kind
      live_account.name
      0
    ≡ (ok (some (permit state_active 1)), 0)
unfolding find_active_permit find_earliest consider earlier authorizes str_beq text
one_active = refl

abbrev guarded : External small_crossplane ℕ
guarded = external_with true (permit state_active 1 ∷ []) (failing ∷ [])

destroy_fails :
    pipeline_destroy guarded.modules (destroy_data guarded live_account [] 0)
    ≡ (err (plain []), destroy_data guarded live_account [] 0)
unfolding pipeline_destroy
destroy_fails = refl

delete_failed_keeps_permit_example :
    (account_reconciler_delete (with_permit_write guarded (λ w. (err (plain []), w))) live_account 0
      ≡ account_reconciler_delete guarded live_account 0)
    × (is_error (account_reconciler_delete guarded live_account 0).0 ≡ true)
delete_failed_keeps_permit_example =
    delete_failed_keeps_permit guarded (λ w. (err (plain []), w)) live_account 0 0 0
      (permit state_active 1) [] (plain []) (destroy_data guarded live_account [] 0) refl one_active
      refl destroy_fails

find_active_permit-Earliest_example :
    (r : Option (DeletionPermit small_crossplane)) × ((find_active_permit
        (kube_with (permit state_active 5 ∷ permit state_active 3 ∷ []))
        []
        account_kind
        live_account.name
        0).0
      ≡ ok r)
    × Earliest account_kind live_account.name (permit state_active 5 ∷ permit state_active 3 ∷ []) r
find_active_permit-Earliest_example =
    find_active_permit-Earliest (kube_with (permit state_active 5 ∷ permit state_active 3 ∷ [])) []
      account_kind live_account.name 0 (permit state_active 5 ∷ permit state_active 3 ∷ []) refl

consumed_is_frozen : is_frozen (permit state_consumed 1) ≡ true
unfolding is_frozen str_beq text
consumed_is_frozen = refl

frozen_run-authorizes_example :
    authorizes account_kind []
      (permit_run (observed 2 ∷ used ∷ observed 3 ∷ []) (permit state_consumed 1))
    ≡ false
frozen_run-authorizes_example =
    frozen_run-authorizes account_kind [] (observed 2 ∷ used ∷ observed 3 ∷ [])
      (permit state_consumed 1) consumed_is_frozen

abbrev unguarded : External small_crossplane ℕ
unguarded = external_with false [] (account_module (small_platform (ok 1)) small_config ∷ [])

abbrev after_delete : Result (Unit {0}) × SnowflakeAccount small_crossplane × ℕ
after_delete = account_reconciler_delete unguarded live_account 0

observe-delete_example :
    (account_reconciler_observe unguarded after_delete.1 after_delete.2).0
    ≡ ok (record {
      resource_exists = not (
          is_empty live_account.status.account_locator
          || succeeded
              (drop_account (small_platform (ok 1)) small_config (
                deletion_data unguarded (small_platform (ok 1)) small_config live_account [] 0)).0);
      resource_up_to_date = true;
    })
observe-delete_example =
    observe-delete unguarded (small_platform (ok 1)) small_config live_account [] 0 0 90 refl refl
      refl refl

-- The controller that is put together from a configuration that does not say whether deletions
-- are protected.
abbrev wired : External small_crossplane ℕ
wired =
    connect_external (kube_with (permit state_consumed 1 ∷ [])) (small_platform (ok 1)) (λ s. [])
      loaded_base loaded_backplane

unsaid : (raw : RawConfig) → decode_base document ≡ ok raw → raw.deletion.protection ≡ none
unsaid raw h = ap (λ r. r.deletion.protection) (sym (ok_inj raw_base raw h))

delete-load_base_example :
    (is_error (account_reconciler_delete wired live_account 0).0 ≡ true)
    × ((account_reconciler_delete wired live_account 0).1.status.account_locator ≡ b'l' ∷ [])
delete-load_base_example =
    delete-load_base some_file unmarshal decode_base no_durations
      (kube_with (permit state_consumed 1 ∷ [])) (small_platform (ok 1)) (λ s. []) [] [] document
      loaded_base loaded_backplane live_account 0 0 (permit state_consumed 1 ∷ []) refl refl unsaid
      base_loaded refl none_active
