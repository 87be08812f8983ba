-- ===== src/Tests/Accounts.antt =====
-- The pipeline and the account module.
use yukimi.Account.Module.Create.{resume_crashed_create}
use yukimi.Account.Module.Laws.Resumption.{succeeded-resume_crashed_create}
use yukimi.Tests.Fixtures.{
  small_crossplane, frankfurt, account, small_credentials, small_keys, small_platform, small_config,
  data_of, fixed_module,
}
use yukimi.Account.Module.{account_observe, account_apply}
use yukimi.Account.Module.Existing.{Platform, ModuleConfig}
use yukimi.Account.Module.Checks.{check_creatable}
use yukimi.Account.Module.Creation.{obtain_locator}
use yukimi.Account.Module.Laws.Frame.{swapped, account_frame}
use yukimi.Account.Module.Laws.Recorded.{Recorded, account_apply-Recorded}
use yukimi.Account.Module.Laws.Refusals.{account_apply_refused}
use yukimi.Account.Module.Laws.Removal.{succeeded}
use yukimi.Account.Outcome.{done, failed, abort, account_module_name, all_done}
use yukimi.Account.Pipeline.{Module, pipeline_apply}
use yukimi.Account.Pipeline.Order.{AbortsUndone, owners, names, complete-pipeline_apply}
use yukimi.Account.ResourceData.{ResourceData, with_status}
use yukimi.Config.Backplane.{region_unavailable, find_region}
use yukimi.Base.{leb, get, ℕ, ◌+◌, ◌≤◌, ◌≡◌, refl, ◌↔◌, true, none, [], ◌∷◌}
use yukimi.Errors.{plain, ok, err}

abbrev existing : ResourceData small_crossplane ℕ
existing = data_of (account (b'l' ∷ []) none)

abbrev missing : ResourceData small_crossplane ℕ
missing = data_of (account [] none)

abbrev platform : Platform ℕ
platform = small_platform (ok 1)

-- A platform without a connection for the org-admin.
abbrev cut_off : Platform ℕ
cut_off = small_platform (err (plain []))

account_frame_example :
    (account_observe (swapped platform cut_off.pool.org_admin_db small_keys) small_config existing
      ≡ account_observe platform small_config existing)
    × (account_apply (swapped platform cut_off.pool.org_admin_db small_keys) small_config existing
        ≡ account_apply platform small_config existing)
account_frame_example =
    account_frame platform small_config cut_off.pool.org_admin_db small_keys existing refl

account_apply-Recorded_example :
    Recorded platform small_config missing
      (obtain_locator platform small_config missing)
      (account_apply platform small_config missing)
account_apply-Recorded_example = account_apply-Recorded platform small_config missing refl

-- Without any region.
abbrev empty_config : ModuleConfig
empty_config = record small_config { backplane = record { global_parameters = []; regions = [] } }

no_region :
    check_creatable empty_config missing.cr.name frankfurt missing.resolved_name []
    ≡ err (region_unavailable frankfurt)
unfolding check_creatable find_region get
no_region = refl

account_apply_refused_example : account_apply platform empty_config missing ≡ (
  abort (failed (region_unavailable frankfurt)),
  with_status (λ s. record s { account_name = missing.resolved_name }) missing,
)
account_apply_refused_example =
    account_apply_refused platform empty_config missing (region_unavailable frankfurt) refl
      no_region

abbrev finished : Module small_crossplane ℕ
finished = fixed_module account_module_name done (ok tt)

one_done : all_done (pipeline_apply (finished ∷ []) existing).0.outcomes ≡ true
unfolding all_done pipeline_apply done
one_done = refl

done_aborts_nothing : AbortsUndone (finished ∷ [])
unfolding done
done_aborts_nothing = (λ d h. cc, tt)

complete-pipeline_apply_example :
    (owners (pipeline_apply (finished ∷ []) existing).0.outcomes ≡ names (finished ∷ []))
    × ((pipeline_apply (finished ∷ []) existing).1.cr.status.observed_generation
        ≡ (pipeline_apply (finished ∷ []) existing).1.cr.generation)
complete-pipeline_apply_example =
    complete-pipeline_apply (finished ∷ []) existing done_aborts_nothing one_done

succeeded-resume_crashed_create_example :
    (succeeded (resume_crashed_create platform (record { value = [] }) 10 (plain []) missing).0
      ≡ leb 10 (small_credentials.rotated_at + 300000000000))
    × (((resume_crashed_create platform (record { value = [] }) 10 (plain []) missing).0
          ≡ ok small_credentials)
        ↔ (10 ≤ small_credentials.rotated_at + 300000000000))
    × ((resume_crashed_create platform (record { value = [] }) 10 (plain []) missing).1
        ≡ record missing { world = 5 })
succeeded-resume_crashed_create_example =
    succeeded-resume_crashed_create platform (record { value = [] }) 10 (plain []) small_credentials
      missing 5 refl
