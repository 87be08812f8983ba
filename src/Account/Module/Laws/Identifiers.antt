-- ===== src/Account/Module/Laws/Identifiers.antt =====
-- Names across the parts: what the API server admits, what checkCreatable lets through, and what
-- the naming of accounts and of secrets makes of it.
use yukimi.Account.Tenant.Form.{length-resolve_name}
use yukimi.Account.Module.Checks.{check_creatable}
use yukimi.Account.Module.Existing.{ModuleConfig}
use yukimi.Account.Module.Laws.Refusals.{check_creatable_ok}
use yukimi.Account.Tenant.{resolve_name}
use yukimi.Apis.Admission.{is_admitted_name}
use yukimi.Secrets.Identifier.{is_valid_segment, new_tenant_identifier}
use yukimi.Secrets.Identifier.Admitted.{admitted-new_tenant_identifier}
use yukimi.Secrets.Identifier.Shape.{new_tenant_identifier_error}
use yukimi.Errors.{Error, ok, err, is_user_error}
use yukimi.Base.{Str, length, Dict, ℕ, ◌≤◌, ◌≡◌, refl, ◌∙◌, true, false, ◌&&◌, List, arith}

-- Once an admitted account in a namespace of 63 bytes at most has passed the checks of a fresh
-- create, the length check of its secret identifier never refuses it: an error is a user error, and
-- the organisation or the namespace is no valid segment.
pub check_creatable-new_tenant_identifier :
    (sha256 : Str → List ℕ) (m : ModuleConfig) (name namespace region : Str) (labels : Dict Str Str)
    (e : Error)
    → length (sha256 namespace) ≡ 32
    → is_admitted_name name ≡ true
    → length namespace ≤ 63
    → check_creatable m name region (resolve_name sha256 name namespace) labels ≡ ok tt
    → new_tenant_identifier m.org namespace name ≡ err e
    → (is_user_error e ≡ true) × (is_valid_segment m.org && is_valid_segment namespace ≡ false)
check_creatable-new_tenant_identifier sha256 m name namespace region labels e digest admitted short
      passed refused =
    let (_, _, _, _, _, fits) =
      check_creatable_ok m name region (resolve_name sha256 name namespace) labels passed in
    let blamed =
      admitted-new_tenant_identifier m.org namespace name e admitted
        (omega (arith, fits, length-resolve_name sha256 name namespace digest)) refused in
    (new_tenant_identifier_error m.org namespace name e refused ∙ rw blamed refl, blamed)
