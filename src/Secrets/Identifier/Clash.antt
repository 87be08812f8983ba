-- ===== src/Secrets/Identifier/Clash.antt =====
-- Where two different requests get one identifier.
use yukimi.Base.{Str, text, is_letter, is_digit, ◌≡◌, arith}
use yukimi.Errors.{ok}
use yukimi.Secrets.Identifier.{
  is_valid_segment, to_secret_safe, Identifier, new_tenant_identifier, new_org_admin_identifier,
}

-- Every identifier of an org-admin credential is also the identifier of a tenant: that of the
-- organisation "orgadmin", with the org as the namespace and the org-admin account as the name.
pub org_admin-tenant_clash :
    (org org_admin_account : Str) (i : Identifier)
    → new_org_admin_identifier org org_admin_account ≡ ok i
    → new_tenant_identifier (text "orgadmin") org org_admin_account ≡ ok i
unfolding new_org_admin_identifier new_tenant_identifier text is_valid_segment is_letter is_digit
    to_secret_safe
org_admin-tenant_clash org org_admin_account i h = ground arith
