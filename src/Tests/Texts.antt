-- ===== src/Tests/Texts.antt =====
-- Names, texts and errors.
use yukimi.Snowflake.Statement.Render.Reading.{
  read_quoted_identifier, read_quoted_literal, read-quote,
}
use yukimi.Snowflake.Statement.Render.{quote_identifier, quote_literal}
use yukimi.Secrets.Identifier.Clash.{org_admin-tenant_clash}
use yukimi.Secrets.Identifier.{
  is_valid_segment, to_secret_safe, Identifier, new_tenant_identifier, new_org_admin_identifier,
}
use yukimi.Base.{str_eq, Str, text, is_letter, is_digit, ◌≡◌, refl, some, [], ◌∷◌, ◌++◌}
use yukimi.Errors.{ok}

abbrev acme : Str
acme = b'a' ∷ []

abbrev team : Str
team = b't' ∷ []

abbrev shop : Str
shop = b's' ∷ b'_' ∷ b'x' ∷ []

-- `yk-a--t--s-x`
abbrev shop_identifier : Identifier
shop_identifier = record {
  value = b'y' ∷ b'k' ∷ b'-' ∷ b'a' ∷ b'-' ∷ b'-' ∷ b't' ∷ b'-' ∷ b'-' ∷ b's' ∷ b'-' ∷ b'x' ∷ [];
}

shop_named : new_tenant_identifier acme team shop ≡ ok shop_identifier
unfolding new_tenant_identifier text is_valid_segment is_letter is_digit to_secret_safe
shop_named = refl

-- `yk-orgadmin--a--s-x`
admin_named : (i : Identifier) × (new_org_admin_identifier acme shop ≡ ok i)
unfolding new_org_admin_identifier text is_valid_segment is_letter is_digit to_secret_safe
admin_named = (_, refl)

org_admin-tenant_clash_example :
    new_tenant_identifier (text "orgadmin") acme shop ≡ ok admin_named.0
org_admin-tenant_clash_example = org_admin-tenant_clash acme shop admin_named.0 admin_named.1

-- `a"'\` with `;` behind it
abbrev hostile : Str
hostile = b'a' ∷ 34 ∷ 39 ∷ 92 ∷ []

read-quote_example :
    (read_quoted_identifier (quote_identifier hostile ++ (59 ∷ [])) ≡ some (hostile, 59 ∷ []))
    × (read_quoted_literal (quote_literal hostile ++ (59 ∷ [])) ≡ some (hostile, 59 ∷ []))
read-quote_example = read-quote hostile (59 ∷ []) refl refl
