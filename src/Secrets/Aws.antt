-- ===== src/Secrets/Aws.antt =====
-- internal/secrets/aws/keystore.go. The Secrets Manager client is a parameter over the state `S` of
-- the service and the log; loading the SDK's configuration is another.
pub mod Causes
pub mod Contract
use yukimi.Base.{
  ltb, if◌then◌else◌, Str, text, is_empty, to_lower, decimal, contains, ℕ, ◌+◌, String, Bool, true,
  false, not, ◌&&◌, ◌||◌, Option, none, some, [], ◌++◌,
}
use yukimi.Errors.{
  Error, user_error, plain, wrapped, wrapped_both, pending_deletion, snowflake_error,
  statement_error, invalid_request, resource_not_found, Result, ok, err, wrap, new_user_error,
  first_found,
}
use yukimi.Effects.{Action, proceed, ◌>>=◌, pure, on_error}
use yukimi.Secrets.Identifier.{Identifier}
use yukimi.Secrets.KeyStore.{KeyStore}

-- `client`: of the inputs and outputs, the fields that the program sets and reads.
pub record SecretsClient (S : Type 0) : Type 0 where
  -- `SecretString` and `CreatedDate`
  pub get_secret_value : Str → Action S (Option Str × Option ℕ)
  -- `Name`, `SecretString` and `KmsKeyId`
  pub create_secret : Str → Str → Option Str → Action S (Unit {0})
  -- `SecretId` and `SecretString`
  pub put_secret_value : Str → Str → Action S (Unit {0})
  -- `SecretId` and `RecoveryWindowInDays`
  pub delete_secret : Str → ℕ → Action S (Unit {0})

-- `KeyStore`
pub record AwsKeyStore (S : Type 0) : Type 0 where
  pub client : SecretsClient S
  pub kms_key_id : Str
  pub recovery_window_days : ℕ

abbrev pub max_recovery_window_days : ℕ
max_recovery_window_days = 30

-- `errors.As` for an `InvalidRequestException`: the first in the chain, and its message.
unfoldable pub find_invalid_request : Error → Option Str
find_invalid_request (wrapped s e t) = find_invalid_request e
find_invalid_request (wrapped_both s e t f u) =
    first_found (find_invalid_request e) (find_invalid_request f)
find_invalid_request (statement_error l q d e) = find_invalid_request e
find_invalid_request (invalid_request m) = some m
find_invalid_request (user_error m) = none
find_invalid_request (plain m) = none
find_invalid_request pending_deletion = none
find_invalid_request (snowflake_error d m) = none
find_invalid_request (resource_not_found m) = none

names_deletion : Option Str → Bool
names_deletion none = false
names_deletion (some msg) =
    contains (to_lower msg) (text "scheduled for deletion")
    || contains (to_lower msg) (text "marked for deletion")

-- `isPendingDeletion`
unfoldable pub aws_is_pending_deletion : Error → Bool
unfolding names_deletion find_invalid_request
aws_is_pending_deletion e = names_deletion (find_invalid_request e)

-- `isNotFound`
unfoldable pub is_not_found : Error → Bool
is_not_found (wrapped s e t) = is_not_found e
is_not_found (wrapped_both s e t f u) = is_not_found e || is_not_found f
is_not_found (statement_error l q d e) = is_not_found e
is_not_found (resource_not_found m) = true
is_not_found (invalid_request m) = false
is_not_found (user_error m) = false
is_not_found (plain m) = false
is_not_found pending_deletion = false
is_not_found (snowflake_error d m) = false

-- `aws.ToString` and `aws.ToTime`
abbrev pub to_string : Option Str → Str
to_string none = []
to_string (some s) = s

abbrev pub to_time : Option ℕ → ℕ
to_time none = 0
to_time (some t) = t

pub failed_at : String → Identifier → Str
failed_at verb id = text "failed to " ++ text verb ++ text " secret at " ++ id.value ++ text ": "

create_error : Identifier → Error → Error
create_error id e =
    if aws_is_pending_deletion e
    then wrapped_both (failed_at "create" id) pending_deletion (text ": ") e []
    else wrap (failed_at "create" id) e

-- The result of `DeleteSecret`, with the two refusals that count as success.
unfoldable pub forgive : Identifier → Result (Unit {0}) → Result (Unit {0})
forgive id (ok t) = ok t
forgive id (err e) =
    if not (is_not_found e) && not (aws_is_pending_deletion e)
    then err (wrap (failed_at "delete" id) e)
    else ok tt

module _ {S : Type 0} (b : AwsKeyStore S) where
  -- `KeyStore.Get`
  unfoldable pub aws_get : Identifier → Action S (Str × ℕ)
  aws_get id = do
    out ← on_error (wrap (failed_at "get" id)) (b.client.get_secret_value id.value)
    pure (to_string out.0, to_time out.1)

  kms_argument : Option Str
  kms_argument = if is_empty b.kms_key_id then none else some b.kms_key_id

  -- `KeyStore.Create`
  unfoldable pub aws_create : Identifier → Str → Action S (Unit {0})
  unfolding create_error kms_argument
  aws_create id value =
      on_error (create_error id) (b.client.create_secret id.value value kms_argument)

  -- `KeyStore.Update`
  unfoldable pub aws_update : Identifier → Str → Action S (Unit {0})
  aws_update id value =
      on_error (wrap (failed_at "update" id)) (b.client.put_secret_value id.value value)

  -- `KeyStore.Delete`
  unfoldable pub aws_delete : Identifier → Action S (Unit {0})
  unfolding forgive
  aws_delete id s =
      let (r, s') = b.client.delete_secret id.value b.recovery_window_days s in (forgive id r, s')

  unfoldable pub aws_key_store : KeyStore S
  unfolding aws_get aws_create aws_update aws_delete
  aws_key_store = record {
    get_value = aws_get;
    create_value = aws_create;
    update_value = aws_update;
    delete_value = aws_delete;
  }

-- The window of `New`.
unfoldable pub recovery_window : ℕ → ℕ
recovery_window grace_period_days =
    if ltb max_recovery_window_days grace_period_days
    then max_recovery_window_days
    else grace_period_days

pub capped_line : ℕ → Str
capped_line grace_period_days =
    text "secrets/aws: recovery window capped at "
    ++ decimal max_recovery_window_days
    ++ text " days (Secrets Manager's maximum); configured grace period is "
    ++ decimal grace_period_days
    ++ text
        " days, so a credential deleted after this cap needs manual repair (012) if the account is restored on days "
    ++ decimal (max_recovery_window_days + 1)
    ++ text "-"
    ++ decimal grace_period_days

pub region_required : Error
region_required = new_user_error (
    text
      "AWS region is required to construct the AWS key store (expected: aws.region in base.yaml)")

-- `log.Printf` of the cap, where there is one.
log_cap : {S : Type 0} → (Str → S → S) → ℕ → S → S
log_cap log grace_period_days s =
    if ltb max_recovery_window_days grace_period_days
    then log (capped_line grace_period_days) s
    else s

-- `New`, over `config.LoadDefaultConfig` and the log
unfoldable pub new_aws_key_store :
    {S : Type 0}
    → (Str → Action S (SecretsClient S))
    → (Str → S → S)
    → Str
    → Str
    → ℕ
    → Action S (AwsKeyStore S)
unfolding recovery_window log_cap
new_aws_key_store load_client log region kms_key_id grace_period_days s =
    if is_empty region
    then (err region_required, s)
    else proceed (on_error (wrap (text "failed to load AWS SDK config: ")) (load_client region) s)
        λ client s'. (
          ok (record {
            client = client;
            kms_key_id = kms_key_id;
            recovery_window_days = recovery_window grace_period_days;
          }),
          log_cap log grace_period_days s',
        )
