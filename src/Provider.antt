-- ===== src/Provider.antt =====
-- cmd/provider/main.go, from the two loaders to the key store.
-- Flags, the manager and the controllers of the libraries are not modelled.
pub mod Ready
pub mod Serve
use yukimi.Base.{if◌then◌else◌, Str, text, str_beq, quoted, ◌++◌}
use yukimi.Errors.{Error, Result, ok, err}
use yukimi.Effects.{Action}
use yukimi.Config.Base.Settings.{BaseConfig}
use yukimi.Config.Backplane.{Backplane}
use yukimi.Secrets.Aws.{SecretsClient, AwsKeyStore, new_aws_key_store}

-- How `main` ends early: `kingpin.FatalIfError` with its text, and `kingpin.Fatalf`.
pub data Fatal : Type 0 where
  fatal_error : Error → Str → Fatal
  fatal_message : Str → Fatal

pub data Startup {ℓ} (A : Type ℓ) : Type ℓ where
  running : A → Startup A
  stopped : Fatal → Startup A

-- `kingpin.FatalIfError(err, s)`
abbrev fatal_if_error : {A : Type 0} → Str → Result A → Startup A
fatal_if_error s (ok a) = running a
fatal_if_error s (err e) = stopped (fatal_error e s)

no_key_store : Str → Fatal
no_key_store cloud = fatal_message (
    text "no key store compiled in for cloud section "
    ++ quoted cloud
    ++ text " (compiled in: aws)")

-- What `main` goes on with.
pub record Started (S : Type 0) : Type 0 where
  pub base_config : BaseConfig
  pub backplane : Backplane
  pub store : AwsKeyStore S

module _ {S : Type 0} (load_client : Str → Action S (SecretsClient S)) (log : Str → S → S) where
  -- The `switch` on the cloud provider.
  unfoldable pub open_key_store : BaseConfig → S → Startup (AwsKeyStore S) × S
  unfolding no_key_store
  open_key_store config s =
      if str_beq config.cloud_provider (text "aws")
      then (let (r, s') =
            new_aws_key_store load_client log config.aws.region config.aws.kms_key_id
              config.deletion.grace_period_days s in
          (fatal_if_error (text "failed to construct AWS key store") r, s'))
      else (stopped (no_key_store config.cloud_provider), s)

  with_store : BaseConfig → Backplane → Startup (AwsKeyStore S) × S → Startup (Started S) × S
  with_store config backplane (stopped f, s) = (stopped f, s)
  with_store config backplane (running store, s) =
      (running (record { base_config = config; backplane = backplane; store = store }), s)

  with_backplane : BaseConfig → Startup Backplane → S → Startup (Started S) × S
  unfolding with_store open_key_store
  with_backplane config (stopped f) s = (stopped f, s)
  with_backplane config (running backplane) s =
      with_store config backplane (open_key_store config s)

  with_base : Result Backplane → Startup BaseConfig → S → Startup (Started S) × S
  unfolding with_backplane
  with_base backplane (stopped f) s = (stopped f, s)
  with_base backplane (running config) s =
      with_backplane config (fatal_if_error (text "failed to load backplane config") backplane) s

  -- The two loaders' results in the order of `main`, then the key store.
  unfoldable pub start_up : Result BaseConfig → Result Backplane → S → Startup (Started S) × S
  unfolding with_base
  start_up config backplane s =
      with_base backplane (fatal_if_error (text "failed to load base config") config) s
