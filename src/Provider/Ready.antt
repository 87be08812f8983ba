-- ===== src/Provider/Ready.antt =====
-- What holds once cmd/provider/main.go has its configuration and its key store.
use yukimi.Config.Backplane.Load.{RawBackplane, load}
use yukimi.Config.Backplane.Load.Outcome.{load-IsValid}
use yukimi.Config.Backplane.Load.Valid.{IsValid}
use yukimi.Config.Base.{load_base}
use yukimi.Config.Base.Valid.{IsSound, load_base-IsSound}
use yukimi.Config.Base.Document.{Node}
use yukimi.Config.Base.Resolve.{ℤ}
use yukimi.Config.Files.{FileRead}
use yukimi.Results.{Result-cases}
use yukimi.Base.{
  Bool-cases, Str, text, str_beq, str_beq_iff, is_empty, ◌≤◌, ◌≡◌, refl, sym, ap, ◌∙◌, inl, inr,
  true, false, Option, arith,
}
use yukimi.Errors.{Result, ok, err}
use yukimi.Effects.{Action}
use yukimi.Config.Base.Settings.{BaseConfig, RawConfig}
use yukimi.Config.Backplane.{Region, Backplane, find_region}
use yukimi.Secrets.Aws.{SecretsClient, AwsKeyStore, recovery_window, new_aws_key_store}
use yukimi.Controller.AccountReconciler.Wiring.{module_config}
use yukimi.Provider.{
  Fatal, Startup, running, stopped, Started, open_key_store, with_store, with_backplane, with_base,
  start_up,
}

running_or {ℓ} : {A : Type ℓ} → A → Startup A → A
running_or d (running a) = a
running_or d (stopped f) = d

running_inj {ℓ} : {A : Type ℓ} (a b : A) → running a ≡ running b → a ≡ b
unfolding running_or
running_inj a b h = ap (running_or a) h

stopped-not-running {ℓ κ} :
    {A : Type ℓ} {B : Type κ} {f : Fatal} {a : A} → stopped f ≡ running a → B
stopped-not-running h = ground arith

module _ {S : Type 0} (load_client : Str → Action S (SecretsClient S)) (log : Str → S → S) where
  with_store_running :
      (config : BaseConfig) (backplane : Backplane) (r : Startup (AwsKeyStore S)) (s : S)
      (st : Started S)
      → (with_store load_client log config backplane (r, s)).0 ≡ running st
      → (config ≡ st.base_config) × (backplane ≡ st.backplane) × (r ≡ running st.store)
  unfolding with_store
  with_store_running config backplane (stopped f) s st h = stopped-not-running h
  with_store_running config backplane (running store) s st h =
      let e =
        running_inj (record { base_config = config; backplane = backplane; store = store }) st h in
      (ap (λ x. x.base_config) e, ap (λ x. x.backplane) e, ap (λ x. running x.store) e)

  -- Where the start got through, each of its steps did.
  start_up_running :
      (config : Result BaseConfig) (backplane : Result Backplane) (s : S) (st : Started S)
      → (start_up load_client log config backplane s).0 ≡ running st
      → (config ≡ ok st.base_config)
        × (backplane ≡ ok st.backplane)
        × ((open_key_store load_client log st.base_config s).0 ≡ running st.store)
  unfolding start_up with_base with_backplane
  start_up_running (err e) backplane s st h = stopped-not-running h
  start_up_running (ok config) (err e) s st h = stopped-not-running h
  start_up_running (ok config) (ok backplane) s st h =
      let opened = open_key_store load_client log config s in
      let (c, b, o) = with_store_running config backplane opened.0 opened.1 st h in
      (ap ok c, ap ok b, ap (λ x. (open_key_store load_client log x s).0) (sym c) ∙ o)

  open_key_store_running :
      (config : BaseConfig) (s : S) (store : AwsKeyStore S)
      → (open_key_store load_client log config s).0 ≡ running store
      → (str_beq config.cloud_provider (text "aws") ≡ true)
        × (is_empty config.aws.region ≡ false)
        × (store.recovery_window_days ≡ recovery_window config.deletion.grace_period_days)
  unfolding open_key_store new_aws_key_store
  open_key_store_running config s store =
      elim (Bool-cases (str_beq config.cloud_provider (text "aws"))) [
        | inl k ↦ rw k (elim (Bool-cases (is_empty config.aws.region)) [
          | inl r ↦ rw r (λ h. stopped-not-running h)
          | inr r ↦ rw r (elim (Result-cases (load_client config.aws.region s).0) [
            | inl (client, l) ↦
                rw l (λ h.
                  (refl, refl, ap (λ x. x.recovery_window_days) (sym (running_inj _ store h))))
            | inr (e, l) ↦ rw l (λ h. stopped-not-running h)
          ])
        ])
        | inr k ↦ rw k (λ h. stopped-not-running h)
      ]

-- The configuration, the catalog and the key store that the controllers are given.
pub record IsReady {S : Type 0} (st : Started S) : Type 0 where
  pub sound : IsSound st.base_config
  pub on_aws : st.base_config.cloud_provider ≡ text "aws"
  pub placed : is_empty st.base_config.aws.region ≡ false
  pub at_least : 7 ≤ st.store.recovery_window_days
  pub at_most : st.store.recovery_window_days ≤ 30
  pub dropped_for_at_least :
      7 ≤ (module_config st.base_config st.backplane).deletion_grace_period_days
  pub dropped_for_at_most :
      (module_config st.base_config st.backplane).deletion_grace_period_days ≤ 90
  pub no_longer :
      st.store.recovery_window_days
      ≤ (module_config st.base_config st.backplane).deletion_grace_period_days
  pub catalog : (name : Str) (r : Region) → find_region st.backplane name ≡ ok r → IsValid r

module _ {S : Type 0} (load_client : Str → Action S (SecretsClient S)) (log : Str → S → S)
    (read_file : Str → Str → FileRead) (unmarshal : Str → Result Node)
    (decode : Node → Result RawConfig) (parse_duration : Str → Option ℤ)
    (decode_backplane : Str → Result RawBackplane) where
  -- If the provider gets as far as its key store, with the two configurations that it loads from
  -- one directory, then the base configuration is sound, its cloud is AWS with a region, the key
  -- store's recovery window is 7 to 30 days, the account module drops accounts with a grace period
  -- of 7 to 90 days, which the recovery window does not exceed, and every region that the catalog
  -- finds is valid.
  pub start_up-IsReady :
      (config_dir : Str) (s : S) (st : Started S)
      → (start_up load_client log
          (load_base read_file unmarshal decode parse_duration config_dir)
          (load read_file decode_backplane config_dir)
          s).0
        ≡ running st
      → IsReady st
  unfolding recovery_window module_config
  start_up-IsReady config_dir s st h =
      let (c, b, o) = start_up_running load_client log _ _ s st h in
      let (aws, placed, window) =
        open_key_store_running load_client log st.base_config s st.store o in
      let sound =
        load_base-IsSound read_file unmarshal decode parse_duration config_dir st.base_config c in
      record {
        sound = sound;
        on_aws = (str_beq_iff st.base_config.cloud_provider (text "aws")).0 aws;
        placed = placed;
        at_least = ground (arith, window, sound.shortest);
        at_most = ground (arith, window);
        dropped_for_at_least = sound.shortest;
        dropped_for_at_most = sound.longest;
        no_longer = ground (arith, window);
        catalog =
            λ name r f. load-IsValid read_file decode_backplane config_dir st.backplane name r b f;
      }
