-- ===== src/Config/Base/Protection.antt =====
-- Deletion protection in internal/config/base/base.go.
use yukimi.Base.{Bool-cases, Str, text, ◌≡◌, sym, ap, ◌∙◌, inl, inr, true, Option, none, List}
use yukimi.Errors.{Result, ok}
use yukimi.Results.{Result-cases, bind_ok, then_ok, ok_inj, err-not-ok}
use yukimi.Config.Files.{FileRead, content}
use yukimi.Config.Base.Resolve.{ℤ, resolve_int_in_range}
use yukimi.Config.Base.Document.{Node, has_document, detect_cloud_sections}
use yukimi.Config.Base.Settings.{DeletionSettings, BaseConfig, RawDeletion, RawConfig, zero_config}
use yukimi.Config.Base.Shape.{one_section, check_snowflake, check_aws}
use yukimi.Config.Base.{
  or_default, snowflake_settings, secrets_settings, deletion_settings, file_content, unparsed,
  raw_config, validated, load_base,
}

deletion_settings_protects :
    (raw : RawDeletion) (s : DeletionSettings)
    → raw.protection ≡ none
    → deletion_settings raw ≡ ok s
    → s.protection ≡ true
unfolding deletion_settings
deletion_settings_protects raw s n h =
    let (days, k, e) = bind_ok (resolve_int_in_range _ raw.grace_period_days _ _ _) _ h in
    ap (λ t. t.protection) (sym (ok_inj _ s e)) ∙ ap (or_default true) n

validated_protects :
    (parse_duration : Str → Option ℤ) (sections : List Str) (raw : RawConfig) (config : BaseConfig)
    → raw.deletion.protection ≡ none
    → validated parse_duration sections raw ≡ ok config
    → config.deletion.protection ≡ true
unfolding validated
validated_protects parse_duration sections raw config n h =
    let (section, k1, h1) = bind_ok (one_section sections) _ h in
    let (shaped, h2) = then_ok (check_snowflake raw.snowflake) _ h1 in
    let (aws, h3) = then_ok (check_aws raw.aws) _ h2 in
    let (snowflake, k2, h4) = bind_ok (snowflake_settings parse_duration raw.snowflake) _ h3 in
    let (secrets, k3, h5) = bind_ok (secrets_settings parse_duration raw.secrets) _ h4 in
    let (deletion, k4, e) = bind_ok (deletion_settings raw.deletion) _ h5 in
    ap (λ c. c.deletion.protection) (sym (ok_inj _ config e))
    ∙ deletion_settings_protects raw.deletion deletion n k4

raw_config_silent :
    (decode : Node → Result RawConfig) (root : Node) (raw : RawConfig)
    → ((r : RawConfig) → decode root ≡ ok r → r.deletion.protection ≡ none)
    → raw_config decode root ≡ ok raw
    → raw.deletion.protection ≡ none
unfolding raw_config zero_config
raw_config_silent decode root raw silent = elim (Bool-cases (has_document root)) [
  | inl k ↦ rw k (elim (Result-cases (decode root)) [
    | inl (r, l) ↦ rw l (λ h. ap (λ c. c.deletion.protection) (sym (ok_inj r raw h)) ∙ silent r l)
    | inr (e, l) ↦ rw l (λ h. err-not-ok h)
  ])
  | inr k ↦ rw k (λ h. ap (λ c. c.deletion.protection) (sym (ok_inj _ raw h)))
]

module _ (read_file : Str → Str → FileRead) (unmarshal : Str → Result Node)
    (decode : Node → Result RawConfig) (parse_duration : Str → Option ℤ) where
  pub load_base_protects :
      (config_dir bytes : Str) (root : Node) (config : BaseConfig)
      → read_file config_dir (text "base.yaml") ≡ content bytes
      → unmarshal bytes ≡ ok root
      → ((raw : RawConfig) → decode root ≡ ok raw → raw.deletion.protection ≡ none)
      → load_base read_file unmarshal decode parse_duration config_dir ≡ ok config
      → config.deletion.protection ≡ true
  unfolding load_base file_content unparsed
  load_base_protects config_dir bytes root config f u silent =
      rw (f, u)
        (λ h.
          let (raw, k, h') = bind_ok (raw_config decode root) _ h in
          validated_protects parse_duration (detect_cloud_sections root) raw config
            (raw_config_silent decode root raw silent k) h')
