-- ===== src/Controller/AccountReconciler/Default.antt =====
-- Deletion protection, from internal/config/base/base.go to `Delete` of
-- internal/controller/snowflakeaccount/reconciler.go.
use yukimi.Base.{Str, text, ℕ, ◌≡◌, true, Option, none, List, []}
use yukimi.Errors.{Result, ok}
use yukimi.Apis.Crossplane.{Crossplane}
use yukimi.Apis.SnowflakeAccount.{SnowflakeAccount}
use yukimi.Apis.DeletionPermit.{DeletionPermit}
use yukimi.Deletion.Kube.{Kube}
use yukimi.Deletion.Earliest.{NoneAuthorizes}
use yukimi.Account.Module.Existing.{Platform}
use yukimi.Config.Files.{FileRead, content}
use yukimi.Config.Base.Resolve.{ℤ}
use yukimi.Config.Base.Document.{Node}
use yukimi.Config.Base.Settings.{BaseConfig, RawConfig}
use yukimi.Config.Base.{load_base}
use yukimi.Config.Base.Protection.{load_base_protects}
use yukimi.Config.Backplane.{Backplane}
use yukimi.Controller.AccountReconciler.{account_kind, account_reconciler_delete}
use yukimi.Controller.AccountReconciler.Gate.{is_error, delete_unauthorized}
use yukimi.Controller.AccountReconciler.Wiring.{connect_external}

module _ (read_file : Str → Str → FileRead) (unmarshal : Str → Result Node)
    (decode : Node → Result RawConfig) (parse_duration : Str → Option ℤ) where
  -- Deletion protection is on unless base.yaml turns it off. With the controller that is put
  -- together from a loaded configuration, and a file from which no `deletion.protection` is decoded, a delete
  -- for which the permits can be listed, and none of them is active and names the account, fails and
  -- keeps the account's locator.
  pub delete-load_base :
      {xp : Crossplane} {W : Type 0} (kube : Kube xp W) (p : Platform W) (sha256 : Str → List ℕ)
      (config_dir bytes : Str) (root : Node) (config : BaseConfig) (backplane : Backplane)
      (cr : SnowflakeAccount xp) (w w' : W) (ps : List (DeletionPermit xp))
      → read_file config_dir (text "base.yaml") ≡ content bytes
      → unmarshal bytes ≡ ok root
      → ((raw : RawConfig) → decode root ≡ ok raw → raw.deletion.protection ≡ none)
      → load_base read_file unmarshal decode parse_duration config_dir ≡ ok config
      → kube.list_permits cr.namespace w ≡ (ok ps, w')
      → NoneAuthorizes account_kind cr.name ps
      → (is_error
            (account_reconciler_delete (connect_external kube p sha256 config backplane) cr w).0
          ≡ true)
        × ((account_reconciler_delete
              (connect_external kube p sha256 config backplane)
              cr
              w).1.status.account_locator
            ≡ cr.status.account_locator)
  unfolding connect_external
  delete-load_base kube p sha256 config_dir bytes root config backplane cr w w' ps f u silent h k
        n =
      let e = connect_external kube p sha256 config backplane in
      let refused =
        delete_unauthorized e [] cr w w' ps
          (load_base_protects read_file unmarshal decode parse_duration config_dir bytes root config
            f u silent h)
          k n in
      (refused.1, refused.2)
