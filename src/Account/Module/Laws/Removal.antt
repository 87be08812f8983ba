-- ===== src/Account/Module/Laws/Removal.antt =====
-- teardown.go: drop the account, evict its connection, delete its credential, in that order.
use yukimi.Account.Module.Drop.{drop_account, delete_credential, forget_account, teardown}
use yukimi.Account.Module.Existing.{Platform, ModuleConfig}
use yukimi.Account.ResourceData.{ResourceData}
use yukimi.Apis.Crossplane.{Crossplane}
use yukimi.Effects.{Action, proceed}
use yukimi.Base.{
  if◌then◌else◌, Bool-cases, is_empty, ◌≡◌, refl, sym, ap, ◌∙◌, inl, inr, Bool, true, false, ◌||◌,
  arith,
}
use yukimi.Errors.{Error, Result, ok, err}

abbrev pub succeeded : {A : Type 0} → Result A → Bool
succeeded (ok a) = true
succeeded (err e) = false

module _ {xp : Crossplane} {W : Type 0} (p : Platform W) (m : ModuleConfig) where
  drop_account_cr : (d : ResourceData xp W) → (drop_account p m d).1.cr ≡ d.cr
  unfolding drop_account
  drop_account_cr d = ground arith

  delete_credential_cr : (d : ResourceData xp W) → (delete_credential p m d).1.cr ≡ d.cr
  unfolding delete_credential
  delete_credential_cr d = ground arith

  teardown_eq :
      (d : ResourceData xp W)
      → teardown p m d ≡ (
          if is_empty d.cr.status.account_locator
          then delete_credential p m d
          else proceed (drop_account p m d) (λ _ d'. delete_credential p m (forget_account p m d')))
  unfolding teardown
  teardown_eq d = refl

  teardown_absent :
      (d : ResourceData xp W)
      → is_empty d.cr.status.account_locator ≡ true
      → teardown p m d ≡ delete_credential p m d
  teardown_absent d h = rw (teardown_eq d, h) refl

  teardown_present :
      (d : ResourceData xp W)
      → is_empty d.cr.status.account_locator ≡ false
      → teardown p m d
        ≡ proceed (drop_account p m d) (λ _ d'. delete_credential p m (forget_account p m d'))
  teardown_present d h = rw (teardown_eq d, h) refl

  proceed_err :
      {B : Type 0} {r : Result (Unit {0}) × ResourceData xp W} {e : Error}
      (f : Unit {0} → Action (ResourceData xp W) B)
      → r.0 ≡ err e
      → proceed r f ≡ (err e, r.1)
  proceed_err f k = ground arith

  -- Where there is a locator and DROP ACCOUNT fails, teardown ends there: its error and the state
  -- it leaves are those of the drop, and the resource, its locator included, is as before.
  pub teardown_drop_failed :
      (d : ResourceData xp W) (e : Error)
      → is_empty d.cr.status.account_locator ≡ false
      → (drop_account p m d).0 ≡ err e
      → (teardown p m d ≡ (err e, (drop_account p m d).1)) × ((teardown p m d).1.cr ≡ d.cr)
  teardown_drop_failed d e h k =
      let t =
        teardown_present d h
        ∙ proceed_err (λ _ d'. delete_credential p m (forget_account p m d')) k in
      (t, ap (λ x. x.1.cr) t ∙ drop_account_cr d)

  dropped_locator :
      (d : ResourceData xp W) (r : Result (Unit {0}) × ResourceData xp W)
      → is_empty r.1.cr.status.account_locator ≡ false
      → is_empty
          (proceed r
            (λ _ d'. delete_credential p m (forget_account p m d'))).1.cr.status.account_locator
        ≡ succeeded r.0
  unfolding forget_account
  dropped_locator d (ok t, d') h =
      ap (λ c. is_empty c.status.account_locator) (delete_credential_cr (forget_account p m d'))
  dropped_locator d (err e, d') h = h

  -- After teardown the locator is empty exactly when it was before or DROP ACCOUNT succeeded,
  -- whether the credential could then be deleted or not.
  pub locator-teardown :
      (d : ResourceData xp W)
      → is_empty (teardown p m d).1.cr.status.account_locator
        ≡ is_empty d.cr.status.account_locator || succeeded (drop_account p m d).0
  locator-teardown d = elim (Bool-cases (is_empty d.cr.status.account_locator)) [
    | inl h ↦
        ap (λ x. is_empty x.1.cr.status.account_locator) (teardown_absent d h)
        ∙ ap (λ c. is_empty c.status.account_locator) (delete_credential_cr d)
        ∙ rw h refl
    | inr h ↦
        ap (λ x. is_empty x.1.cr.status.account_locator) (teardown_present d h)
        ∙ dropped_locator d (drop_account p m d)
            (ap (λ c. is_empty c.status.account_locator) (drop_account_cr d) ∙ h)
        ∙ sym (rw h refl)
  ]

  dropped_deletion_timestamp :
      (d : ResourceData xp W) (r : Result (Unit {0}) × ResourceData xp W)
      → (proceed r (λ _ d'. delete_credential p m (forget_account p m d'))).1.cr.deletion_timestamp
        ≡ r.1.cr.deletion_timestamp
  unfolding forget_account
  dropped_deletion_timestamp d (ok t, d') =
      ap (λ c. c.deletion_timestamp) (delete_credential_cr (forget_account p m d'))
  dropped_deletion_timestamp d (err e, d') = refl

  pub deletion_timestamp-teardown :
      (d : ResourceData xp W) → (teardown p m d).1.cr.deletion_timestamp ≡ d.cr.deletion_timestamp
  deletion_timestamp-teardown d = elim (Bool-cases (is_empty d.cr.status.account_locator)) [
    | inl h ↦
        ap (λ x. x.1.cr.deletion_timestamp) (teardown_absent d h)
        ∙ ap (λ c. c.deletion_timestamp) (delete_credential_cr d)
    | inr h ↦
        ap (λ x. x.1.cr.deletion_timestamp) (teardown_present d h)
        ∙ dropped_deletion_timestamp d (drop_account p m d)
        ∙ ap (λ c. c.deletion_timestamp) (drop_account_cr d)
  ]
