-- ===== src/Account/Module/Laws/Resumption.antt =====
-- apply.go: whose credential a create may take up again.
use yukimi.Account.Module.Create.{
  resume_clock_skew_buffer, foreign_secret, own_attempt, resume_crashed_create,
}
use yukimi.Account.Module.Existing.{Platform}
use yukimi.Account.Module.Laws.Removal.{succeeded}
use yukimi.Account.ResourceData.{ResourceData, on_world}
use yukimi.Secrets.Identifier.{Identifier}
use yukimi.Secrets.Credentials.{Credentials}
use yukimi.Apis.Crossplane.{Crossplane}
use yukimi.Base.{ltb, leb, if◌then◌else◌, Str, ℕ, ◌+◌, ◌≤◌, ◌≡◌, refl, ◌↔◌, arith}
use yukimi.Errors.{Error, Result, ok, err}

own_attempt_accepts :
    (show : ℕ → Str) (created_at : ℕ) (create_error : Error) (creds : Credentials)
    → (succeeded (own_attempt show created_at create_error creds)
        ≡ leb created_at (creds.rotated_at + resume_clock_skew_buffer))
      × ((own_attempt show created_at create_error creds ≡ ok creds)
          ↔ (created_at ≤ creds.rotated_at + resume_clock_skew_buffer))
unfolding own_attempt
own_attempt_accepts show created_at create_error creds =
    older (creds.rotated_at + resume_clock_skew_buffer)
  where
    older :
        (n : ℕ)
        → let r : Result Credentials =
            if ltb n created_at
            then err (foreign_secret show creds created_at create_error)
            else ok creds in
          (succeeded r ≡ leb created_at n) × ((r ≡ ok creds) ↔ (created_at ≤ n))
    older n = ground arith

module _ {xp : Crossplane} {W : Type 0} (p : Platform W) where
  -- Where the credential of an earlier attempt can be read, a create takes it up again exactly
  -- when it was written no more than five minutes before the resource was created: then the
  -- credential that was read is its result, unchanged, and otherwise it fails. Nothing but the
  -- world in which the credential was read is changed.
  pub succeeded-resume_crashed_create :
      (id : Identifier) (created_at : ℕ) (create_error : Error) (creds : Credentials)
      (d : ResourceData xp W) (w : W)
      → p.keys.get_credentials id d.world ≡ (ok creds, w)
      → (succeeded (resume_crashed_create p id created_at create_error d).0
          ≡ leb created_at (creds.rotated_at + 300000000000))
        × (((resume_crashed_create p id created_at create_error d).0 ≡ ok creds)
            ↔ (created_at ≤ creds.rotated_at + 300000000000))
        × ((resume_crashed_create p id created_at create_error d).1 ≡ record d { world = w })
  unfolding resume_crashed_create on_world
  succeeded-resume_crashed_create id created_at create_error creds d w h =
      let accepts = own_attempt_accepts p.show_time created_at create_error creds in
      (rw h accepts.0, rw h accepts.1, rw h refl)
