-- ===== src/Secrets/Aws/Contract.antt =====
-- internal/secrets/aws/keystore.go: what a client relies on, over AWS Secrets Manager.
use yukimi.Base.{
  Bool-cases, Str, str_beq, ℕ, ◌≡◌, ap, ◌∙◌, inl, inr, true, false, ◌||◌, Option, arith,
}
use yukimi.Errors.{Error, invalid_request, resource_not_found, ok, err}
use yukimi.Results.{Result-cases, ok_inj, err-not-ok}
use yukimi.Effects.{rename_ok, rename_err}
use yukimi.Secrets.Identifier.{Identifier}
use yukimi.Secrets.KeyStore.Contract.{Slot, vacant, live, recoverable, is_live, IsKeyStore}
use yukimi.Secrets.Aws.Causes.{
  Cause, SaysDeletion, is_not_found-Cause, aws_is_pending_deletion-Cause,
}
use yukimi.Secrets.Aws.{
  SecretsClient, AwsKeyStore, aws_is_pending_deletion, is_not_found, to_string, to_time, forgive,
  aws_get, aws_create, aws_update, aws_delete, aws_key_store,
}

-- The documented behaviour of Secrets Manager, over what it holds at a name: a call that succeeds
-- does what it is called for, a call changes nothing at other names, and a create that fails
-- leaves a secret that is there as it was. Where DeleteSecret answers that there is no such secret,
-- none is there; where it answers that the request is invalid since a deletion is scheduled, the
-- secret is scheduled for deletion. Nothing is known of any other failure.
pub record IsSecretsManager {S : Type 0} (slot : S → Str → Slot) (client : SecretsClient S)
    : Type 0 where
  pub get_keeps : (n k : Str) (s : S) → slot (client.get_secret_value n s).1 k ≡ slot s k
  pub get_found :
      (n : Str) (s : S) (out : Option Str × Option ℕ)
      → (client.get_secret_value n s).0 ≡ ok out
      → slot s n ≡ live (to_string out.0) (to_time out.1)
  pub create_found :
      (n v : Str) (kms : Option Str) (s : S)
      → (client.create_secret n v kms s).0 ≡ ok tt
      → (slot s n ≡ vacant) × (t : ℕ) × (slot (client.create_secret n v kms s).1 n ≡ live v t)
  pub create_other :
      (n k v : Str) (kms : Option Str) (s : S)
      → str_beq n k ≡ false
      → slot (client.create_secret n v kms s).1 k ≡ slot s k
  pub create_untouched :
      (n v : Str) (kms : Option Str) (s : S) (e : Error) (held : Str) (t : ℕ)
      → (client.create_secret n v kms s).0 ≡ err e
      → slot s n ≡ live held t
      → slot (client.create_secret n v kms s).1 n ≡ live held t
  pub put_found :
      (n v : Str) (s : S)
      → (client.put_secret_value n v s).0 ≡ ok tt
      → (is_live (slot s n) ≡ true)
        × (t : ℕ) × (slot (client.put_secret_value n v s).1 n ≡ live v t)
  pub put_other :
      (n k v : Str) (s : S)
      → str_beq n k ≡ false
      → slot (client.put_secret_value n v s).1 k ≡ slot s k
  pub delete_gone :
      (n : Str) (days : ℕ) (s : S)
      → (client.delete_secret n days s).0 ≡ ok tt
      → is_live (slot (client.delete_secret n days s).1 n) ≡ false
  pub delete_other :
      (n k : Str) (days : ℕ) (s : S)
      → str_beq n k ≡ false
      → slot (client.delete_secret n days s).1 k ≡ slot s k
  pub delete_missing :
      (n : Str) (days : ℕ) (s : S) (e : Error) (m : Str)
      → (client.delete_secret n days s).0 ≡ err e
      → Cause (resource_not_found m) e
      → slot (client.delete_secret n days s).1 n ≡ vacant
  pub delete_pending :
      (n : Str) (days : ℕ) (s : S) (e : Error) (m : Str)
      → (client.delete_secret n days s).0 ≡ err e
      → Cause (invalid_request m) e
      → SaysDeletion m
      → slot (client.delete_secret n days s).1 n ≡ recoverable

module _ {S : Type 0} (slot : S → Str → Slot) (b : AwsKeyStore S)
    (law : IsSecretsManager slot b.client) where
  -- The view by identifiers.
  abbrev pub aws_slot : S → Identifier → Slot
  aws_slot s id = slot s id.value

  aws_get_live :
      (id : Identifier) (s : S) (v : Str) (t : ℕ)
      → (aws_get b id s).0 ≡ ok (v, t)
      → aws_slot s id ≡ live v t
  unfolding aws_get
  aws_get_live id s v t = elim (Result-cases (b.client.get_secret_value id.value s).0) [
    | inl (out, k) ↦ rw k (λ h.
        law.get_found id.value s out k
        ∙ ap (λ (p : Str × ℕ). live p.0 p.1) (ok_inj (to_string out.0, to_time out.1) (v, t) h))
    | inr (e, k) ↦ rw k (λ h. err-not-ok h)
  ]

  aws_get_keeps : (id j : Identifier) (s : S) → aws_slot (aws_get b id s).1 j ≡ aws_slot s j
  unfolding aws_get
  aws_get_keeps id j s = elim (Result-cases (b.client.get_secret_value id.value s).0) [
    | inl (out, k) ↦ rw k (law.get_keeps id.value j.value s)
    | inr (e, k) ↦ rw k (law.get_keeps id.value j.value s)
  ]

  refused_gone :
      (id : Identifier) (s : S) (e : Error)
      → (b.client.delete_secret id.value b.recovery_window_days s).0 ≡ err e
      → is_not_found e || aws_is_pending_deletion e ≡ true
      → is_live (slot (b.client.delete_secret id.value b.recovery_window_days s).1 id.value) ≡ false
  refused_gone id s e k h = elim (Bool-cases (is_not_found e)) [
    | inl missing ↦
        let (m, c) = is_not_found-Cause e missing in
        ap is_live (law.delete_missing id.value b.recovery_window_days s e m k c)
    | inr other ↦
        let (m, c, says) = aws_is_pending_deletion-Cause e (ground (arith, h, other)) in
        ap is_live (law.delete_pending id.value b.recovery_window_days s e m k c says)
  ]

  aws_delete_gone :
      (id : Identifier) (s : S)
      → (aws_delete b id s).0 ≡ ok tt
      → is_live (aws_slot (aws_delete b id s).1 id) ≡ false
  unfolding aws_delete forgive
  aws_delete_gone id s =
      elim (Result-cases (b.client.delete_secret id.value b.recovery_window_days s).0) [
        | inl (u, k) ↦ λ h. law.delete_gone id.value b.recovery_window_days s k
        | inr (e, k) ↦ rw k (λ h. refused_gone id s e k (ground arith))
      ]

  -- Over a service with the documented behaviour, the store on AWS is one that a client can rely on:
  -- a read returns what is there, a create is on a vacant identifier and an update on a live
  -- one, and each leaves the value there, a create that fails leaves a live value as it was, after
  -- a deletion that succeeds nothing live is there, refusals that count as success included, and
  -- no call changes another identifier.
  pub aws-IsKeyStore : IsKeyStore aws_slot (aws_key_store b)
  unfolding aws_key_store aws_create aws_update aws_delete
  aws-IsKeyStore = record {
    get_keeps = aws_get_keeps;
    get_live = aws_get_live;
    create_vacant = λ id v s h. (law.create_found id.value v _ s (rename_ok _ _ tt h)).0;
    create_live =
        λ id v s h. let (a, t, l) = law.create_found id.value v _ s (rename_ok _ _ tt h) in (t, l);
    create_other = λ id j v s h. law.create_other id.value j.value v _ s h;
    create_untouched = λ id v s e held t h.
        let (x, k) = rename_err _ _ e h in law.create_untouched id.value v _ s x held t k;
    update_live =
        λ id v s h. let (a, t, l) = law.put_found id.value v s (rename_ok _ _ tt h) in (t, l);
    update_other = λ id j v s h. law.put_other id.value j.value v s h;
    update_found = λ id v s h. (law.put_found id.value v s (rename_ok _ _ tt h)).0;
    delete_gone = aws_delete_gone;
    delete_other = λ id j s h. law.delete_other id.value j.value b.recovery_window_days s h;
  }
