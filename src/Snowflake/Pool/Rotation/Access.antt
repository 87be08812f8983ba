-- ===== src/Snowflake/Pool/Rotation/Access.antt =====
-- internal/snowflake/pool/rotate.go: the keys of a user over a rotation.
use yukimi.Results.{Result-cases, ok_inj, err-not-ok}
use yukimi.Snowflake.Pool.Backend.{PoolBackend}
use yukimi.Snowflake.Pool.Rotation.Description.{first_row, second_row, Lists, scan_rows-Lists}
use yukimi.Snowflake.Pool.Rotation.{
  rsa_public_key_slot, rsa_public_key_2_slot, Fingerprints, scan_rows, choose_slot, desc_user_sql,
  alter_user_sql, target_slot, push, store, pick, generate, rotate_credential,
}
use yukimi.Account.ResourceData.{Db}
use yukimi.Secrets.Identifier.{Identifier}
use yukimi.Secrets.Credentials.{Credentials}
use yukimi.Effects.{Action, proceed, lift, rename_ok}
use yukimi.Base.{
  if◌then◌else◌, Bool-cases, Str, text, str_beq, str_beq_iff, ◌≡◌, refl, sym, ap, subst, ◌∙◌, ◌⊎◌,
  inl, inr, List, [],
}
use yukimi.Errors.{Error, Result, ok, err}

-- The fingerprints of the stored credential's key and of the keys in the user's two slots.
pub record Keyring : Type 0 where
  pub stored : Str
  pub slots : Fingerprints

-- The stored credential is in one of the slots, so that it opens a connection.
abbrev pub CanConnect : Keyring → Type 0
CanConnect k = (k.slots.0 ≡ k.stored) ⊎ (k.slots.1 ≡ k.stored)

abbrev pub put_slot : Str → Str → Fingerprints → Fingerprints
put_slot slot fingerprint (slot1, slot2) =
    if str_beq slot (text "RSA_PUBLIC_KEY")
    then (fingerprint, slot2)
    else if str_beq slot (text "RSA_PUBLIC_KEY_2")
    then (slot1, fingerprint)
    else (slot1, slot2)

abbrev pub IsSlot : Str → Type 0
IsSlot slot = (slot ≡ text "RSA_PUBLIC_KEY") ⊎ (slot ≡ text "RSA_PUBLIC_KEY_2")

-- The documented behaviour of the calls of a rotation of one user's credential: DESC USER reports
-- the fingerprints in the two slots, one row for each, ALTER USER sets the named one, and has where it succeeds; the store takes the update
-- where it succeeds and only there; the rest change neither.
pub record IsUserBackend {W : Type 0} (b : PoolBackend W) (db : Db) (id : Identifier)
    (username : Str) (ring : W → Keyring) (fingerprint : Credentials → Str) : Type 0 where
  pub desc_keeps : (w : W) → ring (b.query_rows db (desc_user_sql username) w).1 ≡ ring w
  pub desc_reads :
      (w : W) (rows : List (List Str))
      → (b.query_rows db (desc_user_sql username) w).0 ≡ ok rows
      → Lists first_row (ring w).slots.0 rows × Lists second_row (ring w).slots.1 rows
  pub generate_keeps : (w : W) → ring (b.new_credentials username w).1 ≡ ring w
  pub alter_sets :
      (w : W) (slot : Str) (c : Credentials)
      → IsSlot slot
      → (b.exec_context db (alter_user_sql username slot c.public_key) w).0 ≡ ok tt
      → ring (b.exec_context db (alter_user_sql username slot c.public_key) w).1
        ≡ record (ring w) { slots = put_slot slot (fingerprint c) (ring w).slots }
  -- A failed ALTER USER may have been carried out.
  pub alter_may_set :
      (w : W) (slot : Str) (c : Credentials)
      → IsSlot slot
      → (ring (b.exec_context db (alter_user_sql username slot c.public_key) w).1 ≡ ring w)
        ⊎ (ring (b.exec_context db (alter_user_sql username slot c.public_key) w).1
            ≡ record (ring w) { slots = put_slot slot (fingerprint c) (ring w).slots })
  pub update_stores :
      (w : W) (c : Credentials)
      → (b.update_credentials id c w).0 ≡ ok tt
      → ring (b.update_credentials id c w).1 ≡ record (ring w) { stored = fingerprint c }
  pub update_keeps :
      (w : W) (c : Credentials) (e : Error)
      → (b.update_credentials id c w).0 ≡ err e
      → ring (b.update_credentials id c w).1 ≡ ring w

-- What holds after a first step whether it fails or not, and after the second one.
proceed-Holds :
    {S A B : Type 0} (P : S → Type 0) (r : Result A × S) (f : A → Action S B)
    → ((e : Error) → r.0 ≡ err e → P r.1)
    → ((a : A) → r.0 ≡ ok a → P (f a r.1).1)
    → P (proceed r f).1
proceed-Holds P (ok a, s) f failing going = going a refl
proceed-Holds P (err e, s) f failing going = failing e refl

-- A slot that may be written: with any new key in it, the key in use is still in one of the two,
-- and so is the new one.
abbrev Safe : Str → Str → Fingerprints → Type 0
Safe current slot slots =
    IsSlot slot
    × ((fresh : Str)
        → (((put_slot slot fresh slots).0 ≡ current) ⊎ ((put_slot slot fresh slots).1 ≡ current))
          × (((put_slot slot fresh slots).0 ≡ fresh) ⊎ ((put_slot slot fresh slots).1 ≡ fresh)))

choose_slot-Safe :
    (username current slot : Str) (slots : Fingerprints)
    → choose_slot username current slots ≡ ok slot
    → Safe current slot slots
unfolding choose_slot str_beq text
choose_slot-Safe username current slot (slot1, slot2) = elim (Bool-cases (str_beq slot1 current)) [
  | inl k ↦ rw k (λ h.
      subst (λ t. Safe current t (slot1, slot2)) (ok_inj rsa_public_key_2_slot slot h)
        (inr refl, λ fresh. (inl ((str_beq_iff slot1 current).0 k), inr refl)))
  | inr n ↦ elim (Bool-cases (str_beq slot2 current)) [
    | inl k ↦
        rw (n, k)
          (λ h.
            subst (λ t. Safe current t (slot1, slot2)) (ok_inj rsa_public_key_slot slot h)
              (inl refl, λ fresh. (inr ((str_beq_iff slot2 current).0 k), inl refl)))
    | inr k ↦ rw (n, k) (λ h. err-not-ok h)
  ]
]

module _ {W : Type 0} (b : PoolBackend W) (db : Db) (id : Identifier) (username : Str)
    (ring : W → Keyring) (fingerprint : Credentials → Str)
    (law : IsUserBackend b db id username ring fingerprint) where
  store-CanConnect :
      (slot : Str) (fresh : Credentials) (w w1 : W)
      → Safe (ring w).stored slot (ring w).slots
      → ring w1 ≡ record (ring w) { slots = put_slot slot (fingerprint fresh) (ring w).slots }
      → CanConnect (ring (b.update_credentials id fresh w1).1)
  store-CanConnect slot fresh w w1 safe h =
      elim (Result-cases (b.update_credentials id fresh w1).0) [
        | inl (u, k) ↦
            subst CanConnect
              (sym (
                law.update_stores w1 fresh k
                ∙ ap (λ (k : Keyring). record k { stored = fingerprint fresh }) h))
              (safe.1 (fingerprint fresh)).1
        | inr (e, k) ↦
            subst CanConnect (sym (law.update_keeps w1 fresh e k ∙ h))
              (safe.1 (fingerprint fresh)).0
      ]

  push_and_store-CanConnect :
      (slot : Str) (fresh : Credentials) (w : W)
      → CanConnect (ring w)
      → Safe (ring w).stored slot (ring w).slots
      → CanConnect
          (ring (proceed (push b db username slot fresh w) (λ _. store b id username fresh)).1)
  push_and_store-CanConnect slot fresh w c safe =
      proceed-Holds (λ w. CanConnect (ring w)) (push b db username slot fresh w)
        (λ _. store b id username fresh)
        (λ e h. elim (law.alter_may_set w slot fresh safe.0) [
          | inl k ↦ subst CanConnect (sym k) c
          | inr k ↦ subst CanConnect (sym k) (safe.1 (fingerprint fresh)).0
        ])
        (λ u h. store-CanConnect slot fresh w (push b db username slot fresh w).1 safe (
          law.alter_sets w slot fresh safe.0 (
            rename_ok _ (b.exec_context db (alter_user_sql username slot fresh.public_key) w).0 tt
              h)))

  target_slot-Safe :
      (current slot : Str) (w : W)
      → (target_slot b db username current w).0 ≡ ok slot
      → Safe current slot (ring w).slots
  unfolding target_slot
  target_slot-Safe current slot w =
      elim (Result-cases (b.query_rows db (desc_user_sql username) w).0) [
        | inl (rows, k) ↦ rw k (λ h.
            subst (Safe current slot)
              (scan_rows-Lists rows (ring w).slots (law.desc_reads w rows k).0
                (law.desc_reads w rows k).1)
              (choose_slot-Safe username current slot (scan_rows rows ([], [])) h))
        | inr (e, k) ↦ rw k (λ h. err-not-ok h)
      ]

  target_slot_keeps :
      (current : Str) (w : W) → ring (target_slot b db username current w).1 ≡ ring w
  unfolding target_slot
  target_slot_keeps current w =
      proceed-Holds (λ w'. ring w' ≡ ring w) (b.query_rows db (desc_user_sql username) w)
        (λ rows. lift (choose_slot username current (scan_rows rows ([], []))))
        (λ e h. law.desc_keeps w) (λ rows h. law.desc_keeps w)

  -- Over calls with the documented behaviour, where the key in use is the stored one and stands in
  -- one of the user's two slots, the stored credential's key stands in one of them after a
  -- rotation, whichever of its steps fails.
  pub rotate_credential-CanConnect :
      (key : b.PrivateKey) (w : W)
      → b.public_key_fingerprint key ≡ (ring w).stored
      → CanConnect (ring w)
      → CanConnect (ring (rotate_credential b db id username key w).1)
  unfolding rotate_credential
  rotate_credential-CanConnect key w same c =
      let current = b.public_key_fingerprint key in
      let w1 = (pick b db username key w).1 in
      let kept = target_slot_keeps current w in
      proceed-Holds (λ w. CanConnect (ring w)) (pick b db username key w)
        (λ slot w.
          proceed (generate b username w)
            (λ fresh w. proceed (push b db username slot fresh w) (λ _. store b id username fresh)))
        (λ e h. subst CanConnect (sym kept) c)
        (λ slot h.
          let generated = law.generate_keeps w1 ∙ kept in
          let safe =
            subst (λ t. Safe t slot (ring w).slots) same
              (target_slot-Safe current slot w
                (rename_ok _ (target_slot b db username current w).0 slot h)) in
          proceed-Holds (λ w. CanConnect (ring w)) (generate b username w1)
            (λ fresh w. proceed (push b db username slot fresh w) (λ _. store b id username fresh))
            (λ e k. subst CanConnect (sym generated) c)
            (λ fresh k.
              push_and_store-CanConnect slot fresh (generate b username w1).1
                (subst CanConnect (sym generated) c)
                (subst (λ (r : Keyring). Safe r.stored slot r.slots) (sym generated) safe)))
