-- ===== src/Secrets/Manager/Coherence.antt =====
-- internal/secrets/manager.go: the cache and the backend behind it, which only this manager writes.
use yukimi.Results.{Result-cases}
use yukimi.Errors.{Error, Result, ok, err}
use yukimi.Base.{
  ltb, if◌then◌else◌, Bool-cases, Option-cases, ◌==◌, Str, get, get-delete, get-put, ℕ, ◌+◌, ◌≡◌,
  refl, sym, subst, ◌∙◌, inl, inr, Bool, true, false, ◌||◌, some, List, [], ◌∷◌, arith,
}
use yukimi.Secrets.Identifier.{identifier_eq, Identifier, identifier_beq_iff}
use yukimi.Secrets.KeyStore.Contract.{Slot, live, IsKeyStore}
use yukimi.Secrets.Manager.{
  CacheEntry, Backend, KeyManager, new_key_manager, invalidate, remember, fetch, cached_or, get_raw,
  create_raw, update_raw, delete_credentials,
}

-- What the cache holds at an identifier is what the backend holds there.
pub record IsCoherent {S : Type 0} (slot : S → Identifier → Slot) (j : Identifier)
    (m : KeyManager S) : Type 0 where
  pub agrees :
      (entry : CacheEntry)
      → get j m.entries ≡ some entry
      → slot m.backend j ≡ live entry.value entry.modified_at

is_ok : {A : Type 0} → Result A → Bool
is_ok (ok a) = true
is_ok (err e) = false

pub data Call : Type 0 where
  reads deletes forgets : Identifier → Call
  creates updates : Identifier → Str → Call

module _ {S : Type 0} (b : Backend S) where
  -- The calls that reach the backend, with the value that a write stores.
  unfoldable pub step : KeyManager S → Call → KeyManager S
  step m (reads id) = (get_raw b id m).1
  step m (creates id v) = (create_raw b id v m).1
  step m (updates id v) = (update_raw b id v m).1
  step m (deletes id) = (delete_credentials b id m).1
  step m (forgets id) = invalidate id m

  unfoldable pub run : KeyManager S → List Call → KeyManager S
  unfolding step
  run m [] = m
  run m (c ∷ calls) = run (step m c) calls

  -- A write of the store that fails may have been carried out, so that nothing is known of what
  -- is cached at its identifier until the next invalidation. A create that fails leaves a value
  -- that is there as it was.
  unfoldable pub certain_after : Identifier → KeyManager S → Call → Bool → Bool
  unfolding is_ok
  certain_after j m (reads id) u = u
  certain_after j m (creates id v) u =
      if id == j then u || is_ok (b.store.create_value id v m.backend).0 else u
  certain_after j m (updates id v) u =
      if id == j then is_ok (b.store.update_value id v m.backend).0 else u
  certain_after j m (deletes id) u =
      if id == j then is_ok (b.store.delete_value id m.backend).0 else u
  certain_after j m (forgets id) u = if id == j then true else u

  unfoldable pub is_certain : Identifier → Bool → KeyManager S → List Call → Bool
  unfolding certain_after is_ok
  is_certain j u m [] = u
  is_certain j u m (c ∷ calls) = is_certain j (certain_after j m c u) (step m c) calls

module _ {S : Type 0} (b : Backend S) (slot : S → Identifier → Slot)
    (law : IsKeyStore slot b.store) where
  -- Reading: the cache stays coherent, and what is returned is what the backend holds.
  get_raw_current :
      (id : Identifier) (m : KeyManager S) (v : Str) (t : ℕ)
      → IsCoherent slot id m
      → (get_raw b id m).0 ≡ ok (v, t)
      → slot m.backend id ≡ live v t
  unfolding get_raw
  get_raw_current id m v t c h = elim (Option-cases (get id m.entries)) [
    | inl e ↦ ground (arith, law.get_live id m.backend v t)
    | inr (entry, e) ↦ ground (arith, law.get_live id m.backend v t, c.agrees entry)
  ]

  module _ (j id : Identifier) (m : KeyManager S) where
    invalidate-IsCoherent :
        (u : Bool) (s : S)
        → (if id == j then true else u) ≡ true
        → (u ≡ true → IsCoherent slot j m)
        → ((id == j) ≡ false → slot s j ≡ slot m.backend j)
        → IsCoherent slot j (invalidate id (record m { backend = s }))
    unfolding invalidate
    invalidate-IsCoherent u s h c keep = elim (Bool-cases (id == j)) [
      | inl k ↦ record { agrees = λ entry e. ground (arith, get-delete id j m.entries) }
      | inr k ↦
          let known : IsCoherent slot j m = c (ground (arith, h, k)) in
          record {
            agrees =
                λ entry e. ground (arith, get-delete id j m.entries, known.agrees entry, keep k);
          }
    ]

    unchanged-IsCoherent :
        (s : S)
        → IsCoherent slot j m
        → slot s j ≡ slot m.backend j
        → IsCoherent slot j (record m { backend = s })
    unchanged-IsCoherent s c keep = record { agrees = λ entry e. keep ∙ c.agrees entry e }

    -- After a write that failed.
    uncertain-IsCoherent :
        (u : Bool) (s : S)
        → (if id == j then false else u) ≡ true
        → (u ≡ true → IsCoherent slot j m)
        → ((id == j) ≡ false → slot s j ≡ slot m.backend j)
        → IsCoherent slot j (record m { backend = s })
    uncertain-IsCoherent u s h c keep = elim (Bool-cases (id == j)) [
      | inl k ↦ impossible (ground (arith, h, k))
      | inr k ↦ unchanged-IsCoherent s (c (ground (arith, h, k))) (keep k)
    ]
      where
        impossible : {A : Type 0} → false ≡ true → A
        impossible e = ground arith

    remember-IsCoherent :
        (s : S) (v : Str) (t : ℕ)
        → IsCoherent slot j m
        → slot m.backend id ≡ live v t
        → slot s j ≡ slot m.backend j
        → IsCoherent slot j (remember b id (v, t) (record m { backend = s })).1
    unfolding remember
    remember-IsCoherent s v t c h keep = record {
      agrees = λ entry e.
          let law =
            get-put id j (record { value = v; modified_at = t; expires = b.clock s + m.ttl })
              m.entries in
          ground (arith, law, identifier_beq_iff id j, c.agrees entry, keep, h);
    }

    fetch-IsCoherent : IsCoherent slot j m → IsCoherent slot j (fetch b id m).1
    unfolding fetch
    fetch-IsCoherent c = elim (Result-cases (b.store.get_value id m.backend).0) [
      | inl ((v, t), e) ↦
          rw (e, fetch)
            (remember-IsCoherent (b.store.get_value id m.backend).1 v t c
              (law.get_live id m.backend v t e) (law.get_keeps id j m.backend))
      | inr (x, e) ↦
          rw (e, fetch)
            (unchanged-IsCoherent (b.store.get_value id m.backend).1 c
              (law.get_keeps id j m.backend))
    ]

    get_raw-IsCoherent : IsCoherent slot j m → IsCoherent slot j (get_raw b id m).1
    unfolding get_raw cached_or
    get_raw-IsCoherent c = elim (Option-cases (get id m.entries)) [
      | inl e ↦ rw (e, get_raw) (fetch-IsCoherent c)
      | inr (entry, e) ↦ elim (Bool-cases (ltb (b.clock m.backend) entry.expires)) [
        | inl fresh ↦ rw (e, get_raw) (rw (fresh, cached_or) c)
        | inr old ↦ rw (e, get_raw) (rw (old, cached_or) (fetch-IsCoherent c))
      ]
    ]

    -- A create that fails leaves a live value as it was.
    refused-IsCoherent :
        (v : Str) (x : Error)
        → (b.store.create_value id v m.backend).0 ≡ err x
        → IsCoherent slot j m
        → IsCoherent slot j (record m { backend = (b.store.create_value id v m.backend).1 })
    refused-IsCoherent v x e c = elim (Bool-cases (id == j)) [
      | inl k ↦ record {
        agrees = λ entry h.
            let same : id ≡ j = (identifier_beq_iff id j).0 k in
            let held =
              subst (λ i. slot m.backend i ≡ live entry.value entry.modified_at) (sym same)
                (c.agrees entry h) in
            subst
              (λ i.
                slot (b.store.create_value id v m.backend).1 i ≡ live entry.value entry.modified_at)
              same (law.create_untouched id v m.backend x entry.value entry.modified_at e held);
      }
      | inr k ↦
          unchanged-IsCoherent (b.store.create_value id v m.backend).1 c
            (law.create_other id j v m.backend k)
    ]

    create_raw-IsCoherent :
        (v : Str) (u : Bool)
        → certain_after b j m (creates id v) u ≡ true
        → (u ≡ true → IsCoherent slot j m)
        → IsCoherent slot j (create_raw b id v m).1
    unfolding create_raw certain_after is_ok
    create_raw-IsCoherent v u h c = elim (Result-cases (b.store.create_value id v m.backend).0) [
      | inl (r, e) ↦
          rw (e, create_raw)
            (invalidate-IsCoherent u (b.store.create_value id v m.backend).1 (ground (arith, h, e))
              c (law.create_other id j v m.backend))
      | inr (x, e) ↦ rw (e, create_raw) (refused-IsCoherent v x e (c (ground (arith, h, e))))
    ]

    update_raw-IsCoherent :
        (v : Str) (u : Bool)
        → certain_after b j m (updates id v) u ≡ true
        → (u ≡ true → IsCoherent slot j m)
        → IsCoherent slot j (update_raw b id v m).1
    unfolding update_raw certain_after is_ok
    update_raw-IsCoherent v u h c = elim (Result-cases (b.store.update_value id v m.backend).0) [
      | inl (r, e) ↦
          rw (e, update_raw)
            (invalidate-IsCoherent u (b.store.update_value id v m.backend).1 (ground (arith, h, e))
              c (law.update_other id j v m.backend))
      | inr (x, e) ↦
          rw (e, update_raw)
            (uncertain-IsCoherent u (b.store.update_value id v m.backend).1 (ground (arith, h, e)) c
              (law.update_other id j v m.backend))
    ]

    delete_credentials-IsCoherent :
        (u : Bool)
        → certain_after b j m (deletes id) u ≡ true
        → (u ≡ true → IsCoherent slot j m)
        → IsCoherent slot j (delete_credentials b id m).1
    unfolding delete_credentials certain_after is_ok
    delete_credentials-IsCoherent u h c =
        elim (Result-cases (b.store.delete_value id m.backend).0) [
          | inl (r, e) ↦
              rw (e, delete_credentials)
                (invalidate-IsCoherent u (b.store.delete_value id m.backend).1
                  (ground (arith, h, e)) c (law.delete_other id j m.backend))
          | inr (x, e) ↦
              rw (e, delete_credentials)
                (uncertain-IsCoherent u (b.store.delete_value id m.backend).1 (ground (arith, h, e))
                  c (law.delete_other id j m.backend))
        ]

  step-IsCoherent :
      (j : Identifier) (m : KeyManager S) (c : Call) (u : Bool)
      → certain_after b j m c u ≡ true
      → (u ≡ true → IsCoherent slot j m)
      → IsCoherent slot j (step b m c)
  unfolding step certain_after
  step-IsCoherent j m (reads id) u h k = get_raw-IsCoherent j id m (k h)
  step-IsCoherent j m (creates id v) u h k = create_raw-IsCoherent j id m v u h k
  step-IsCoherent j m (updates id v) u h k = update_raw-IsCoherent j id m v u h k
  step-IsCoherent j m (deletes id) u h k = delete_credentials-IsCoherent j id m u h k
  step-IsCoherent j m (forgets id) u h k = invalidate-IsCoherent j id m u m.backend h k (λ e. refl)

  run-IsCoherent :
      (j : Identifier) (m : KeyManager S) (calls : List Call) (u : Bool)
      → is_certain b j u m calls ≡ true
      → (u ≡ true → IsCoherent slot j m)
      → IsCoherent slot j (run b m calls)
  unfolding run is_certain
  run-IsCoherent j m [] u h k = k h
  run-IsCoherent j m (c ∷ calls) u h k =
      run-IsCoherent j (step b m c) calls (certain_after b j m c u) h
        (λ e. step-IsCoherent j m c u e k)

  new-IsCoherent : (j : Identifier) (s : S) (ttl : ℕ) → IsCoherent slot j (new_key_manager s ttl)
  unfolding get
  new-IsCoherent j s ttl = record { agrees = λ entry e. cc }

  -- Over a backend that a client can rely on, after any history of reads, writes, deletions and
  -- invalidations through one manager, a read that succeeds returns what the backend holds at that
  -- moment, from the cache or not, whatever the lifetime is, provided that no update or deletion
  -- of the identifier failed since it was last written, deleted or invalidated with success. A
  -- write that failed may have been carried out. A failed create does no harm, nor does a failure at
  -- another identifier.
  pub read-run :
      (s : S) (ttl : ℕ) (calls : List Call) (id : Identifier) (v : Str) (t : ℕ)
      → is_certain b id true (new_key_manager s ttl) calls ≡ true
      → (get_raw b id (run b (new_key_manager s ttl) calls)).0 ≡ ok (v, t)
      → slot (run b (new_key_manager s ttl) calls).backend id ≡ live v t
  read-run s ttl calls id v t k h =
      get_raw_current id (run b (new_key_manager s ttl) calls) v t
        (run-IsCoherent id (new_key_manager s ttl) calls true k (λ e. new-IsCoherent id s ttl)) h
