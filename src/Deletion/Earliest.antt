-- ===== src/Deletion/Earliest.antt =====
-- Which permit `FindActivePermit` returns.
use yukimi.Deletion.Permits.{authorizes, earlier, consider, find_earliest, find_active_permit}
use yukimi.Deletion.Kube.{Kube}
use yukimi.Apis.DeletionPermit.{DeletionPermit}
use yukimi.Apis.Crossplane.{Crossplane}
use yukimi.Base.{
  ltb, Bool-cases, Str, ℕ, ◌+◌, ◌≤◌, ◌≡◌, refl, subst, ◌⊎◌, inl, inr, true, false, Option, none,
  some, List, [], ◌∷◌, ◌++◌, append_assoc, append-nil, arith,
}
use yukimi.Errors.{ok}

module _ {xp : Crossplane} where
  -- Every permit of the list that authorizes was created at the time or later.
  abbrev pub NotBefore : Str → Str → ℕ → List (DeletionPermit xp) → Type 0
  NotBefore kind name t [] = Unit {0}
  NotBefore kind name t (q ∷ qs) =
      (authorizes kind name q ≡ false ⊎ (t ≤ q.creation_timestamp)) × NotBefore kind name t qs

  abbrev pub NoneAuthorizes : Str → Str → List (DeletionPermit xp) → Type 0
  NoneAuthorizes kind name [] = Unit {0}
  NoneAuthorizes kind name (q ∷ qs) = (authorizes kind name q ≡ false) × NoneAuthorizes kind name qs

  -- No permit authorizes, or the one found does, and the ones that do were created after it if
  -- they stand before it in the list and not before it if they stand behind it.
  abbrev pub Earliest : Str → Str → List (DeletionPermit xp) → Option (DeletionPermit xp) → Type 0
  Earliest kind name ps none = NoneAuthorizes kind name ps
  Earliest kind name ps (some p) =
      (before after : List (DeletionPermit xp)) × (ps ≡ before ++ p ∷ after)
      × (authorizes kind name p ≡ true)
      × NotBefore kind name (p.creation_timestamp + 1) before
      × NotBefore kind name p.creation_timestamp after

  NotBefore-snoc :
      (kind name : Str) (t : ℕ) (qs : List (DeletionPermit xp)) (q : DeletionPermit xp)
      → NotBefore kind name t qs
      → (authorizes kind name q ≡ false) ⊎ (t ≤ q.creation_timestamp)
      → NotBefore kind name t (qs ++ q ∷ [])
  NotBefore-snoc kind name t [] q h k = (k, tt)
  NotBefore-snoc kind name t (r ∷ qs) q (g, h) k = (g, NotBefore-snoc kind name t qs q h k)

  NotBefore-weaken :
      (kind name : Str) (t s : ℕ) (qs : List (DeletionPermit xp))
      → s ≤ t
      → NotBefore kind name t qs
      → NotBefore kind name s qs
  NotBefore-weaken kind name t s [] le h = tt
  NotBefore-weaken kind name t s (q ∷ qs) le (inl g, h) =
      (inl g, NotBefore-weaken kind name t s qs le h)
  NotBefore-weaken kind name t s (q ∷ qs) le (inr g, h) =
      (inr (omega arith), NotBefore-weaken kind name t s qs le h)

  NotBefore-append :
      (kind name : Str) (t : ℕ) (qs rs : List (DeletionPermit xp))
      → NotBefore kind name t qs
      → NotBefore kind name t rs
      → NotBefore kind name t (qs ++ rs)
  NotBefore-append kind name t [] rs h k = k
  NotBefore-append kind name t (q ∷ qs) rs (g, h) k = (g, NotBefore-append kind name t qs rs h k)

  NoneAuthorizes-NotBefore :
      (kind name : Str) (t : ℕ) (qs : List (DeletionPermit xp))
      → NoneAuthorizes kind name qs
      → NotBefore kind name t qs
  NoneAuthorizes-NotBefore kind name t [] h = tt
  NoneAuthorizes-NotBefore kind name t (q ∷ qs) (g, h) =
      (inl g, NoneAuthorizes-NotBefore kind name t qs h)

  NoneAuthorizes-snoc :
      (kind name : Str) (qs : List (DeletionPermit xp)) (q : DeletionPermit xp)
      → NoneAuthorizes kind name qs
      → authorizes kind name q ≡ false
      → NoneAuthorizes kind name (qs ++ q ∷ [])
  NoneAuthorizes-snoc kind name [] q h k = (k, tt)
  NoneAuthorizes-snoc kind name (r ∷ qs) q (g, h) k = (g, NoneAuthorizes-snoc kind name qs q h k)

  skipped :
      (kind name : Str) (seen : List (DeletionPermit xp)) (acc : Option (DeletionPermit xp))
      (p : DeletionPermit xp)
      → Earliest kind name seen acc
      → authorizes kind name p ≡ false
      → Earliest kind name (seen ++ p ∷ []) acc
  skipped kind name seen none p h k = NoneAuthorizes-snoc kind name seen p h k
  skipped kind name seen (some q) p (before, after, e, a, b, c) k = (
    before,
    after ++ p ∷ [],
    rw e (append_assoc before (q ∷ after) (p ∷ [])),
    a,
    b,
    NotBefore-snoc kind name q.creation_timestamp after p c (inl k),
  )

  taken :
      (kind name : Str) (seen : List (DeletionPermit xp)) (acc : Option (DeletionPermit xp))
      (p : DeletionPermit xp)
      → Earliest kind name seen acc
      → authorizes kind name p ≡ true
      → Earliest kind name (seen ++ p ∷ []) (earlier acc p)
  unfolding earlier
  taken kind name seen none p h k =
      (seen, [], refl, k, NoneAuthorizes-NotBefore kind name _ seen h, tt)
  taken kind name seen (some q) p (before, after, e, a, b, c) k =
      elim (Bool-cases (ltb p.creation_timestamp q.creation_timestamp)) [
        | inl lt ↦ rw lt (
          seen,
          [],
          refl,
          k,
          rw e (
              NotBefore-append kind name _ before (q ∷ after)
                (NotBefore-weaken kind name _ _ before (ground arith) b)
                (inr (ground arith), NotBefore-weaken kind name _ _ after (ground arith) c)),
          tt,
        )
        | inr ge ↦ rw ge (
          before,
          after ++ p ∷ [],
          rw e (append_assoc before (q ∷ after) (p ∷ [])),
          a,
          b,
          NotBefore-snoc kind name q.creation_timestamp after p c (inr (ground arith)),
        )
      ]

  considered :
      (kind name : Str) (seen : List (DeletionPermit xp)) (acc : Option (DeletionPermit xp))
      (p : DeletionPermit xp)
      → Earliest kind name seen acc
      → Earliest kind name (seen ++ p ∷ []) (consider kind name acc p)
  unfolding consider
  considered kind name seen acc p h = elim (Bool-cases (authorizes kind name p)) [
    | inl hit ↦ rw hit (taken kind name seen acc p h hit)
    | inr miss ↦ rw miss (skipped kind name seen acc p h miss)
  ]

  find_earliest-Earliest :
      (kind name : Str) (seen ps : List (DeletionPermit xp)) (acc : Option (DeletionPermit xp))
      → Earliest kind name seen acc
      → Earliest kind name (seen ++ ps) (find_earliest kind name acc ps)
  unfolding find_earliest
  find_earliest-Earliest kind name seen [] acc h = rw (append-nil seen) h
  find_earliest-Earliest kind name seen (p ∷ ps) acc h =
      subst (λ l. Earliest kind name l (find_earliest kind name (consider kind name acc p) ps))
        (append_assoc seen (p ∷ []) ps)
        (find_earliest-Earliest kind name (seen ++ p ∷ []) ps (consider kind name acc p)
          (considered kind name seen acc p h))

  -- Where the permits of the namespace can be listed, `FindActivePermit` returns the first of the
  -- earliest created ones that are active and name the target, and none exactly when there is
  -- none.
  pub find_active_permit-Earliest :
      {W : Type 0} (kube : Kube xp W) (namespace kind name : Str) (w : W)
      (ps : List (DeletionPermit xp))
      → (kube.list_permits namespace w).0 ≡ ok ps
      → (r : Option (DeletionPermit xp)) × ((find_active_permit kube namespace kind name w).0
          ≡ ok r)
        × Earliest kind name ps r
  unfolding find_active_permit
  find_active_permit-Earliest kube namespace kind name w ps h =
      (find_earliest kind name none ps, rw h refl, find_earliest-Earliest kind name [] ps none tt)

  pub NoneAuthorizes-find :
      (kind name : Str) (ps : List (DeletionPermit xp))
      → NoneAuthorizes kind name ps
      → find_earliest kind name none ps ≡ none
  unfolding find_earliest consider
  NoneAuthorizes-find kind name [] h = refl
  NoneAuthorizes-find kind name (p ∷ ps) (g, h) = rw g (NoneAuthorizes-find kind name ps h)
