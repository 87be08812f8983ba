-- ===== src/Deletion/Permits.antt =====
-- internal/deletion: lookup.go and consume.go.
use yukimi.Deletion.Kube.{Kube}
use yukimi.Apis.DeletionPermit.{DeletionPermit}
use yukimi.Apis.Crossplane.{Crossplane}
use yukimi.Effects.{Action, ◌>>=◌, pure, on_error}
use yukimi.Base.{
  ltb, if◌then◌else◌, Str, text, str_beq, Bool, ◌&&◌, Option, none, some, List, [], ◌∷◌, ◌++◌,
}
use yukimi.Errors.{wrap}

abbrev pub state_active : Str
state_active = text "Active"

abbrev pub state_consumed : Str
state_consumed = text "Consumed"

module _ {xp : Crossplane} where
  -- The two tests of the loop of `FindActivePermit`.
  unfoldable pub authorizes : Str → Str → DeletionPermit xp → Bool
  authorizes kind name permit =
      str_beq permit.status.state state_active
      && (str_beq permit.spec.target_ref.kind kind && str_beq permit.spec.target_ref.name name)

  unfoldable pub earlier :
      Option (DeletionPermit xp) → DeletionPermit xp → Option (DeletionPermit xp)
  earlier none permit = some permit
  earlier (some earliest) permit =
      if ltb permit.creation_timestamp earliest.creation_timestamp
      then some permit
      else some earliest

  unfoldable pub consider :
      Str → Str → Option (DeletionPermit xp) → DeletionPermit xp → Option (DeletionPermit xp)
  unfolding authorizes earlier
  consider kind name earliest permit =
      if authorizes kind name permit then earlier earliest permit else earliest

  -- The loop of `FindActivePermit`.
  unfoldable pub find_earliest :
      Str → Str → Option (DeletionPermit xp) → List (DeletionPermit xp) → Option (DeletionPermit xp)
  unfolding consider
  find_earliest kind name earliest [] = earliest
  find_earliest kind name earliest (permit ∷ permits) =
      find_earliest kind name (consider kind name earliest permit) permits

  -- The assignment of `MarkConsumed`.
  unfoldable pub consumed : DeletionPermit xp → DeletionPermit xp
  consumed permit = record permit { status = record permit.status { state = state_consumed } }

  module _ {W : Type 0} (kube : Kube xp W) where
    -- `FindActivePermit`
    unfoldable pub find_active_permit : Str → Str → Str → Action W (Option (DeletionPermit xp))
    unfolding find_earliest
    find_active_permit namespace kind name = do
      permits ←
          on_error (wrap (text "failed to list DeletionPermit objects: "))
            (kube.list_permits namespace)
      pure (find_earliest kind name none permits)

    -- `MarkConsumed`
    unfoldable pub mark_consumed : DeletionPermit xp → Action W (Unit {0})
    unfolding consumed
    mark_consumed permit = do
      _ ←
          on_error
            (wrap (
              text "failed to mark DeletionPermit "
              ++ permit.namespace
              ++ text "/"
              ++ permit.name
              ++ text " as consumed: "))
            (kube.update_permit_status (consumed permit))
      pure tt
