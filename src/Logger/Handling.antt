-- ===== src/Logger/Handling.antt =====
-- What a tenant sees of an error.
use yukimi.Errors.{Error, plain, message, is_user_error}
use yukimi.Base.{◌≡◌, refl, true, false, some, arith}
use yukimi.Logger.{Logger, Logging, incident_message, handle}

module _ {W : Type 0} (out : Logging W) (l : Logger) where
  -- Handling a user error gives back an error that has its message word for word and is itself no
  -- user error.
  pub handle_user :
      (e : Error) (w : W)
      → is_user_error e ≡ true
      → (r : Error) × ((handle out l (some e) w).0 ≡ some r)
        × (message r ≡ message e)
        × (is_user_error r ≡ false)
  unfolding handle message is_user_error
  handle_user e w h = (plain (message e), ground arith, refl, refl)

  -- Of two system errors, handled in one state of the log, the same error comes back, and its text
  -- is that of the incident alone.
  pub handle_system :
      (e f : Error) (w : W)
      → is_user_error e ≡ false
      → is_user_error f ≡ false
      → ((handle out l (some e) w).0 ≡ (handle out l (some f) w).0)
        × ((handle out l (some e) w).0
            ≡ some (plain (incident_message (out.generate_incident_id w).0)))
  unfolding handle
  handle_system e f w h k = (ground arith, ground arith)
