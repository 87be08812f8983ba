-- ===== src/Logger.antt =====
-- internal/logger/logger.go. The sink and the generator of incident ids are parameters.
pub mod Handling
use yukimi.Errors.{Error, plain, message, is_user_error}
use yukimi.Base.{if◌then◌else◌, Str, text, Option, none, some, ◌++◌}

-- The lifecycle method in which an error occurred.
pub data Operation : Type 0 where
  op_observe op_create op_update op_delete : Operation

pub record Logger : Type 0 where
  pub namespace : Str
  pub kind : Str
  pub name : Str
  pub op : Operation

pub data Level : Type 0 where
  info debug : Level

-- One line: its level, its text, the logger's dimensions, and the incident id if it has one.
pub record LogEntry : Type 0 where
  pub level : Level
  pub line : Str
  pub context : Logger
  pub incident_id : Option Str

pub record Logging (W : Type 0) : Type 0 where
  pub emit : LogEntry → W → W
  -- `uuid.New().String()[:8]`
  pub generate_incident_id : W → Str × W

pub incident_message : Str → Str
incident_message id = text "An internal error occurred (" ++ id ++ text ")"

pub system_line : Str → Error → Str
system_line id e = text "system error (incidentID=" ++ id ++ text "): " ++ message e

module _ {W : Type 0} (out : Logging W) (l : Logger) where
  -- `Logger.Info` and `Logger.Debug`
  unfoldable pub write_line : Level → Str → W → W
  write_line level line w =
      out.emit (record { level = level; line = line; context = l; incident_id = none }) w

  report_system : Error → Str × W → Option Error × W
  report_system e (id, w) = (
    some (plain (incident_message id)),
    out.emit (record { level = info; line = system_line id e; context = l; incident_id = some id })
        w,
  )

  -- `Logger.Handle`
  unfoldable pub handle : Option Error → W → Option Error × W
  unfolding write_line report_system
  handle none w = (none, w)
  handle (some e) w =
      if is_user_error e
      then (some (plain (message e)), write_line debug (message e) w)
      else report_system e (out.generate_incident_id w)
