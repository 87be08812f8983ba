-- ===== src/Config/Files.antt =====
-- `os.ReadFile` of a file in the configuration directory, as the two loaders read its result.
use yukimi.Base.{Str}
use yukimi.Errors.{Error}

pub data FileRead : Type 0 where
  content : Str → FileRead
  -- `os.IsNotExist(err)`
  not_exist : FileRead
  unreadable : Error → FileRead
