-- ===== src/Analyzer/Cursor.antt =====
-- internal/analyzer/cursor.go: Cursor. The directory of the findings is the saved cursor; its
-- temporary files have fresh random names, and each is removed again.
use agent_transponder.Prelude.{ℕ, String, Option, none, some, [], get_or}
use agent_transponder.Prelude.Int.{pos}
use agent_transponder.Prelude.Maps.{Map, lookup, insert}
use agent_transponder.Prelude.Result.{Result, ok, err}
use agent_transponder.Types.Event.{Time}

pub record FileCursor : Type 0 where
  pub offset : ℕ
  pub last_read : Time

abbrev pub Cursor : Type 0
Cursor = Map FileCursor

abbrev pub new_cursor : Cursor
new_cursor = []

-- Get: the zero value for a file that has none.
unfoldable pub get : String → Cursor → FileCursor
get filename c = get_or (record { offset = 0; last_read = pos 0 }) (lookup filename c)

unfoldable pub set : String → FileCursor → Cursor → Cursor
set filename fc c = insert filename fc c

-- What reading and parsing the saved file gives.
pub data Saved : Type 0 where
  missing : Saved
  unreadable : Saved
  malformed : Saved
  -- A file without the field leaves the map nil.
  parsed : Option Cursor → Saved

pub data LoadError : Type 0 where
  read_cursor : LoadError
  parse_cursor : LoadError

unfoldable pub load_cursor : Saved → Result LoadError Cursor
load_cursor missing = ok new_cursor
load_cursor unreadable = err read_cursor
load_cursor malformed = err parse_cursor
load_cursor (parsed files) = ok (get_or new_cursor files)

-- The steps of save, of which each can fail.
pub data SaveStep : Type 0 where
  marshal : SaveStep
  open_tmp : SaveStep
  write_tmp : SaveStep
  close_tmp : SaveStep
  rename : SaveStep

-- save, when the given step fails: the saved file is replaced by the last step at once, or not at all.
unfoldable pub save : Option SaveStep → Cursor → Saved → Saved × Option SaveStep
save none c old = (parsed (some c), none)
save (some step) c old = (old, some step)
