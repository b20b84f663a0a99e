-- ===== src/Event/Json.antt =====
-- The map that `ToJSON` of both Event.go files gives to `json.Marshal`.
pub mod Reading
use open_anti_cheat.Common.{ℕ, List, [], ◌∷◌, ◌++◌, Option, some, ℤ, pos, int32_value}
use open_anti_cheat.Event.{AcEvent}
use open_anti_cheat.Text.Ascii.{codes}
use open_anti_cheat.Text.Json.Objects.{Value, text, number, Member, marshal}

-- The strings that the conversions make of the buffers of an event.
pub record Shown : Type 0 where
  pub event_type : List ℕ
  pub image_file_name : List ℕ
  pub command_line : List ℕ

-- `out`, in the order of the source.
unfoldable pub fields : Shown → AcEvent → List Member
fields s e =
    (codes "Src", number (int32_value e.src))
    ∷ (codes "EventType", text s.event_type)
    ∷ (codes "CallerPID", number (int32_value e.caller_pid))
    ∷ (codes "TargetPID", number (int32_value e.target_pid))
    ∷ (codes "ThreadID", number (int32_value e.thread_id))
    ∷ (codes "ImageFileName", text s.image_file_name)
    ∷ (codes "CommandLine", text s.command_line)
    ∷ (codes "IsCreate", number (int32_value e.is_create))
    ∷ (codes "ImageBase", number (pos e.image_base))
    ∷ (codes "ImageSize", number (pos e.image_size))
    ∷ []

-- `json.Marshal(out)`, which has no error for strings and integers.
unfoldable pub json_of : Shown → AcEvent → List ℕ
json_of s e = marshal (fields s e)
