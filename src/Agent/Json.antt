-- ===== src/Agent/Json.antt =====
-- `ToJSON` of MedusaUserlandAgent/Event.go.
use open_anti_cheat.Common.{ℕ, List}
use open_anti_cheat.Event.{AcEvent}
use open_anti_cheat.Event.Json.{Shown, json_of}
use open_anti_cheat.Agent.Strings.{utf16_to_string, int32_to_string}

abbrev pub shown : AcEvent → Shown
shown e = record {
  event_type = utf16_to_string e.event_type;
  image_file_name = int32_to_string e.image_file_name;
  command_line = utf16_to_string e.command_line;
}

unfoldable pub to_json : AcEvent → List ℕ
to_json e = json_of (shown e) e
