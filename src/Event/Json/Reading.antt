-- ===== src/Event/Json/Reading.antt =====
-- The JSON of an event, read again.
use open_anti_cheat.Common.{ℕ, ◌≡◌, refl, ap, ◌∙◌, List, [], ◌∷◌, ◌++◌, some, map, pos, int32_value}
use open_anti_cheat.Event.{AcEvent}
use open_anti_cheat.Event.Json.{Shown, fields, json_of}
use open_anti_cheat.Text.Utf8.{encode_utf8, runes, encode_rune, decode_rune}
use open_anti_cheat.Text.Ascii.{codes}
use open_anti_cheat.Text.Json.Objects.{
  text, number, Member, sort_members, print_object, marshal, read_object,
}
use open_anti_cheat.Text.Json.Objects.RoundTrip.{to_valid, valid_member, read_object-print_object}

-- What the JSON says of an event: its members by their keys.
abbrev pub said : Shown → AcEvent → List Member
said s e =
    (codes "CallerPID", number (int32_value e.caller_pid))
    ∷ (codes "CommandLine", text s.command_line)
    ∷ (codes "EventType", text s.event_type)
    ∷ (codes "ImageBase", number (pos e.image_base))
    ∷ (codes "ImageFileName", text s.image_file_name)
    ∷ (codes "ImageSize", number (pos e.image_size))
    ∷ (codes "IsCreate", number (int32_value e.is_create))
    ∷ (codes "Src", number (int32_value e.src))
    ∷ (codes "TargetPID", number (int32_value e.target_pid))
    ∷ (codes "ThreadID", number (int32_value e.thread_id))
    ∷ []

sort_members-fields : (s : Shown) (e : AcEvent) → sort_members (fields s e) ≡ said s e
unfolding sort_members fields
sort_members-fields s e = refl

abbrev pub valid_shown : Shown → Shown
valid_shown s = record {
  event_type = to_valid s.event_type;
  image_file_name = to_valid s.image_file_name;
  command_line = to_valid s.command_line;
}

map-valid-said : (s : Shown) (e : AcEvent) → map valid_member (said s e) ≡ said (valid_shown s) e
unfolding encode_utf8 runes encode_rune decode_rune
map-valid-said s e = refl

-- A reader of JSON takes from the JSON of an event the members by their keys, with the texts as
-- valid UTF-8.
pub read_object-json_of :
    (s : Shown) (e : AcEvent) (rest : List ℕ)
    → read_object (json_of s e ++ rest) ≡ some (said (valid_shown s) e, rest)
unfolding json_of marshal
read_object-json_of s e rest =
    ap (λ ms. read_object (print_object ms ++ rest)) (sort_members-fields s e)
    ∙ (read_object-print_object (said s e) rest ∙ ap (λ ms. some (ms, rest)) (map-valid-said s e))
