-- ===== src/Tests/Prints.antt =====
-- ToJSON of both Event.go files, and the consumer of MedusaBackend/Main.go.
use open_anti_cheat.Common.{ℕ, ◌≡◌, refl, some, [], ◌∷◌, length-replicate, map, replicate, arith}
use open_anti_cheat.Text.Ascii.{codes}
use open_anti_cheat.Text.Json.Strings.{quote, hex}
use open_anti_cheat.Text.Utf8.{decode_rune, encode_utf8}
use open_anti_cheat.Text.Utf16.{decode_with, until_nul, encode_utf16, encode_unit}
use open_anti_cheat.Text.Narrow.{narrowed}
use open_anti_cheat.Event.{AcEvent, IsEvent}
use open_anti_cheat.Event.Json.{json_of, fields}
use open_anti_cheat.Event.Json.Reading.{said}
use open_anti_cheat.Agent.Json
use open_anti_cheat.Text.Json.Objects.{marshal}
use open_anti_cheat.Text.Decimal.{decimal}
use open_anti_cheat.Backend.Strings.{utf16_to_string, int32_to_string}
use open_anti_cheat.Backend.Json.{shown, to_json}
use open_anti_cheat.Backend.Printed.{IsReadable, to_json-agrees}
use open_anti_cheat.Backend.Main.{read_lines}
use open_anti_cheat.Route.Lines.{console, read_lines-console}
use open_anti_cheat.Tests.Wire.{
  handle_event, handle_event-IsEvent, some_padding, some_padding-IsPadding, replicate-All,
}

-- "a", U+1F600 and a quote, behind a process number that is negative as an int32.
abbrev smiling : AcEvent
smiling = record handle_event {
  event_type = b'a' ∷ 0xD83D ∷ 0xDE00 ∷ b'"' ∷ replicate 256 0;
  caller_pid = 0xFFFF_FFFE;
}

smiling-IsEvent : IsEvent smiling
smiling-IsEvent = record {
  src = omega arith;
  event_type = (
    omega (arith, length-replicate {A = ℕ} 256 0),
    (omega arith, (omega arith, (omega arith, (omega arith, replicate-All 2 256 0 (omega arith))))),
  );
  caller_pid = omega arith;
  target_pid = omega arith;
  thread_id = omega arith;
  image_file_name = handle_event-IsEvent.image_file_name;
  command_line = handle_event-IsEvent.command_line;
  is_create = omega arith;
  image_base = omega arith;
  image_size = omega arith;
}

quote_html : quote (codes "<&>") ≡ codes "\"\\u003c\\u0026\\u003e\""
unfolding quote decode_rune hex
quote_html = refl

smiling-IsReadable : IsReadable smiling
unfolding until_nul narrowed encode_utf16 encode_unit replicate
smiling-IsReadable = record {
  event_type = (
    b'a' ∷ 0x1F600 ∷ b'"' ∷ [],
    ground arith,
    (omega arith, (omega arith, (omega arith, tt))),
    refl,
  );
  image_file_name = ([], tt, tt, refl);
  command_line = ([], tt, tt, refl);
}

to_json-agrees_example : Json.to_json smiling ≡ to_json smiling
to_json-agrees_example = to_json-agrees smiling smiling-IsReadable

read_lines-console_example :
    read_lines 2 (console (λ e. some_padding) (smiling ∷ handle_event ∷ []))
    ≡ some (map (λ e. said (shown e) e) (smiling ∷ handle_event ∷ []), [])
read_lines-console_example =
    read_lines-console (smiling ∷ handle_event ∷ []) (λ e. some_padding)
      (smiling-IsEvent, (handle_event-IsEvent, tt)) (λ e. some_padding-IsPadding)

handle_event_json :
    to_json handle_event
    ≡ codes
        "{\"CallerPID\":1234,\"CommandLine\":\"\",\"EventType\":\"\",\"ImageBase\":140694538682368,\"ImageFileName\":\"\",\"ImageSize\":4096,\"IsCreate\":1,\"Src\":0,\"TargetPID\":5678,\"ThreadID\":9}"
unfolding to_json json_of marshal fields quote decode_rune decimal utf16_to_string encode_utf8
    decode_with until_nul replicate int32_to_string narrowed
handle_event_json = refl
