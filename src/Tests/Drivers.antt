-- ===== src/Tests/Drivers.antt =====
-- The routines of MedusaKernelDriver, at the loading of an image, the end of a process and a
-- handle.
use open_anti_cheat.Common.{
  ℕ, ◌≡◌, ◌≢◌, refl, true, false, none, some, List, [], ◌∷◌, arith, length, replicate, take, drop,
}
use open_anti_cheat.Text.Ascii.{codes}
use open_anti_cheat.Text.Utf8.{encode_utf8, encode_rune}
use open_anti_cheat.Text.Utf16.{until_nul, decode_with}
use open_anti_cheat.Text.Narrow.{narrowed}
use open_anti_cheat.Agent.Receiver.{loop}
use open_anti_cheat.Agent.Receiver.Messages.{replies}
use open_anti_cheat.Agent.Receiver.Port.{ctx_bytes}
use open_anti_cheat.Backend.Main.{read_lines}
use open_anti_cheat.Backend.Strings.{utf16_buf_to_string, int32_to_string}
use open_anti_cheat.Route.Lines.{console}
use open_anti_cheat.Driver.Strings.{wcsncpy_s, as_units, as_ints, wcsncpy_s_ints}
use open_anti_cheat.Driver.Strings.Shown.{image_name_spoiled}
use open_anti_cheat.Driver.Entry.{
  Answers, nothing, driver_entry, filter_unload_callback, unload-entry,
}
use open_anti_cheat.Driver.Notify.{
  Pids, initial, Current, faults, create_process_notify_routine_ex, load_image_notify_routine,
}
use open_anti_cheat.Driver.Callback.{
  creates, Operation, create_callback, miniflt_port_notify_routine,
}
use open_anti_cheat.Driver.Rights.{Tells, create_callback-connected}
use open_anti_cheat.Driver.Events.{
  Notice, process, image, handle, on_notice, IsNotice, Occurrence, IsOccurrence, messages,
}
use open_anti_cheat.Driver.Events.Lines.{lines, notices-lines}
use open_anti_cheat.Tests.Wire.{some_padding, some_padding-IsPadding}
use open_anti_cheat.Tests.Ports.{header, gap, header-IsHeader}

image_name_spoiled_example :
    int32_to_string (wcsncpy_s_ints (replicate 260 0) 260 (codes "game.exe"))
    ≢ encode_utf8 (codes "game.exe")
image_name_spoiled_example =
    image_name_spoiled 260 (codes "game.exe") (ground arith) (omega arith) (omega arith)

abbrev shown_name : List ℕ
shown_name = int32_to_string (wcsncpy_s_ints (replicate 260 0) 260 (codes "game.exe"))

every_second : shown_name ≡ codes "gm.x"
unfolding int32_to_string utf16_buf_to_string narrowed wcsncpy_s_ints wcsncpy_s as_units as_ints
    until_nul take drop replicate encode_utf8 encode_rune decode_with
every_second = refl

abbrev caller : Current
caller = record { process = 4; thread = 8 }

abbrev loading : Notice
loading = image (some (codes "a.dll")) 4711 (record { image_base = 0x10000; image_size = 0x2000 })

abbrev opening : Operation
opening = record {
  kernel_handle = false;
  is_process = true;
  pid = 4711;
  request = creates 0x1FFFFF;
}

abbrev occurrence : Notice → Occurrence
occurrence n = record {
  pids = record { to_protect_pid = 4711; agent_pid = 99 };
  current = caller;
  notice = n;
  header = header;
  gap = gap;
  padding = some_padding;
}

abbrev happened : List Occurrence
happened = occurrence loading ∷ occurrence (process 4711 none) ∷ occurrence (handle opening) ∷ []

occurred : (n : Notice) → IsNotice n → IsOccurrence (occurrence n)
occurred n h = record { notice = h; header = header-IsHeader; padding = some_padding-IsPadding }

three_lines : length (lines happened) ≡ 3
unfolding on_notice create_process_notify_routine_ex load_image_notify_routine create_callback
three_lines = refl

-- A process without a command line.
null_line :
    on_notice initial caller
      (process 4711 (some (record { image_file_name = some []; command_line = none })))
    ≡ faults
unfolding on_notice create_process_notify_routine_ex
null_line = refl

create_callback-connected_example :
    (after : Pids) × (miniflt_port_notify_routine initial
        (some (ctx_bytes (record { version = 1; to_protect_pid = 4711; agent_pid = 99 })))
      ≡ some after)
    × ((create_callback after caller opening).0 ≡ creates 0x101000)
    × Tells caller 4711 (create_callback after caller opening).1
create_callback-connected_example =
    create_callback-connected 4711 99 caller opening initial (omega arith) (omega arith)
      (omega arith) (refl, refl, refl) (omega arith)

notices-lines_example :
    read_lines
      (length (lines happened))
      (console (λ e. some_padding) (loop (replies (messages happened)) (replicate 3664 0)))
    ≡ some (lines happened, [])
notices-lines_example =
    notices-lines happened (replicate 3664 0) (λ e. some_padding)
      (
        occurred loading (ground arith),
        (occurred (process 4711 none) tt, (occurred (handle opening) tt, tt)),
      )
      (λ e. some_padding-IsPadding)

-- The port cannot be created.
abbrev answers : Answers
answers = record {
  pool = true;
  callbacks = true;
  filter = true;
  filtering = true;
  process = true;
  thread = true;
  image = true;
  filter_found = true;
  descriptor = true;
  port = false;
}

unload-entry_example :
    ((driver_entry answers).0.descriptors ≡ 0)
    × ((driver_entry answers).0.references ≡ (driver_entry answers).0.ports)
    × ((driver_entry answers).1 ≡ true
        → filter_unload_callback (driver_entry answers).0 ≡ some (record nothing { pools = 1 }))
unfolding driver_entry
unload-entry_example = unload-entry answers

registered : ((driver_entry answers).0.callbacks ≡ true) × ((driver_entry answers).0.image ≡ true)
unfolding driver_entry
registered = (refl, refl)
