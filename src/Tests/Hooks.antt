-- ===== src/Tests/Hooks.antt =====
-- The hook of MedusaUserDLL/MedusaDLL/MedusaDLL/dllmain.cpp, and a connection of
-- MedusaBackend/WSServer.go in time.
use open_anti_cheat.Common.{
  ◌⊎◌, true, ℕ, ◌≡◌, refl, none, some, List, [], ◌∷◌, arith, replicate, take,
}
use open_anti_cheat.Text.Ascii.{codes}
use open_anti_cheat.Text.Utf8.{encode_utf8, encode_rune}
use open_anti_cheat.Text.Utf16.{until_nul, decode_with}
use open_anti_cheat.Event.{AcEvent, event_size, ev_to_bytes}
use open_anti_cheat.Agent.Pipe.{read_loop}
use open_anti_cheat.Agent.Pipe.Delivery.{reads}
use open_anti_cheat.Backend.Main.{read_lines}
use open_anti_cheat.Backend.Strings.{utf16_buf_to_string, utf16_to_string}
use open_anti_cheat.Backend.Server.{binary_message}
use open_anti_cheat.Backend.Server.Reader.{
  Arrival, message, pong, handle_ws, events_of, ends, handle_ws-Alive,
}
use open_anti_cheat.Route.Lines.{console}
use open_anti_cheat.Driver.Strings.{wcsncpy_s}
use open_anti_cheat.Dll.{
  HookCall, hook_event, test_event, write_failed, wrote, send_ipc_message_raw,
}
use open_anti_cheat.Dll.Lines.{IsThread, IsMade, hook-line}
use open_anti_cheat.Dll.Lines.Told.{IsCall, hook_line}
use open_anti_cheat.Tests.Pipes.{queue, early, never, queue-MessageMode}
use open_anti_cheat.Tests.Servers
use open_anti_cheat.Tests.Wire.{some_padding, some_padding-IsPadding}

abbrev call : HookCall
call = record { caller = 4711; target = 815; tid = none; created = some 77; start = 0x7FF612340000 }

call-IsCall : IsCall call
call-IsCall = record {
  caller = omega arith;
  target = omega arith;
  tid = tt;
  created = omega arith;
  start = omega arith;
}

abbrev sent : List (List ℕ)
sent = (send_ipc_message_raw (wrote event_size) (ev_to_bytes (hook_event call) some_padding)).1

hook-line_example :
    ((read_loop (queue never) (reads sent) sent [] [] ≡ some [])
      × ((h : List (List ℕ)) × (early never h event_size ≡ true)))
    ⊎ ((e : AcEvent) × (tid : ℕ) × (create : ℕ) × (read_loop (queue never) (reads sent) sent [] []
          ≡ some (e ∷ []))
        × IsThread call tid
        × IsMade call create
        × (read_lines 1 (console (λ e. some_padding) (e ∷ []))
            ≡ some (hook_line call tid create ∷ [], [])))
hook-line_example =
    hook-line call call-IsCall some_padding some_padding-IsPadding (queue never) (λ h. h)
      (early never) (queue-MessageMode never) (reads sent) sent [] (λ e. some_padding)
      (λ e. some_padding-IsPadding) refl (omega arith)

failed_write : send_ipc_message_raw write_failed (1 ∷ []) ≡ (0, [])
unfolding send_ipc_message_raw
failed_write = refl

test_type : utf16_to_string (test_event 4711 815).event_type ≡ codes "TestEvent"
unfolding test_event wcsncpy_s utf16_to_string utf16_buf_to_string until_nul decode_with encode_utf8
    encode_rune take replicate
test_type = refl

-- An event after a pong, and nothing more.
abbrev arrivals : List Arrival
arrivals = pong 50000000000 ∷ message 90000000000 binary_message Servers.message 0 ∷ []

handle_ws-Alive_example : handle_ws 0 arrivals ≡ (events_of arrivals, ends 0 arrivals)
handle_ws-Alive_example =
    handle_ws-Alive 0 arrivals (omega arith, omega arith, (omega arith, omega arith, refl, tt))

ends_late : ends 0 arrivals ≡ 110000000000
ends_late = refl
