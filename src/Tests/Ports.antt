-- ===== src/Tests/Ports.antt =====
-- MedusaUserlandAgent/structs.go and main.go: the driver's port.
use open_anti_cheat.Common.{
  ℕ, ◌≡◌, ◌≢◌, refl, none, some, ◌⊎◌, List, [], ◌∷◌, ◌++◌, arith, ◌==◌, if◌then◌else◌, replicate,
}
use open_anti_cheat.Event.{ev_to_bytes}
use open_anti_cheat.Agent.Receiver.{loop, parse, FilterMessageHeader}
use open_anti_cheat.Agent.Receiver.Messages.{
  Incoming, message, failure, replies, loop-received, parse-message, IsHeader, header_bytes,
}
use open_anti_cheat.Agent.Receiver.Port.{
  Receiver, Windows, Answered, connect, close_times, connect-close, hresult_code, hresult_text,
}
use open_anti_cheat.Text.Ascii.{codes}
use open_anti_cheat.Text.Utf8.{encode_rune}
use open_anti_cheat.Text.Utf16.{decode_with, until_nul, utf16_to_string_win, encode_wtf8, wtf8_rune}
use open_anti_cheat.Tests.Wire.{
  handle_event, some_padding, handle_event-IsEvent, some_padding-IsPadding,
}

abbrev pub header : FilterMessageHeader
header = record { reply_length = 0; message_id = 7 }

abbrev pub gap : List ℕ
gap = 9 ∷ 9 ∷ 9 ∷ 9 ∷ []

pub header-IsHeader : IsHeader header gap
header-IsHeader = record {
  reply_length = omega arith;
  message_id = omega arith;
  gap = (refl, omega arith);
}

parse-message_example :
    parse (header_bytes header gap ++ (ev_to_bytes handle_event some_padding ++ 1 ∷ []))
    ≡ (header, handle_event)
parse-message_example =
    parse-message header gap header-IsHeader handle_event some_padding (1 ∷ []) handle_event-IsEvent
      some_padding-IsPadding

-- A call that fails and leaves some bytes, and then a message.
abbrev pub incoming : List Incoming
incoming = failure 0x80070006 (5 ∷ []) ∷ message header gap handle_event some_padding ∷ []

loop-received_example : loop (replies incoming) (replicate 3664 0) ≡ handle_event ∷ []
loop-received_example =
    loop-received incoming (replicate 3664 0)
      (omega arith, ((header-IsHeader, handle_event-IsEvent, some_padding-IsPadding), tt))

abbrev receiver : Receiver
receiver = record { h_port = 0; name = b'P' ∷ [] }

abbrev pub willing : Windows
willing = record {
  load_error = none;
  port_name = λ name. some name;
  connect_port = λ name ctx. (0, 42);
}

connect-willing : connect willing 1234 99 receiver ≡ (record receiver { h_port = 42 }, none)
unfolding connect
connect-willing = refl

connect-close_example :
    (((connect willing 1234 99 receiver).1 ≢ none)
      × ((connect willing 1234 99 receiver).0 ≡ receiver)
      × (close_times 3 (connect willing 1234 99 receiver).0 ≡ []))
    ⊎ ((h : ℕ) × Answered willing 1234 99 receiver h
        × (connect willing 1234 99 receiver ≡ (record receiver { h_port = h }, none))
        × (close_times 3 (connect willing 1234 99 receiver).0 ≡ (if h == 0 then [] else h ∷ [])))
connect-close_example = connect-close willing 1234 99 2 receiver refl

win32_code : hresult_code 0x80070005 ≡ 5
unfolding hresult_code
win32_code = refl

other_code : hresult_code 0x801F0013 ≡ 0x801F0013
unfolding hresult_code
other_code = refl

-- "no", with something behind the NUL, for the code 5; nothing for others.
abbrev messages : ℕ → ℕ × List ℕ
messages code = if code == 5 then (2, b'n' ∷ b'o' ∷ 0 ∷ 7 ∷ []) else (0, [])

texts : (hresult_text messages 0x80070005 ≡ codes "no") × (hresult_text messages 6 ≡ [])
unfolding hresult_text utf16_to_string_win encode_wtf8 wtf8_rune encode_rune decode_with until_nul
texts = (refl, refl)
