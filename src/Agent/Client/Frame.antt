-- ===== src/Agent/Client/Frame.antt =====
-- The frames of MedusaUserlandAgent/WebSocketWorker.go, by who makes them.
use open_anti_cheat.Common.{ℕ, ◌≡◌, ◌||◌, ◌==◌, if◌then◌else◌, List, [], ◌∷◌}
use open_anti_cheat.Event.{AcEvent, Padding, IsEvent, IsPadding, ev_to_bytes}

-- `websocket.TextMessage` and `websocket.BinaryMessage`
abbrev pub text_message : ℕ
text_message = 1

abbrev pub binary_message : ℕ
binary_message = 2

-- `wsFrame`
pub record WsFrame : Type 0 where
  pub mt : ℕ
  pub payload : List ℕ

-- The frame that `eventPump` makes of an event.
abbrev pub event_frame : AcEvent → Padding → WsFrame
event_frame e p = record { mt = binary_message; payload = ev_to_bytes e p }

-- The frame that `SendJSON` makes of what it is given, as JSON.
abbrev pub text_frame : List ℕ → WsFrame
text_frame bytes = record { mt = text_message; payload = bytes }

abbrev pub IsEventFrame : WsFrame → Type 0
IsEventFrame f = (e : AcEvent) × (p : Padding) × (f ≡ event_frame e p) × IsEvent e × IsPadding p

abbrev pub IsTextFrame : WsFrame → Type 0
IsTextFrame f = (bytes : List ℕ) × (f ≡ text_frame bytes)

-- What `readLoop` gives to `OnMessage` of a message: its bytes, where it is a text or a binary one.
unfoldable pub dispatch : ℕ → List ℕ → List (List ℕ)
dispatch mt msg = if mt == text_message || mt == binary_message then msg ∷ [] else []
