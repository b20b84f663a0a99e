-- ===== src/Backend/Server/Messages.antt =====
-- handleWS of MedusaBackend/WSServer.go: the messages that it takes for events.
use open_anti_cheat.Common.{ℕ, ◌≡◌, Bool-cases, inl, inr, none, some, ◌==◌, if◌then◌else◌}
use open_anti_cheat.Event.{AcEvent, Padding, IsEvent, IsPadding, ev_to_bytes}
use open_anti_cheat.Event.Wire.{event_of_bytes-ev_to_bytes, length-ev_to_bytes}
use open_anti_cheat.Backend.Server.{accept, binary_message}

-- The bytes that the agent makes of an event are taken for that event when they come in a binary
-- message, whatever the padding, and for none when they come in another.
pub accept-ev_to_bytes :
    (mt : ℕ) (e : AcEvent) (p : Padding)
    → IsEvent e
    → IsPadding p
    → accept mt (ev_to_bytes e p) ≡ (if mt == binary_message then some e else none)
unfolding accept
accept-ev_to_bytes mt e p he hp = elim (Bool-cases (mt == binary_message)) [
  | inl t ↦ rw (t, length-ev_to_bytes e p he hp, event_of_bytes-ev_to_bytes e p he hp)
  | inr f ↦ rw (f)
]
