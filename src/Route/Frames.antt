-- ===== src/Route/Frames.antt =====
-- The frames of HydraWS of MedusaUserlandAgent/WebSocketWorker.go as handleWS of
-- MedusaBackend/WSServer.go takes them.
use open_anti_cheat.Common.{ℕ, ◌≡◌, refl, ap, ◌∙◌, ◌⊎◌, inl, inr, none, some, List, All}
use open_anti_cheat.Event.{AcEvent, Padding}
use open_anti_cheat.Agent.Client.Frame.{WsFrame, event_frame, IsEventFrame, IsTextFrame}
use open_anti_cheat.Agent.Client.Session.{Client, Reach}
use open_anti_cheat.Agent.Client.Session.Made.{Reach-made}
use open_anti_cheat.Backend.Server.{accept, binary_message}
use open_anti_cheat.Backend.Server.Messages.{accept-ev_to_bytes}

-- The event of a frame, or none of one of SendJSON, is what the backend takes it for.
abbrev pub IsTaken : WsFrame → Type 0
IsTaken f =
    ((e : AcEvent) × (p : Padding) × (f ≡ event_frame e p) × (accept f.mt f.payload ≡ some e))
    ⊎ (IsTextFrame f × (accept f.mt f.payload ≡ none))

IsTaken-event : (f : WsFrame) → IsEventFrame f → IsTaken f
IsTaken-event f (e, p, same, he, hp) = inl (
  e,
  p,
  same,
  ap (λ (g : WsFrame). accept g.mt g.payload) same ∙ accept-ev_to_bytes binary_message e p he hp,
)

accept-text_frame : (bytes : List ℕ) → accept 1 bytes ≡ none
unfolding accept
accept-text_frame bytes = refl

IsTaken-text : (f : WsFrame) → IsTextFrame f → IsTaken f
IsTaken-text f (bytes, same) =
    inr ((bytes, same), ap (λ (g : WsFrame). accept g.mt g.payload) same ∙ accept-text_frame bytes)

-- In every state that the client can reach, the backend takes each frame that was written, on
-- whatever connection, for just the event that the pump made it of, or, if SendJSON made it, for
-- none.
pub Reach-IsTaken : {s : Client} → Reach s → All (λ p. IsTaken p.1) s.written
Reach-IsTaken r = Reach-made IsTaken IsTaken-event IsTaken-text r
