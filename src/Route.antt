-- ===== src/Route.antt =====
-- The way of an event through the agent and over the wire: Receiver.Loop of
-- MedusaUserlandAgent/main.go, evToBytes of WebSocketWorker.go and handleWS of
-- MedusaBackend/WSServer.go, one after the other; and the way of a command back, from main of
-- MedusaBackend/Main.go to the agent's callback.
pub mod Lines
pub mod Frames
pub mod Pipeline
use open_anti_cheat.Agent.Scanner.{Toolhelp, execute_dll_scan}
use open_anti_cheat.Agent.Main.{on_message}
use open_anti_cheat.Backend.Server.{Server, Reach}
use open_anti_cheat.Backend.Server.Registry.{Command, Reach-commands}
use open_anti_cheat.Common.{ℕ, ◌≡◌, refl, ap, ◌∙◌, Option, some, List, [], ◌∷◌, All, map}
use open_anti_cheat.Event.{AcEvent, IsEvent, Padding, IsPadding, ev_to_bytes}
use open_anti_cheat.Agent.Receiver.{loop}
use open_anti_cheat.Agent.Receiver.Messages.{
  Incoming, message, failure, IsIncoming, replies, received, loop-received,
}
use open_anti_cheat.Backend.Server.{accept, binary_message}
use open_anti_cheat.Backend.Server.Messages.{accept-ev_to_bytes}

-- The events that handleWS takes from the frames of the given events, each with padding of its own.
abbrev pub delivered : (AcEvent → Padding) → List AcEvent → List (Option AcEvent)
delivered pad es = map (λ e. accept binary_message (ev_to_bytes e (pad e))) es

pub delivered_lem :
    (es : List AcEvent) (pad : AcEvent → Padding)
    → All IsEvent es
    → ((e : AcEvent) → IsPadding (pad e))
    → delivered pad es ≡ map (λ e. some e) es
delivered_lem [] pad h hp = refl
delivered_lem (e ∷ es) pad (he, h) hp =
    λ i. accept-ev_to_bytes binary_message e (pad e) he (hp e) i ∷ delivered_lem es pad h hp i

pub received-IsEvent : (is : List Incoming) → All IsIncoming is → All IsEvent (received is)
received-IsEvent [] h = tt
received-IsEvent (failure ret bytes ∷ is) (failed, h) = received-IsEvent is h
received-IsEvent (message hd gap e p ∷ is) ((hh, he, _), h) = (he, received-IsEvent is h)

-- For well-formed messages of the driver and failed calls of FilterGetMessage in any order, the
-- frames that the agent makes of what Receiver.Loop sends, each with whatever padding, are taken by
-- handleWS for exactly the events of the messages, in order.
pub loop-delivered :
    (is : List Incoming) (buf : List ℕ) (pad : AcEvent → Padding)
    → All IsIncoming is
    → ((e : AcEvent) → IsPadding (pad e))
    → delivered pad (loop (replies is) buf) ≡ map (λ e. some e) (received is)
loop-delivered is buf pad h hp =
    ap (delivered pad) (loop-received is buf h)
    ∙ delivered_lem (received is) pad (received-IsEvent is h) hp

-- The agent answers the command with a scan.
abbrev pub Scans : Toolhelp → ℕ → ℕ → List ℕ → Type 0
Scans api fuel pid cmd = on_message api fuel pid cmd ≡ execute_dll_scan api fuel pid

Command-Scans :
    (api : Toolhelp) (fuel pid : ℕ) (cmds : List (List ℕ))
    → All Command cmds
    → All (Scans api fuel pid) cmds
unfolding on_message
Command-Scans api fuel pid [] h = tt
Command-Scans api fuel pid (cmd ∷ cmds) (e, h) =
    (ap (on_message api fuel pid) e, Command-Scans api fuel pid cmds h)

-- In every state that the server can reach, each command that waits to be sent makes the agent's
-- callback scan the modules of the protected process.
Reach-Scans :
    {buf : ℕ} {s : Server} (api : Toolhelp) (fuel pid : ℕ)
    → Reach buf s
    → All (Scans api fuel pid) s.send_text
Reach-Scans {s = s} api fuel pid r = Command-Scans api fuel pid s.send_text (Reach-commands r)
