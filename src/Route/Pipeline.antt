-- ===== src/Route/Pipeline.antt =====
-- HydraWS of MedusaUserlandAgent/WebSocketWorker.go and HydraWSServer of MedusaBackend/WSServer.go,
-- running beside each other over connections that carry what is written on them in order. The
-- client's dial and the server's handler of a connection have the same number.
pub mod Fronts
pub mod Through
use open_anti_cheat.Common.{
  ℕ, ◌≤◌, ◌≡◌, refl, sym, ap, subst, ◌∙◌, true, false, Bool-cases, ==_iff, inl, inr, Option, none,
  some, List, [], ◌∷◌, ◌++◌, append-nil, append_assoc, map, length, ◌==◌, if◌then◌else◌, arith,
}
use open_anti_cheat.Event.{AcEvent}
use open_anti_cheat.Agent.Client.Frame.{WsFrame}
use open_anti_cheat.Agent.Client.Session
use open_anti_cheat.Agent.Client.Session.{Client, writer_writes}
use open_anti_cheat.Agent.Client.Session.Frames.{on, on-append, on-snoc, on-snoc_other}
use open_anti_cheat.Agent.Client.Session.Queue.{IsPrompt, pulled, queued, frame_of}
use open_anti_cheat.Agent.Client.Session.Order.{Reach-ordered}
use open_anti_cheat.Backend.Server
use open_anti_cheat.Backend.Server.{skips, accepts, accept}
use open_anti_cheat.Backend.Server.Delivery.{
  of_conn, of_conn-own, of_conn-other, taken, given, event_of, Reach-delivers,
}

-- The messages that the handlers have read, each with its connection.
abbrev pub read_by :
    {s t : Server.Server} → Server.Step s t → List (ℕ × WsFrame) → List (ℕ × WsFrame)
read_by (skips c mt msg e f) l = l ++ (c, record { mt = mt; payload = msg }) ∷ []
read_by (accepts c mt msg ev e f) l = l ++ (c, record { mt = mt; payload = msg }) ∷ []
read_by _ l = l

-- The frame is the next one of its connection.
abbrev pub IsNext : List (ℕ × WsFrame) → List (ℕ × WsFrame) → ℕ → WsFrame → Type 0
IsNext written l c f = (rest : List WsFrame) × (on c written ≡ on c l ++ f ∷ rest)

abbrev pub Arrives :
    {s t : Server.Server} → Server.Step s t → List (ℕ × WsFrame) → List (ℕ × WsFrame) → Type 0
Arrives (skips c mt msg e f) written l = IsNext written l c (record { mt = mt; payload = msg })
Arrives (accepts c mt msg ev e f) written l = IsNext written l c (record { mt = mt; payload = msg })
Arrives _ written l = Unit {0}

-- Runs of both, with what the handlers have read.
pub data Joint (buf : ℕ) : Client → Server.Server → List (ℕ × WsFrame) → Type 0 where
  begins : Joint buf Session.init (Server.init buf) []
  client_moves :
      {a b : Client} {s : Server.Server} {l : List (ℕ × WsFrame)}
      → Joint buf a s l
      → Session.Step a b
      → Joint buf b s l
  server_moves :
      {a : Client} {s t : Server.Server} {l : List (ℕ × WsFrame)}
      → Joint buf a s l
      → (st : Server.Step s t) → Arrives st a.written l
      → Joint buf a t (read_by st l)

abbrev pub client_run :
    {buf : ℕ} {a : Client} {s : Server.Server} {l : List (ℕ × WsFrame)}
    → Joint buf a s l
    → Session.Reach a
client_run begins = Session.start
client_run (client_moves j st) = Session.later (client_run j) st
client_run (server_moves j st h) = client_run j

abbrev pub server_run :
    {buf : ℕ} {a : Client} {s : Server.Server} {l : List (ℕ × WsFrame)}
    → Joint buf a s l
    → Server.Reach buf s
server_run begins = Server.start
server_run (client_moves j st) = server_run j
server_run (server_moves j st h) = Server.later (server_run j) st

-- What `handleWS` takes from frames.
abbrev pub event_list : Option AcEvent → List AcEvent
event_list none = []
event_list (some e) = e ∷ []

abbrev pub events_in : List WsFrame → List AcEvent
events_in [] = []
events_in (f ∷ fs) = event_list (accept f.mt f.payload) ++ events_in fs
