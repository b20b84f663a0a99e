-- ===== src/Route/Pipeline/Through.antt =====
-- The events between the queue of HydraWS of MedusaUserlandAgent/WebSocketWorker.go and the
-- consumer of MedusaBackend/Main.go.
use open_anti_cheat.Common.{ℕ, ◌≡◌, sym, ap, ◌∙◌, List, ◌++◌, append_assoc, map}
use open_anti_cheat.Event.{AcEvent}
use open_anti_cheat.Agent.Client.Frame.{WsFrame}
use open_anti_cheat.Agent.Client.Session.{Client}
use open_anti_cheat.Agent.Client.Session.Frames.{on}
use open_anti_cheat.Agent.Client.Session.Queue.{IsPrompt, pulled, queued, frame_of}
use open_anti_cheat.Agent.Client.Session.Order.{Reach-ordered}
use open_anti_cheat.Backend.Server
use open_anti_cheat.Backend.Server.Delivery.{of_conn, taken, given, event_of, Reach-delivers}
use open_anti_cheat.Route.Pipeline.{Joint, client_run, server_run, events_in}
use open_anti_cheat.Route.Pipeline.Fronts.{events_in-append, IsRead, Joint-IsFront, Joint-IsRead}

-- A front part of a front part of a front part.
delivers_on :
    (c : ℕ) (p w l : List (ℕ × WsFrame)) (es g : List (ℕ × AcEvent)) (tail : List WsFrame)
    → on c p ≡ on c w ++ tail
    → (rest : List WsFrame) → on c w ≡ on c l ++ rest
    → IsRead c es l
    → (owed : List AcEvent) → of_conn c es ≡ of_conn c g ++ owed
    → (rest' : List AcEvent) × (events_in (on c p) ≡ of_conn c g ++ rest')
delivers_on c p w l es g tail whole rest front seen owed all = (
  owed ++ events_in (rest ++ tail),
  ap events_in (whole ∙ (ap (λ fs. fs ++ tail) front ∙ append_assoc (on c l) rest tail))
      ∙ (events_in-append (on c l) (rest ++ tail)
          ∙ (ap (λ vs. vs ++ events_in (rest ++ tail)) (sym seen ∙ all)
              ∙ append_assoc (of_conn c g) owed (events_in (rest ++ tail)))),
)

-- In every state that client and server can reach together, where no session of the client begins
-- before the `writeLoop` of the one before has looked at `conn`: what the consumer has got and what
-- waits in Recv is in order what the handlers have put there, and of each connection the handler
-- has put there, in order and without a gap, a front part of the events of the frames that the
-- client's writer has taken from the queue for it, and these frames have left the queue in the
-- order in which they were put in.
pub Joint-delivers :
    {buf : ℕ} {a : Client} {s : Server.Server} {l : List (ℕ × WsFrame)} (j : Joint buf a s l)
    → IsPrompt (client_run j)
    → (queued (client_run j) ≡ map frame_of (pulled (client_run j)) ++ a.send_ch)
      × (map event_of (given (server_run j)) ≡ s.consumed ++ s.recv)
      × ((c : ℕ)
          → (rest : List AcEvent) × (events_in (on c (pulled (client_run j)))
              ≡ of_conn c (given (server_run j)) ++ rest))
Joint-delivers {a = a} {l = l} j prompt = (
  (Reach-ordered (client_run j) prompt).0,
  (Reach-delivers (server_run j)).0,
  λ c.
      let sent = (Reach-ordered (client_run j) prompt).1 c in
      let (rest, front) = Joint-IsFront c j in
      let got = (Reach-delivers (server_run j)).1 c in
      delivers_on c (pulled (client_run j)) a.written l (taken (server_run j))
        (given (server_run j)) sent.0 sent.1 rest front (Joint-IsRead c j) got.0 got.1,
)
