-- ===== src/Backend/Server/Panics.antt =====
-- HydraWSServer of MedusaBackend/WSServer.go: Close and the handlers that still run.
use open_anti_cheat.Common.{ℕ, ◌≡◌, refl, true, false}
use open_anti_cheat.Event.{AcEvent}
use open_anti_cheat.Backend.Server.{
  Server, Step, Reach, start, later, sending, send_panics, cancels, closes,
}

record IsOrderly (s : Server) : Type 0 where
  closed : s.recv_closed ≡ true → s.cancelled ≡ true
  panics : s.panicked ≡ true → s.recv_closed ≡ true

Step-IsOrderly : {s t : Server} → Step s t → IsOrderly s → IsOrderly t
Step-IsOrderly (send_panics c ev e f) v = record { closed = v.closed; panics = λ h. f }
Step-IsOrderly cancels v = record { closed = λ h. refl; panics = v.panics }
Step-IsOrderly (closes e f) v = record { closed = λ h. e; panics = λ h. refl }
Step-IsOrderly mv v = record { closed = v.closed; panics = v.panics }

Reach-IsOrderly : {buf : ℕ} {s : Server} → Reach buf s → IsOrderly s
Reach-IsOrderly start = record { closed = λ h. cc; panics = λ h. cc }
Reach-IsOrderly (later r mv) = Step-IsOrderly mv (Reach-IsOrderly r)

-- A server that has panicked has been closed: it has closed `Recv`, and before that ended its
-- context.
pub panicked-recv_closed :
    {buf : ℕ} {s : Server}
    → Reach buf s
    → s.panicked ≡ true
    → (s.recv_closed ≡ true) × (s.cancelled ≡ true)
panicked-recv_closed r h =
    ((Reach-IsOrderly r).panics h, (Reach-IsOrderly r).closed ((Reach-IsOrderly r).panics h))

-- From every reachable state in which `Recv` is open and a handler stands at its select with an
-- event, a panicked server is reachable: Close ends the context and closes `Recv` without waiting
-- for the handler, whose select may still choose the send.
pub closing_panics :
    {buf : ℕ} {s : Server}
    → Reach buf s
    → (c : ℕ) (e : AcEvent) → s.handlers c ≡ sending e
    → s.recv_closed ≡ false
    → (t : Server) × Reach buf t × (t.panicked ≡ true)
closing_panics r c e h o =
    (_, later (later (later r cancels) (closes refl o)) (send_panics c e h refl), refl)
