-- ===== src/Agent/Client/Session/Losses.antt =====
-- HydraWS of MedusaUserlandAgent/WebSocketWorker.go: a writeLoop that outlives its session.
use open_anti_cheat.Common.{
  ℕ, ◌≡◌, ◌≢◌, refl, Bool-cases, inl, inr, false, some, List, [], ◌∷◌, ◌++◌,
}
use open_anti_cheat.Agent.Client.Session.{
  Client, Writer, idle, Reach, later, writer_takes, writer_fails,
}
use open_anti_cheat.Agent.Client.Frame.{WsFrame}
use open_anti_cheat.Agent.Client.Session.Closing.{Reach-IsClean}

-- A writer of another session than the current one has a closed connection.
stale_closed : {s : Client} (c k : ℕ) → Reach s → s.conn ≡ some k → c ≢ k → s.is_open c ≡ false
stale_closed {s} c k r e other = elim (Bool-cases (s.is_open c)) [
  | inl o ↦ absurd (other (cc ((Reach-IsClean r).held_open c o)))
  | inr o ↦ o
]

-- While the client has a session, the writer of an earlier session, whose connection is closed, can
-- still take the next frame of the send queue and lose it: the session stays, and nothing is
-- written.
pub stale_writer_loses :
    {s : Client} (before after : List Writer) (c k : ℕ) (f : WsFrame) (rest : List WsFrame)
    → Reach s
    → s.conn ≡ some k
    → c ≢ k
    → s.writers ≡ before ++ (idle c ∷ after)
    → s.send_ch ≡ f ∷ rest
    → (s.is_open c ≡ false)
      × ((t : Client) × Reach t
          × (t.conn ≡ some k)
          × (t.send_ch ≡ rest)
          × (t.written ≡ s.written)
          × (t.dropped ≡ s.dropped ++ f ∷ []))
stale_writer_loses {s} before after c k f rest r e other w q = (
  stale_closed c k r e other,
  (
    _,
    later (later r (writer_takes before after c f rest w q)) (writer_fails before after c f refl),
    e,
    refl,
    refl,
    refl,
  ),
)
