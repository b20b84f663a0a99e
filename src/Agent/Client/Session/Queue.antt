-- ===== src/Agent/Client/Session/Queue.antt =====
-- HydraWS of MedusaUserlandAgent/WebSocketWorker.go: the order of the frames.
use open_anti_cheat.Common.{ℕ, ◌≡◌, refl, sym, ap, ◌∙◌, List, [], ◌∷◌, ◌++◌, append_assoc, map}
use open_anti_cheat.Agent.Client.Session.{
  Client, Step, Reach, start, later, pump_receives, pump_sends, pump_panics, pump_ends,
  pump_gives_up, json_sends, json_panics, dial_succeeds, dial_fails, dial_cancelled, session_ends,
  writer_starts, writer_finds_none, writer_takes, writer_writes, writer_fails, writer_ends,
  writer_sees_end, reader_reads, pinger_pings, reader_ends, pinger_ends, close_cancels,
  close_drops_conn, close_returns,
}
use open_anti_cheat.Agent.Client.Frame.{WsFrame}

-- The frames that were put into the queue, after a step.
abbrev pub put_by : {s t : Client} → Step s t → List WsFrame → List WsFrame
put_by (pump_sends f e o room) q = q ++ f ∷ []
put_by (json_sends f tf o room) q = q ++ f ∷ []
put_by _ q = q

-- The frames that were taken out, each with the connection of the writer that took it, after a
-- step.
abbrev pub taken_by : {s t : Client} → Step s t → List (ℕ × WsFrame) → List (ℕ × WsFrame)
taken_by (writer_takes before after c f rest e q) p = p ++ (c, f) ∷ []
taken_by _ p = p

-- No session begins before the `writeLoop` of the one before has looked at `conn`.
abbrev pub IsPromptStep : {s t : Client} → Step s t → Type 0
IsPromptStep {s} (dial_succeeds e) = s.starting ≡ 0
IsPromptStep _ = Unit {0}

abbrev pub queued : {s : Client} → Reach s → List WsFrame
queued start = []
queued (later r st) = put_by st (queued r)

abbrev pub pulled : {s : Client} → Reach s → List (ℕ × WsFrame)
pulled start = []
pulled (later r st) = taken_by st (pulled r)

abbrev pub IsPrompt : {s : Client} → Reach s → Type 0
IsPrompt start = Unit {0}
IsPrompt (later r st) = IsPrompt r × IsPromptStep st

abbrev pub frame_of : ℕ × WsFrame → WsFrame
frame_of p = p.1

map-append : (p q : List (ℕ × WsFrame)) → map frame_of (p ++ q) ≡ map frame_of p ++ map frame_of q
map-append [] q = refl
map-append (x ∷ p) q = ap (◌∷◌ x.1) (map-append p q)

-- `sendCh` is a queue.
abbrev Queued : List WsFrame → List (ℕ × WsFrame) → List WsFrame → Type 0
Queued q p waits = q ≡ map frame_of p ++ waits

Queued-put :
    (q : List WsFrame) (p : List (ℕ × WsFrame)) (waits : List WsFrame) (f : WsFrame)
    → Queued q p waits
    → Queued (q ++ f ∷ []) p (waits ++ f ∷ [])
Queued-put q p waits f v = ap (λ w. w ++ f ∷ []) v ∙ append_assoc (map frame_of p) waits (f ∷ [])

Queued-take :
    (q : List WsFrame) (p : List (ℕ × WsFrame)) (waits rest : List WsFrame) (c : ℕ) (f : WsFrame)
    → waits ≡ f ∷ rest
    → Queued q p waits
    → Queued q (p ++ (c, f) ∷ []) rest
Queued-take q p waits rest c f e v =
    v
    ∙ (ap (λ w. map frame_of p ++ w) e
        ∙ (sym (append_assoc (map frame_of p) (f ∷ []) rest)
            ∙ ap (λ w. w ++ rest) (sym (map-append p ((c, f) ∷ [])))))

Step-Queued :
    {s t : Client} (st : Step s t) (q : List WsFrame) (p : List (ℕ × WsFrame))
    → Queued q p s.send_ch
    → Queued (put_by st q) (taken_by st p) t.send_ch
Step-Queued (pump_receives f ef e) q p v = v
Step-Queued {s} (pump_sends f e o room) q p v = Queued-put q p s.send_ch f v
Step-Queued (pump_panics f e o) q p v = v
Step-Queued (pump_ends e) q p v = v
Step-Queued (pump_gives_up f e c) q p v = v
Step-Queued {s} (json_sends f tf o room) q p v = Queued-put q p s.send_ch f v
Step-Queued (json_panics o) q p v = v
Step-Queued (dial_succeeds e) q p v = v
Step-Queued (dial_fails e) q p v = v
Step-Queued (dial_cancelled e c) q p v = v
Step-Queued (session_ends c e) q p v = v
Step-Queued (writer_starts n c e o) q p v = v
Step-Queued (writer_finds_none n e o) q p v = v
Step-Queued {s} (writer_takes before after c f rest e w) q p v =
    Queued-take q p s.send_ch rest c f w v
Step-Queued (writer_writes before after c f e o) q p v = v
Step-Queued (writer_fails before after c f e) q p v = v
Step-Queued (writer_ends before after c e o) q p v = v
Step-Queued (writer_sees_end before after c e w o) q p v = v
Step-Queued (reader_reads before after c mt msg e) q p v = v
Step-Queued (pinger_pings before after c e) q p v = v
Step-Queued (reader_ends before after c e) q p v = v
Step-Queued (pinger_ends before after c e) q p v = v
Step-Queued (close_cancels e) q p v = v
Step-Queued (close_drops_conn e) q p v = v
Step-Queued (close_returns e p' r z w x y) q p v = v

-- The frames come out of the queue in the order in which they were put in, and what is not taken
-- out yet waits.
pub Reach-Queued : {s : Client} (r : Reach s) → queued r ≡ map frame_of (pulled r) ++ s.send_ch
Reach-Queued start = refl
Reach-Queued (later r st) = Step-Queued st (queued r) (pulled r) (Reach-Queued r)
