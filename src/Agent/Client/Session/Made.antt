-- ===== src/Agent/Client/Session/Made.antt =====
-- HydraWS of MedusaUserlandAgent/WebSocketWorker.go: where its frames come from.
use open_anti_cheat.Common.{ℕ, ◌≡◌, subst, Option, none, some, List, [], ◌∷◌, ◌++◌, All, All-append}
use open_anti_cheat.Agent.Client.Frame.{WsFrame, IsEventFrame, IsTextFrame}
use open_anti_cheat.Agent.Client.Session.{
  PumpPc, pump_holding, Client, Writer, idle, holder, Step, Reach, start, later, pump_receives,
  pump_sends, pump_ends, pump_gives_up, json_sends, writer_starts, writer_takes, writer_writes,
  writer_fails, writer_ends, writer_sees_end,
}

All-split :
    {A : Type 0} (P : A → Type 0) (before after : List A) (x : A)
    → All P (before ++ (x ∷ after))
    → All P before × P x × All P after
All-split P [] after x (hx, h) = (tt, hx, h)
All-split P (y ∷ before) after x (hy, h) =
    let (hb, hx, ha) = All-split P before after x h in ((hy, hb), hx, ha)

-- A predicate on frames, and that the frames of the pump and of SendJSON satisfy it.
module _ (P : WsFrame → Type 0) (of_event : (f : WsFrame) → IsEventFrame f → P f)
    (of_text : (f : WsFrame) → IsTextFrame f → P f) where
  abbrev Held : Option WsFrame → Type 0
  Held none = Unit {0}
  Held (some f) = P f

  abbrev Pumped : PumpPc → Type 0
  Pumped (pump_holding f) = P f
  Pumped _ = Unit {0}

  abbrev HeldBy : Writer → Type 0
  HeldBy w = Held w.held

  abbrev Sent : ℕ × WsFrame → Type 0
  Sent p = P p.1

  record IsMade (s : Client) : Type 0 where
    queue : All P s.send_ch
    pump : Pumped s.pump
    writers : All HeldBy s.writers
    written : All Sent s.written

  replace :
      {ws : List Writer} (before after : List Writer) (w w' : Writer)
      → ws ≡ before ++ (w ∷ after)
      → (HeldBy w → HeldBy w')
      → All HeldBy ws
      → All HeldBy (before ++ (w' ∷ after))
  replace before after w w' e g h =
      let (hb, hw, ha) = All-split HeldBy before after w (subst (All HeldBy) e h) in
      All-append HeldBy before (w' ∷ after) hb (g hw, ha)

  remove :
      {ws : List Writer} (before after : List Writer) (w : Writer)
      → ws ≡ before ++ (w ∷ after)
      → All HeldBy ws
      → All HeldBy (before ++ after)
  remove before after w e h =
      let (hb, hw, ha) = All-split HeldBy before after w (subst (All HeldBy) e h) in
      All-append HeldBy before after hb ha

  holds :
      {ws : List Writer} (before after : List Writer) (w : Writer)
      → ws ≡ before ++ (w ∷ after)
      → All HeldBy ws
      → HeldBy w
  holds before after w e h = (All-split HeldBy before after w (subst (All HeldBy) e h)).1

  module _ {s : Client} (v : IsMade s) where
    Step-queue : {t : Client} → Step s t → All P t.send_ch
    Step-queue (pump_sends f e o room) =
        All-append P s.send_ch (f ∷ []) v.queue (subst Pumped e v.pump, tt)
    Step-queue (json_sends f tf o room) = All-append P s.send_ch (f ∷ []) v.queue (of_text f tf, tt)
    Step-queue (writer_takes before after c f rest e q) = (subst (All P) q v.queue).1
    Step-queue mv = v.queue

    Step-pump : {t : Client} → Step s t → Pumped t.pump
    Step-pump (pump_receives f ef e) = of_event f ef
    Step-pump (pump_sends f e o room) = tt
    Step-pump (pump_ends e) = tt
    Step-pump (pump_gives_up f e c) = tt
    Step-pump mv = v.pump

    Step-writers : {t : Client} → Step s t → All HeldBy t.writers
    Step-writers (writer_starts n c e o) = (tt, v.writers)
    Step-writers (writer_takes before after c f rest e q) =
        replace before after (idle c) (holder c f) e (λ h. (subst (All P) q v.queue).0) v.writers
    Step-writers (writer_writes before after c f e o) =
        replace before after (holder c f) (idle c) e (λ h. tt) v.writers
    Step-writers (writer_fails before after c f e) = remove before after (holder c f) e v.writers
    Step-writers (writer_ends before after c e o) = remove before after (idle c) e v.writers
    Step-writers (writer_sees_end before after c e q o) = remove before after (idle c) e v.writers
    Step-writers mv = v.writers

    Step-written : {t : Client} → Step s t → All Sent t.written
    Step-written (writer_writes before after c f e o) =
        All-append Sent s.written ((c, f) ∷ []) v.written
          (holds before after (holder c f) e v.writers, tt)
    Step-written mv = v.written

  Reach-IsMade : {s : Client} → Reach s → IsMade s
  Reach-IsMade start = record { queue = tt; pump = tt; writers = tt; written = tt }
  Reach-IsMade (later r st) =
      let v = Reach-IsMade r in
      record {
        queue = Step-queue v st;
        pump = Step-pump v st;
        writers = Step-writers v st;
        written = Step-written v st;
      }

  -- Every frame that the client has written is one of an event or of SendJSON, and so has what
  -- these have.
  pub Reach-made : {s : Client} → Reach s → All Sent s.written
  Reach-made r = (Reach-IsMade r).written
