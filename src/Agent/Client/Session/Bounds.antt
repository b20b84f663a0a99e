-- ===== src/Agent/Client/Session/Bounds.antt =====
-- HydraWS of MedusaUserlandAgent/WebSocketWorker.go: how many of the frames that came in can be
-- unwritten.
use open_anti_cheat.Common.{
  ℕ, ◌+◌, ◌≤◌, ◌≡◌, refl, ap, Option, none, some, List, [], ◌∷◌, ◌++◌, length, length-append,
  length-snoc, arith,
}
use open_anti_cheat.Agent.Client.Frame.{WsFrame}
use open_anti_cheat.Agent.Client.Session.Conservation.{
  weigh, weigh_written, weigh_held, weigh_writers, weigh_pump, Reach-Conserved,
}
use open_anti_cheat.Agent.Client.Session.{
  PumpPc, pump_waiting, pump_holding, pump_stopped, Client, Writer, send_cap, idle, holder, Step,
  Reach, start, later, pump_receives, pump_sends, pump_panics, pump_ends, pump_gives_up, json_sends,
  json_panics, dial_succeeds, dial_fails, dial_cancelled, session_ends, writer_starts,
  writer_finds_none, writer_takes, writer_writes, writer_fails, writer_ends, writer_sees_end,
  reader_reads, pinger_pings, reader_ends, pinger_ends, close_cancels, close_drops_conn,
  close_returns,
}

-- The pump loses the frame that it holds when it stops, and no other.
abbrev pub pump_due : PumpPc → ℕ
pump_due pump_stopped = 0
pump_due _ = 1

pub record InBounds (s : Client) : Type 0 where
  pub queue : length s.send_ch ≤ send_cap
  pub losses : length s.dropped + s.starting + length s.writers + pump_due s.pump ≤ s.next_conn + 1

split_length :
    {ws : List Writer} (before after : List Writer) (w : Writer)
    → ws ≡ before ++ (w ∷ after)
    → length ws ≡ length before + 1 + length after
split_length before after w e = omega (arith, ap length e, length-append before (w ∷ after))

Step-InBounds : {s t : Client} → Step s t → InBounds s → InBounds t
Step-InBounds {s} (pump_receives f ef e) v = ground (arith)
Step-InBounds {s} (pump_sends f e o room) v = ground (arith, length-snoc s.send_ch f)
Step-InBounds (pump_panics f e o) v = record { queue = v.queue; losses = v.losses }
Step-InBounds (pump_ends e) v = ground arith
Step-InBounds {s} (pump_gives_up f e c) v = ground (arith, length-snoc s.dropped f)
Step-InBounds {s} (json_sends f tf o room) v = ground (arith, length-snoc s.send_ch f)
Step-InBounds (json_panics o) v = record { queue = v.queue; losses = v.losses }
Step-InBounds (dial_succeeds e) v = record { queue = v.queue; losses = omega (arith, v.losses) }
Step-InBounds (dial_fails e) v = v
Step-InBounds (dial_cancelled e c) v = record { queue = v.queue; losses = v.losses }
Step-InBounds (session_ends c e) v = record { queue = v.queue; losses = v.losses }
Step-InBounds (writer_starts n c e o) v = record {
  queue = v.queue;
  losses = omega (arith, v.losses, e);
}
Step-InBounds (writer_finds_none n e o) v = record {
  queue = v.queue;
  losses = omega (arith, v.losses, e);
}
Step-InBounds {s} (writer_takes before after c f rest e q) v = ground (
  arith,
  ap length q,
  split_length before after (idle c) e,
  length-append before (holder c f ∷ after),
)
Step-InBounds {s} (writer_writes before after c f e o) v =
    ground (arith, split_length before after (holder c f) e, length-append before (idle c ∷ after))
Step-InBounds {s} (writer_fails before after c f e) v = ground (
  arith,
  split_length before after (holder c f) e,
  length-append before after,
  length-snoc s.dropped f,
)
Step-InBounds {s} (writer_ends before after c e o) v =
    ground (arith, split_length before after (idle c) e, length-append before after)
Step-InBounds {s} (writer_sees_end before after c e q o) v =
    ground (arith, split_length before after (idle c) e, length-append before after)
Step-InBounds (reader_reads before after c mt msg e) v = record {
  queue = v.queue;
  losses = v.losses;
}
Step-InBounds (pinger_pings before after c e) v = v
Step-InBounds (reader_ends before after c e) v = record { queue = v.queue; losses = v.losses }
Step-InBounds (pinger_ends before after c e) v = record { queue = v.queue; losses = v.losses }
Step-InBounds (close_cancels e) v = record { queue = v.queue; losses = v.losses }
Step-InBounds (close_drops_conn e) v = record { queue = v.queue; losses = v.losses }
Step-InBounds (close_returns e p r z w x y) v = record { queue = v.queue; losses = v.losses }

Reach-InBounds : {s : Client} → Reach s → InBounds s
Reach-InBounds start = omega arith
Reach-InBounds (later r st) = Step-InBounds st (Reach-InBounds r)

abbrev one : WsFrame → ℕ
one f = 1

weigh-one : (fs : List WsFrame) → weigh one fs ≡ length fs
weigh-one [] = refl
weigh-one (f ∷ fs) = omega (arith, weigh-one fs)

weigh_written-one : (fs : List (ℕ × WsFrame)) → weigh_written one fs ≡ length fs
weigh_written-one [] = refl
weigh_written-one ((c, f) ∷ fs) = omega (arith, weigh_written-one fs)

weigh_held-one : (o : Option WsFrame) → weigh_held one o ≤ 1
weigh_held-one none = omega arith
weigh_held-one (some f) = omega arith

weigh_writers-one : (ws : List Writer) → weigh_writers one ws ≤ length ws
weigh_writers-one [] = omega arith
weigh_writers-one (w ∷ ws) = omega (arith, weigh_held-one w.held, weigh_writers-one ws)

weigh_pump-one : (p : PumpPc) → weigh_pump one p ≤ pump_due p
weigh_pump-one pump_waiting = omega arith
weigh_pump-one (pump_holding f) = omega arith
weigh_pump-one pump_stopped = omega arith

-- In every state that the client can reach, the ones after Close included, the frames that came in
-- and were not written, those left in the queue and in hand among them, are no more than the
-- queue's 1024, one for each dial that succeeded, and one for the pump.
pub Reach-losses :
    {s : Client} → Reach s → length s.taken ≤ length s.written + send_cap + s.next_conn + 1
Reach-losses {s} r =
    let bounds = Reach-InBounds r in
    omega (
      arith,
      Reach-Conserved one r,
      bounds.queue,
      bounds.losses,
      weigh-one s.taken,
      weigh-one s.send_ch,
      weigh-one s.dropped,
      weigh_written-one s.written,
      weigh_writers-one s.writers,
      weigh_pump-one s.pump,
    )
