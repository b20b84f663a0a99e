-- ===== src/Agent/Client/Session/Conservation.antt =====
-- HydraWS of MedusaUserlandAgent/WebSocketWorker.go: where the frames are.
use open_anti_cheat.Common.{ℕ, ◌+◌, ◌≡◌, refl, ap, Option, none, some, List, [], ◌∷◌, ◌++◌, arith}
use open_anti_cheat.Agent.Client.Session.{
  PumpPc, pump_holding, Client, Writer, idle, holder, Step, Reach, start, later, pump_receives,
  pump_sends, pump_panics, pump_ends, pump_gives_up, json_sends, json_panics, dial_succeeds,
  dial_fails, dial_cancelled, session_ends, writer_starts, writer_finds_none, writer_takes,
  writer_writes, writer_fails, writer_ends, writer_sees_end, reader_reads, pinger_pings,
  reader_ends, pinger_ends, close_cancels, close_drops_conn, close_returns,
}
use open_anti_cheat.Agent.Client.Frame.{WsFrame}

-- Sums of a weight over the places where a frame can be. With the weight 1 for one frame and 0 for
-- the others they count that frame.
module _ (weight : WsFrame → ℕ) where
  abbrev pub weigh : List WsFrame → ℕ
  weigh [] = 0
  weigh (f ∷ fs) = weight f + weigh fs

  abbrev pub weigh_written : List (ℕ × WsFrame) → ℕ
  weigh_written [] = 0
  weigh_written ((c, f) ∷ fs) = weight f + weigh_written fs

  abbrev pub weigh_held : Option WsFrame → ℕ
  weigh_held none = 0
  weigh_held (some f) = weight f

  abbrev pub weigh_writers : List Writer → ℕ
  weigh_writers [] = 0
  weigh_writers (w ∷ ws) = weigh_held w.held + weigh_writers ws

  abbrev pub weigh_pump : PumpPc → ℕ
  weigh_pump (pump_holding f) = weight f
  weigh_pump _ = 0

  weigh-append : (xs ys : List WsFrame) → weigh (xs ++ ys) ≡ weigh xs + weigh ys
  weigh-append [] ys = omega arith
  weigh-append (x ∷ xs) ys = omega (arith, weigh-append xs ys)

  weigh_written-append :
      (xs ys : List (ℕ × WsFrame)) → weigh_written (xs ++ ys) ≡ weigh_written xs + weigh_written ys
  weigh_written-append [] ys = omega arith
  weigh_written-append ((c, f) ∷ xs) ys = omega (arith, weigh_written-append xs ys)

  weigh_writers-append :
      (xs ys : List Writer) → weigh_writers (xs ++ ys) ≡ weigh_writers xs + weigh_writers ys
  weigh_writers-append [] ys = omega arith
  weigh_writers-append (x ∷ xs) ys = omega (arith, weigh_writers-append xs ys)

  -- The frames that came in are those in the queue, in hand, written and dropped.
  abbrev pub Conserved : Client → Type 0
  Conserved s =
      weigh s.taken
      ≡ weigh s.send_ch
        + weigh_pump s.pump
        + weigh_writers s.writers
        + weigh_written s.written
        + weigh s.dropped

  split :
      {ws : List Writer} (before after : List Writer) (w : Writer)
      → ws ≡ before ++ (w ∷ after)
      → weigh_writers ws ≡ weigh_writers before + weigh_held w.held + weigh_writers after
  split before after w e =
      omega (arith, ap weigh_writers e, weigh_writers-append before (w ∷ after))

  Step-Conserved : {s t : Client} → Step s t → Conserved s → Conserved t
  Step-Conserved {s} (pump_receives f ef e) v = ground (arith, weigh-append s.taken (f ∷ []))
  Step-Conserved {s} (pump_sends f e o room) v = ground (arith, weigh-append s.send_ch (f ∷ []))
  Step-Conserved (pump_panics f e o) v = v
  Step-Conserved (pump_ends e) v = ground arith
  Step-Conserved {s} (pump_gives_up f e c) v = ground (arith, weigh-append s.dropped (f ∷ []))
  Step-Conserved {s} (json_sends f tf o room) v =
      ground (arith, weigh-append s.send_ch (f ∷ []), weigh-append s.taken (f ∷ []))
  Step-Conserved (json_panics o) v = v
  Step-Conserved (dial_succeeds e) v = omega arith
  Step-Conserved (dial_fails e) v = v
  Step-Conserved (dial_cancelled e c) v = v
  Step-Conserved (session_ends c e) v = v
  Step-Conserved (writer_starts n c e o) v = omega (arith, v)
  Step-Conserved (writer_finds_none n e o) v = v
  Step-Conserved (writer_takes before after c f rest e q) v = omega (
    arith,
    ap weigh q,
    split before after (idle c) e,
    weigh_writers-append before (holder c f ∷ after),
  )
  Step-Conserved {s} (writer_writes before after c f e o) v = omega (
    arith,
    split before after (holder c f) e,
    weigh_writers-append before (idle c ∷ after),
    weigh_written-append s.written ((c, f) ∷ []),
  )
  Step-Conserved {s} (writer_fails before after c f e) v = omega (
    arith,
    split before after (holder c f) e,
    weigh_writers-append before after,
    weigh-append s.dropped (f ∷ []),
  )
  Step-Conserved (writer_ends before after c e o) v =
      omega (arith, split before after (idle c) e, weigh_writers-append before after)
  Step-Conserved (writer_sees_end before after c e q o) v =
      omega (arith, split before after (idle c) e, weigh_writers-append before after)
  Step-Conserved (reader_reads before after c mt msg e) v = v
  Step-Conserved (pinger_pings before after c e) v = v
  Step-Conserved (reader_ends before after c e) v = v
  Step-Conserved (pinger_ends before after c e) v = v
  Step-Conserved (close_cancels e) v = v
  Step-Conserved (close_drops_conn e) v = v
  Step-Conserved (close_returns e p r z w x y) v = v

  -- In every state that the client can reach, each frame that came in is in the queue, in the hands
  -- of the pump or of a writer, written or dropped, as often as it came in: whatever weight the
  -- frames are given, the weights add up.
  pub Reach-Conserved : {s : Client} → Reach s → Conserved s
  Reach-Conserved start = refl
  Reach-Conserved (later r st) = Step-Conserved st (Reach-Conserved r)
