-- ===== src/Agent/Client/Session/Order.antt =====
-- HydraWS of MedusaUserlandAgent/WebSocketWorker.go: the frames of one connection.
use open_anti_cheat.Common.{ℕ, ◌≤◌, ◌≡◌, refl, none, some, List, [], ◌++◌, map, length, arith}
use open_anti_cheat.Agent.Client.Session.{
  Client, Step, Reach, start, later, pump_receives, pump_sends, pump_panics, pump_ends,
  pump_gives_up, json_sends, json_panics, dial_succeeds, dial_fails, dial_cancelled, session_ends,
  writer_starts, writer_finds_none, writer_takes, writer_writes, writer_fails, writer_ends,
  writer_sees_end, reader_reads, pinger_pings, reader_ends, pinger_ends, close_cancels,
  close_drops_conn, close_returns,
}
use open_anti_cheat.Agent.Client.Frame.{WsFrame}
use open_anti_cheat.Agent.Client.Session.Frames.{on}
use open_anti_cheat.Agent.Client.Session.Queue.{
  IsPrompt, IsPromptStep, queued, pulled, taken_by, frame_of, Reach-Queued,
}
use open_anti_cheat.Agent.Client.Session.Serving.{
  IsOrdered, IsOrdered-take, IsOrdered-write, IsOrdered-leave,
}
use open_anti_cheat.Agent.Client.Session.Starting.{
  IsOrdered-writers, IsOrdered-dial, IsOrdered-close, IsOrdered-none, IsOrdered-start,
}

module _ (c : ℕ) where
  Step-IsOrdered :
      {s t : Client} (st : Step s t) (p : List (ℕ × WsFrame))
      → IsPromptStep st
      → IsOrdered c s.conn s.next_conn s.starting s.writers s.written p
      → IsOrdered c t.conn t.next_conn t.starting t.writers t.written (taken_by st p)
  Step-IsOrdered (pump_receives f ef e) p z v = v
  Step-IsOrdered (pump_sends f e o room) p z v = v
  Step-IsOrdered (pump_panics f e o) p z v = v
  Step-IsOrdered (pump_ends e) p z v = v
  Step-IsOrdered (pump_gives_up f e d) p z v = v
  Step-IsOrdered (json_sends f tf o room) p z v = v
  Step-IsOrdered (json_panics o) p z v = v
  Step-IsOrdered (dial_succeeds e) p z v = IsOrdered-dial c z v
  Step-IsOrdered (dial_fails e) p z v = v
  Step-IsOrdered (dial_cancelled e d) p z v = v
  Step-IsOrdered (session_ends k e) p z v = IsOrdered-close c v
  Step-IsOrdered (writer_starts n k e o) p z v = IsOrdered-start c n k e o v
  Step-IsOrdered (writer_finds_none n e o) p z v = IsOrdered-none c n e v
  Step-IsOrdered {s} (writer_takes before after k f rest e q) p z v =
      IsOrdered-take c s.written p before after k f (IsOrdered-writers c e v)
  Step-IsOrdered {s} (writer_writes before after k f e o) p z v =
      IsOrdered-write c s.written p before after k f (IsOrdered-writers c e v)
  Step-IsOrdered {s} (writer_fails before after k f e) p z v =
      IsOrdered-leave c s.written p before after k (some f) (IsOrdered-writers c e v)
  Step-IsOrdered {s} (writer_ends before after k e o) p z v =
      IsOrdered-leave c s.written p before after k none (IsOrdered-writers c e v)
  Step-IsOrdered {s} (writer_sees_end before after k e q o) p z v =
      IsOrdered-leave c s.written p before after k none (IsOrdered-writers c e v)
  Step-IsOrdered (reader_reads before after k mt msg e) p z v = v
  Step-IsOrdered (pinger_pings before after k e) p z v = v
  Step-IsOrdered (reader_ends before after k e) p z v = v
  Step-IsOrdered (pinger_ends before after k e) p z v = v
  Step-IsOrdered (close_cancels e) p z v = v
  Step-IsOrdered (close_drops_conn e) p z v = IsOrdered-close c v
  Step-IsOrdered (close_returns e a r b w x y) p z v = v

  Reach-IsOrdered :
      {s : Client} (r : Reach s)
      → IsPrompt r
      → IsOrdered c s.conn s.next_conn s.starting s.writers s.written (pulled r)
  Reach-IsOrdered start h = record {
    last = λ k e. cc;
    starting_once = omega arith;
    single = omega arith;
    fresh = λ l. (refl, refl);
    tail = [];
    whole = refl;
    short = omega arith;
    in_hands = λ l. refl;
  }
  Reach-IsOrdered (later r st) (h, hs) = Step-IsOrdered st (pulled r) hs (Reach-IsOrdered r h)

-- In every state that the client can reach without a session that begins before the `writeLoop` of
-- the one before has looked at `conn`, the frames leave the queue in the order in which they were
-- put in, those that were not taken out wait in it, and for each connection the frames that were
-- written on it are, in order, those that its `writeLoop` has taken, but for one at most, the last.
pub Reach-ordered :
    {s : Client} (r : Reach s)
    → IsPrompt r
    → (queued r ≡ map frame_of (pulled r) ++ s.send_ch)
      × ((c : ℕ)
          → (tail : List WsFrame) × (on c (pulled r) ≡ on c s.written ++ tail) × (length tail ≤ 1))
Reach-ordered r h =
    (Reach-Queued r, λ c. let v = Reach-IsOrdered c r h in (v.tail, v.whole, v.short))
