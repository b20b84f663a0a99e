-- ===== src/Tests/Sessions.antt =====
-- MedusaUserlandAgent/WebSocketWorker.go: runs of the client's goroutines.
use open_anti_cheat.Common.{
  ℕ, ◌+◌, ◌≤◌, ◌≡◌, List, ◌++◌, map, length, refl, false, some, [], ◌∷◌, arith,
}
use open_anti_cheat.Agent.Client.Session.{
  Client, send_cap, pump_stopped, idle, Reach, start, later, pump_receives, pump_sends, pump_ends,
  writer_starts, dial_succeeds, dial_cancelled, session_ends, close_cancels, close_drops_conn,
  close_returns, json_sends, writer_takes, writer_writes,
}
use open_anti_cheat.Agent.Client.Frame.{WsFrame, dispatch, event_frame, text_frame, IsEventFrame}
use open_anti_cheat.Route.Frames.{IsTaken, Reach-IsTaken}
use open_anti_cheat.Tests.Wire.{
  handle_event, some_padding, handle_event-IsEvent, some_padding-IsPadding,
}
use open_anti_cheat.Agent.Client.Session.Bounds.{Reach-losses}
use open_anti_cheat.Agent.Client.Session.Conservation.{Conserved, Reach-Conserved}
use open_anti_cheat.Agent.Client.Session.Closing.{Reach-closed}
use open_anti_cheat.Agent.Client.Session.Queue
use open_anti_cheat.Agent.Client.Session.Frames.{on}
use open_anti_cheat.Agent.Client.Session.Order.{Reach-ordered}
use open_anti_cheat.Agent.Client.Session.Losses.{stale_writer_loses}

abbrev pub frame : WsFrame
frame = event_frame handle_event some_padding

pub frame-IsEventFrame : IsEventFrame frame
frame-IsEventFrame =
    (handle_event, some_padding, refl, handle_event-IsEvent, some_padding-IsPadding)

-- A session with a write loop, and its end.
abbrev ended : (s : Client) × Reach s
ended = (
  _,
  later (later (later start (dial_succeeds refl)) (writer_starts 0 0 refl refl))
      (session_ends 0 refl),
)

-- A second session, and a frame in the queue.
abbrev queued : (s : Client) × Reach s
queued = (
  _,
  later
      (later (later (later ended.1 (dial_succeeds refl)) (writer_starts 0 1 refl refl))
        (pump_receives frame frame-IsEventFrame refl))
      (pump_sends frame refl refl (omega arith)),
)

-- A client that is closed before it has dialed.
abbrev closed : (s : Client) × Reach s
closed = (
  _,
  later
      (later
        (later (later (later start (pump_ends refl)) (close_cancels refl)) (close_drops_conn refl))
        (dial_cancelled refl refl))
      (close_returns refl refl refl refl refl refl refl),
)

Reach-losses_example :
    length queued.0.taken ≤ length queued.0.written + send_cap + queued.0.next_conn + 1
Reach-losses_example = Reach-losses queued.1

Reach-Conserved_example : Conserved (λ f. f.mt) queued.0
Reach-Conserved_example = Reach-Conserved (λ f. f.mt) queued.1

Reach-closed_example :
    ((c : ℕ) → closed.0.is_open c ≡ false)
    × (closed.0.writers ≡ [])
    × (closed.0.starting ≡ 0)
    × (closed.0.pump ≡ pump_stopped)
Reach-closed_example = Reach-closed closed.1 refl

stale_writer_loses_example :
    (queued.0.is_open 0 ≡ false)
    × ((t : Client) × Reach t
        × (t.conn ≡ some 1)
        × (t.send_ch ≡ [])
        × (t.written ≡ [])
        × (t.dropped ≡ frame ∷ []))
stale_writer_loses_example =
    stale_writer_loses (idle 1 ∷ []) [] 0 1 frame [] queued.1 refl (λ e. omega (arith, e)) refl refl

-- An event and a text are put into the queue of a session, and the event is written.
abbrev served : (s : Client) × Reach s
served = (
  _,
  later
      (later
        (later
          (later
            (later (later (later start (dial_succeeds refl)) (writer_starts 0 0 refl refl))
              (pump_receives frame frame-IsEventFrame refl))
            (pump_sends frame refl refl (omega arith)))
          (json_sends (text_frame []) ([], refl) refl (omega arith)))
        (writer_takes [] [] 0 frame (text_frame [] ∷ []) refl refl))
      (writer_writes [] [] 0 frame refl refl),
)

Reach-IsTaken_example : IsTaken frame × Unit {0}
Reach-IsTaken_example = Reach-IsTaken served.1

Reach-ordered_example :
    (Queue.queued served.1 ≡ map Queue.frame_of (Queue.pulled served.1) ++ served.0.send_ch)
    × ((c : ℕ)
        → (tail : List WsFrame) × (on c (Queue.pulled served.1) ≡ on c served.0.written ++ tail)
          × (length tail ≤ 1))
Reach-ordered_example = Reach-ordered served.1 ((((((((tt, refl), tt), tt), tt), tt), tt), tt))

served_written : served.0.written ≡ (0, frame) ∷ []
served_written = refl

-- A `writeLoop` that comes to look at `conn` only in the next session shares its connection with
-- the one of that session.
abbrev shared : (s : Client) × Reach s
shared = (
  _,
  later
      (later
        (later (later (later start (dial_succeeds refl)) (session_ends 0 refl))
          (dial_succeeds refl))
        (writer_starts 1 1 refl refl))
      (writer_starts 0 1 refl refl),
)

shared_writers : shared.0.writers ≡ idle 1 ∷ idle 1 ∷ []
shared_writers = refl

dispatched : (dispatch 1 (7 ∷ []) ≡ (7 ∷ []) ∷ []) × (dispatch 9 (7 ∷ []) ≡ [])
unfolding dispatch
dispatched = (refl, refl)
