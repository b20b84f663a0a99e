-- ===== src/Agent/Client/Session.antt =====
-- The goroutines of HydraWS in MedusaUserlandAgent/WebSocketWorker.go, interleaved in any order:
-- the event pump, `run`, the loops of each session, callers of SendJSON, and Close. A connection is
-- named by the number of its dial.
pub mod Bounds
pub mod Conservation
pub mod Closing
pub mod Losses
pub mod Queue
pub mod Frames
pub mod Serving
pub mod Starting
pub mod Order
pub mod Made
use open_anti_cheat.Common.{
  ℕ, suc, ◌+◌, ◌<◌, ◌≡◌, Bool, true, false, ◌||◌, Option, none, some, List, [], ◌∷◌, ◌++◌, length,
  ◌==◌, if◌then◌else◌,
}
use open_anti_cheat.Agent.Client.Frame.{WsFrame, IsEventFrame, IsTextFrame, dispatch}

-- `eventPump`: at the outer select, or with a frame at the inner one.
pub data PumpPc : Type 0 where
  pump_waiting : PumpPc
  pump_holding : WsFrame → PumpPc
  pump_stopped : PumpPc

-- `run`: before or in `connect`, or in the select of a session.
pub data RunPc : Type 0 where
  run_dialing : RunPc
  run_session : ℕ → RunPc
  run_stopped : RunPc

-- `Close`: not called, after `cancel`, at `wg.Wait`, and returned.
pub data ClosePc : Type 0 where
  close_idle close_cancelled close_waiting close_done : ClosePc

-- A `writeLoop` over the connection that it has read from `conn`, at its select or with a frame to
-- write.
pub record Writer : Type 0 where
  pub conn : ℕ
  pub held : Option WsFrame

-- The fields that the goroutines share, where each of them is, what has become of the frames, and
-- the messages that `OnMessage` got. `starting` counts the `writeLoop`s that have not looked at
-- `conn` yet; a reader and a pinger are named by the dial that started them.
pub record Client : Type 0 where
  pub send_ch : List WsFrame
  pub send_closed : Bool
  pub cancelled : Bool
  pub conn : Option ℕ
  pub is_open : ℕ → Bool
  pub next_conn : ℕ
  pub pump : PumpPc
  pub run : RunPc
  pub close : ClosePc
  pub starting : ℕ
  pub writers : List Writer
  pub readers : List ℕ
  pub pingers : List ℕ
  pub panicked : Bool
  pub taken : List WsFrame
  pub written : List (ℕ × WsFrame)
  pub dropped : List WsFrame
  pub handed : List (List ℕ)

-- `make(chan wsFrame, 1024)`
abbrev pub send_cap : ℕ
send_cap = 1024

-- `NewHydraWS`
abbrev pub init : Client
init = record {
  send_ch = [];
  send_closed = false;
  cancelled = false;
  conn = none;
  is_open = λ c. false;
  next_conn = 0;
  pump = pump_waiting;
  run = run_dialing;
  close = close_idle;
  starting = 0;
  writers = [];
  readers = [];
  pingers = [];
  panicked = false;
  taken = [];
  written = [];
  dropped = [];
  handed = [];
}

abbrev pub update : (ℕ → Bool) → ℕ → Bool → ℕ → Bool
update f c b k = if c == k then b else f k

-- `if h.conn != nil { h.conn.Close(); h.conn = nil }`
abbrev pub close_conn : Option ℕ → (ℕ → Bool) → ℕ → Bool
close_conn none f = f
close_conn (some c) f = update f c false

abbrev pub idle : ℕ → Writer
idle c = record { conn = c; held = none }

abbrev pub holder : ℕ → WsFrame → Writer
holder c f = record { conn = c; held = some f }

pub data Step (s : Client) : Client → Type 0 where
  -- eventPump
  pump_receives :
      (f : WsFrame)
      → IsEventFrame f
      → s.pump ≡ pump_waiting
      → Step s (record s { pump = pump_holding f; taken = s.taken ++ f ∷ [] })
  pump_sends :
      (f : WsFrame)
      → s.pump ≡ pump_holding f
      → s.send_closed ≡ false
      → length s.send_ch < send_cap
      → Step s (record s { pump = pump_waiting; send_ch = s.send_ch ++ f ∷ [] })
  pump_panics :
      (f : WsFrame)
      → s.pump ≡ pump_holding f
      → s.send_closed ≡ true
      → Step s (record s { panicked = true })
  pump_ends : s.pump ≡ pump_waiting → Step s (record s { pump = pump_stopped })
  pump_gives_up :
      (f : WsFrame)
      → s.pump ≡ pump_holding f
      → s.cancelled ≡ true
      → Step s (record s { pump = pump_stopped; dropped = s.dropped ++ f ∷ [] })
  -- SendJSON
  json_sends :
      (f : WsFrame)
      → IsTextFrame f
      → s.send_closed ≡ false
      → length s.send_ch < send_cap
      → Step s (record s { send_ch = s.send_ch ++ f ∷ []; taken = s.taken ++ f ∷ [] })
  json_panics : s.send_closed ≡ true → Step s (record s { panicked = true })
  -- run: a dial that succeeds starts the three loops of a session.
  dial_succeeds :
      s.run ≡ run_dialing
      → Step s (record s {
        conn = some s.next_conn;
        is_open = update s.is_open s.next_conn true;
        next_conn = suc s.next_conn;
        run = run_session s.next_conn;
        starting = suc s.starting;
        readers = s.next_conn ∷ s.readers;
        pingers = s.next_conn ∷ s.pingers;
      })
  dial_fails : s.run ≡ run_dialing → Step s s
  dial_cancelled :
      s.run ≡ run_dialing → s.cancelled ≡ true → Step s (record s { run = run_stopped })
  session_ends :
      (c : ℕ)
      → s.run ≡ run_session c
      → Step s (record s {
        conn = none;
        is_open = close_conn s.conn s.is_open;
        run = if s.cancelled then run_stopped else run_dialing;
      })
  -- writeLoop: it takes the connection that `conn` names when it comes to look.
  writer_starts :
      (n c : ℕ)
      → s.starting ≡ suc n
      → s.conn ≡ some c
      → Step s (record s { starting = n; writers = idle c ∷ s.writers })
  writer_finds_none :
      (n : ℕ) → s.starting ≡ suc n → s.conn ≡ none → Step s (record s { starting = n })
  writer_takes :
      (before after : List Writer) (c : ℕ) (f : WsFrame) (rest : List WsFrame)
      → s.writers ≡ before ++ (idle c ∷ after)
      → s.send_ch ≡ f ∷ rest
      → Step s (record s { writers = before ++ (holder c f ∷ after); send_ch = rest })
  writer_writes :
      (before after : List Writer) (c : ℕ) (f : WsFrame)
      → s.writers ≡ before ++ (holder c f ∷ after)
      → s.is_open c ≡ true
      → Step s
          (record s { writers = before ++ (idle c ∷ after); written = s.written ++ (c, f) ∷ [] })
  writer_fails :
      (before after : List Writer) (c : ℕ) (f : WsFrame)
      → s.writers ≡ before ++ (holder c f ∷ after)
      → Step s (record s { writers = before ++ after; dropped = s.dropped ++ f ∷ [] })
  writer_ends :
      (before after : List Writer) (c : ℕ)
      → s.writers ≡ before ++ (idle c ∷ after)
      → s.cancelled ≡ true
      → Step s (record s { writers = before ++ after })
  -- The zero frame of a closed channel.
  writer_sees_end :
      (before after : List Writer) (c : ℕ)
      → s.writers ≡ before ++ (idle c ∷ after)
      → s.send_ch ≡ []
      → s.send_closed ≡ true
      → Step s (record s { writers = before ++ after })
  -- readLoop with a message, and pingLoop at a tick.
  reader_reads :
      (before after : List ℕ) (c mt : ℕ) (msg : List ℕ)
      → s.readers ≡ before ++ (c ∷ after)
      → Step s (record s { handed = s.handed ++ dispatch mt msg })
  pinger_pings : (before after : List ℕ) (c : ℕ) → s.pingers ≡ before ++ (c ∷ after) → Step s s
  -- readLoop and pingLoop return on an error of the connection or at the end of the context.
  reader_ends :
      (before after : List ℕ) (c : ℕ)
      → s.readers ≡ before ++ (c ∷ after)
      → Step s (record s { readers = before ++ after })
  pinger_ends :
      (before after : List ℕ) (c : ℕ)
      → s.pingers ≡ before ++ (c ∷ after)
      → Step s (record s { pingers = before ++ after })
  -- Close
  close_cancels :
      s.close ≡ close_idle → Step s (record s { close = close_cancelled; cancelled = true })
  close_drops_conn :
      s.close ≡ close_cancelled
      → Step s
          (record s { close = close_waiting; conn = none; is_open = close_conn s.conn s.is_open })
  close_returns :
      s.close ≡ close_waiting
      → s.pump ≡ pump_stopped
      → s.run ≡ run_stopped
      → s.starting ≡ 0
      → s.writers ≡ []
      → s.readers ≡ []
      → s.pingers ≡ []
      → Step s (record s { close = close_done; send_closed = true })

pub data Reach : Client → Type 0 where
  start : Reach init
  later : {s t : Client} → Reach s → Step s t → Reach t
