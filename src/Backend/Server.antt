-- ===== src/Backend/Server.antt =====
-- HydraWSServer of MedusaBackend/WSServer.go: the handlers of the connections, the broadcaster, the
-- consumer of main and Close, interleaved in any order over the map of connections, its RWMutex and
-- the channel of events. A connection is named by a number.
pub mod Locking
pub mod Registry
pub mod Panics
pub mod Messages
pub mod Releasing
pub mod Rounds
pub mod Delivery
pub mod Reader
use open_anti_cheat.Common.{
  ℕ, suc, ◌+◌, ◌<◌, ◌≡◌, Bool, true, false, ◌&&◌, Option, none, some, List, [], ◌∷◌, ◌++◌, length,
  ◌==◌, if◌then◌else◌,
}
use open_anti_cheat.Event.{AcEvent, event_size, event_of_bytes}

-- `websocket.BinaryMessage`
abbrev pub binary_message : ℕ
binary_message = 2

-- The event of a message, if it is one of the right type and size.
unfoldable pub accept : ℕ → List ℕ → Option AcEvent
accept mt msg =
    if mt == binary_message && length msg == event_size then some (event_of_bytes msg) else none

-- `handleWS` after the upgrade: on the way to its Lock, with it, in ReadMessage, at the select with
-- an event, in the deferred function before and after its Lock, and returned.
pub data HandlerPc : Type 0 where
  absent registering registering_locked reading : HandlerPc
  sending : AcEvent → HandlerPc
  leaving leaving_locked gone : HandlerPc

-- A round of the broadcaster: its command, the connections that were registered when it began, and
-- those that it has come to.
pub record Round : Type 0 where
  pub cmd : List ℕ
  pub at_start : ℕ → Bool
  pub seen : ℕ → Bool

-- The broadcaster: at its select, in the loop over the connections,
-- on the way to the Lock for a broken one, with it, on the way back to its RLock, in the loop of
-- pings, and returned.
pub data BroadcastPc : Type 0 where
  waiting stopped pinging : BroadcastPc
  writing : Round → BroadcastPc
  dropping deleting : ℕ → Round → BroadcastPc
  relocking : Round → BroadcastPc

-- Who holds `mu` for writing.
pub data Owner : Type 0 where
  handler : ℕ → Owner
  broadcaster : Owner

-- `mu`; the broadcaster is its one reader.
pub data Mutex : Type 0 where
  free read_locked : Mutex
  write_locked : Owner → Mutex

pub record Server : Type 0 where
  pub conns : ℕ → Bool
  pub mu : Mutex
  pub recv : List AcEvent
  pub capacity : ℕ
  pub recv_closed : Bool
  pub cancelled : Bool
  pub handlers : ℕ → HandlerPc
  pub broadcast : BroadcastPc
  pub panicked : Bool
  pub send_text : List (List ℕ)
  pub sent : List AcEvent
  pub consumed : List AcEvent

-- `NewHydraWSServer` with a buffer of `buf`.
abbrev pub init : ℕ → Server
init buf = record {
  conns = λ c. false;
  mu = free;
  recv = [];
  capacity = buf;
  recv_closed = false;
  cancelled = false;
  handlers = λ c. absent;
  broadcast = waiting;
  panicked = false;
  send_text = [];
  sent = [];
  consumed = [];
}

-- `"scanDLL"`
abbrev pub scan_dll : List ℕ
scan_dll = 115 ∷ 99 ∷ 97 ∷ 110 ∷ 68 ∷ 76 ∷ 76 ∷ []

abbrev pub put {ℓ} : {A : Type ℓ} → (ℕ → A) → ℕ → A → ℕ → A
put f c a k = if c == k then a else f k

abbrev pub visit : Round → ℕ → Round
visit r c = record r { seen = put r.seen c true }

pub data Step (s : Server) : Server → Type 0 where
  -- handleWS
  upgrades :
      (c : ℕ)
      → s.handlers c ≡ absent
      → Step s (record s { handlers = put s.handlers c registering })
  locks_to_register :
      (c : ℕ)
      → s.handlers c ≡ registering
      → s.mu ≡ free
      → Step s (record s {
        handlers = put s.handlers c registering_locked;
        mu = write_locked (handler c);
      })
  registers :
      (c : ℕ)
      → s.handlers c ≡ registering_locked
      → Step s
          (record s { handlers = put s.handlers c reading; conns = put s.conns c true; mu = free })
  skips : (c mt : ℕ) (msg : List ℕ) → s.handlers c ≡ reading → accept mt msg ≡ none → Step s s
  accepts :
      (c mt : ℕ) (msg : List ℕ) (e : AcEvent)
      → s.handlers c ≡ reading
      → accept mt msg ≡ some e
      → Step s (record s { handlers = put s.handlers c (sending e) })
  read_fails :
      (c : ℕ) → s.handlers c ≡ reading → Step s (record s { handlers = put s.handlers c leaving })
  sends :
      (c : ℕ) (e : AcEvent)
      → s.handlers c ≡ sending e
      → s.recv_closed ≡ false
      → length s.recv < s.capacity
      → Step s (record s {
        handlers = put s.handlers c reading;
        recv = s.recv ++ e ∷ [];
        sent = s.sent ++ e ∷ [];
      })
  send_panics :
      (c : ℕ) (e : AcEvent)
      → s.handlers c ≡ sending e
      → s.recv_closed ≡ true
      → Step s (record s { panicked = true })
  gives_up :
      (c : ℕ) (e : AcEvent)
      → s.handlers c ≡ sending e
      → s.cancelled ≡ true
      → Step s (record s { handlers = put s.handlers c leaving })
  locks_to_leave :
      (c : ℕ)
      → s.handlers c ≡ leaving
      → s.mu ≡ free
      → Step s
          (record s { handlers = put s.handlers c leaving_locked; mu = write_locked (handler c) })
  leaves :
      (c : ℕ)
      → s.handlers c ≡ leaving_locked
      → Step s
          (record s { handlers = put s.handlers c gone; conns = put s.conns c false; mu = free })
  -- the broadcaster's goroutine
  begins :
      (cmd : List ℕ) (rest : List (List ℕ))
      → s.broadcast ≡ waiting
      → s.send_text ≡ cmd ∷ rest
      → s.mu ≡ free
      → Step s (record s {
        broadcast = writing (record { cmd = cmd; at_start = s.conns; seen = λ c. false });
        mu = read_locked;
        send_text = rest;
      })
  writes :
      (c : ℕ) (r : Round)
      → s.broadcast ≡ writing r
      → s.conns c ≡ true
      → r.seen c ≡ false
      → Step s (record s { broadcast = writing (visit r c) })
  write_fails :
      (c : ℕ) (r : Round)
      → s.broadcast ≡ writing r
      → s.conns c ≡ true
      → r.seen c ≡ false
      → Step s (record s { broadcast = dropping c (visit r c); mu = free })
  locks_to_drop :
      (c : ℕ) (r : Round)
      → s.broadcast ≡ dropping c r
      → s.mu ≡ free
      → Step s (record s { broadcast = deleting c r; mu = write_locked broadcaster })
  deletes :
      (c : ℕ) (r : Round)
      → s.broadcast ≡ deleting c r
      → Step s (record s { broadcast = relocking r; conns = put s.conns c false; mu = free })
  relocks :
      (r : Round)
      → s.broadcast ≡ relocking r
      → s.mu ≡ free
      → Step s (record s { broadcast = writing r; mu = read_locked })
  ends_broadcast :
      (r : Round)
      → s.broadcast ≡ writing r
      → ((c : ℕ) → r.at_start c ≡ true → s.conns c ≡ true → r.seen c ≡ true)
      → Step s (record s { broadcast = waiting; mu = free })
  begins_pings :
      s.broadcast ≡ waiting
      → s.mu ≡ free
      → Step s (record s { broadcast = pinging; mu = read_locked })
  ends_pings : s.broadcast ≡ pinging → Step s (record s { broadcast = waiting; mu = free })
  stops : s.broadcast ≡ waiting → s.cancelled ≡ true → Step s (record s { broadcast = stopped })
  -- the loop of main, and its consumer
  commands :
      length s.send_text < s.capacity
      → Step s (record s { send_text = s.send_text ++ scan_dll ∷ [] })
  consumes :
      (e : AcEvent) (rest : List AcEvent)
      → s.recv ≡ e ∷ rest
      → Step s (record s { recv = rest; consumed = s.consumed ++ e ∷ [] })
  -- ListenAndServe that fails, and Close
  cancels : Step s (record s { cancelled = true })
  closes : s.cancelled ≡ true → s.recv_closed ≡ false → Step s (record s { recv_closed = true })

pub data Reach (buf : ℕ) : Server → Type 0 where
  start : Reach buf (init buf)
  later : {s t : Server} → Reach buf s → Step s t → Reach buf t
