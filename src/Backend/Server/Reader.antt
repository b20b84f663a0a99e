-- ===== src/Backend/Server/Reader.antt =====
-- handleWS of MedusaBackend/WSServer.go in time: the loop over `ReadMessage` with its read
-- deadline, which each pong moves on. A time is a number of nanoseconds.
use open_anti_cheat.Common.{
  ℕ, ◌+◌, ◌≤◌, ◌<◌, ◌≡◌, refl, ap, Option, none, some, List, [], ◌∷◌, ◌++◌, min, max, ltb, lt→ltb,
  if◌then◌else◌, arith,
}
use open_anti_cheat.Event.{AcEvent}
use open_anti_cheat.Backend.Server.{accept}

-- What the connection has for `ReadMessage`, by when it is there: a message, with how long the
-- select would wait with its event for room in Recv, a pong, or an error.
pub data Arrival : Type 0 where
  message : (at mt : ℕ) (msg : List ℕ) (waits : ℕ) → Arrival
  pong : (at : ℕ) → Arrival
  failure : (at : ℕ) → Arrival

-- 60 * time.Second
abbrev pub patience : ℕ
patience = 60000000000

abbrev taken : ℕ → Option AcEvent → List (ℕ × AcEvent)
taken t none = []
taken t (some e) = (t, e) ∷ []

abbrev waited : ℕ → ℕ → Option AcEvent → ℕ
waited t waits none = t
waited t waits (some e) = t + waits

-- The events for Recv, and since when, and when the handler leaves the loop, while the server runs.
-- A read fails at the deadline, or at once behind it; a frame that the library had in its buffer by
-- then would still be read, which this leaves aside.
unfoldable pub read_until : (deadline now : ℕ) → List Arrival → List (ℕ × AcEvent) × ℕ
read_until deadline now [] = ([], max now deadline)
read_until deadline now (message at mt msg waits ∷ as') =
    let t = max now at in
    let ev = accept mt msg in
    let rest = read_until deadline (waited t waits ev) as' in
    if ltb t deadline then (taken t ev ++ rest.0, rest.1) else ([], max now deadline)
read_until deadline now (pong at ∷ as') =
    let t = max now at in
    let rest = read_until (t + patience) t as' in
    if ltb t deadline then rest else ([], max now deadline)
read_until deadline now (failure at ∷ as') = ([], max now (min at deadline))

-- The loop of `handleWS`, with the deadline that it sets before it.
unfoldable pub handle_ws : ℕ → List Arrival → List (ℕ × AcEvent) × ℕ
unfolding read_until
handle_ws start as' = read_until (start + patience) start as'

-- Each arrival comes in time after the pong before it, or the start, and nothing waits for room in
-- Recv.
abbrev pub Alive : ℕ → ℕ → List Arrival → Type 0
Alive last now [] = Unit {0}
Alive last now (message at mt msg waits ∷ as') =
    (now ≤ at) × (at < last + patience) × (waits ≡ 0) × Alive last at as'
Alive last now (pong at ∷ as') = (now ≤ at) × (at < last + patience) × Alive at at as'
Alive last now (failure at ∷ as') = (now ≤ at) × (at < last + patience)

-- The events that come before the first error, by when they come.
abbrev pub events_of : List Arrival → List (ℕ × AcEvent)
events_of [] = []
events_of (message at mt msg waits ∷ as') = taken at (accept mt msg) ++ events_of as'
events_of (pong at ∷ as') = events_of as'
events_of (failure at ∷ as') = []

-- When the first error comes, or else the patience after the last pong ends.
abbrev pub ends : ℕ → List Arrival → ℕ
ends last [] = last + patience
ends last (message at mt msg waits ∷ as') = ends last as'
ends last (pong at ∷ as') = ends at as'
ends last (failure at ∷ as') = at

no_wait : (t waits : ℕ) (o : Option AcEvent) → waits ≡ 0 → waited t waits o ≡ t
no_wait t waits none h = refl
no_wait t waits (some e) h = omega (arith, h)

later : (now at : ℕ) → now ≤ at → max now at ≡ at
later now at h = omega arith

read_until-Alive :
    (last now : ℕ) (as' : List Arrival)
    → now ≤ last + patience
    → Alive last now as'
    → read_until (last + patience) now as' ≡ (events_of as', ends last as')
unfolding read_until
read_until-Alive last now [] le h = ap (λ (n : ℕ). ([], n)) (omega arith)
read_until-Alive last now (message at mt msg waits ∷ as') le (ge, lt, z, h) =
    rw
      (
        later now at ge,
        no_wait at waits (accept mt msg) z,
        lt→ltb _ _ lt,
        read_until-Alive last at as' (omega arith) h,
      )
      refl
read_until-Alive last now (pong at ∷ as') le (ge, lt, h) =
    rw (later now at ge, lt→ltb _ _ lt) (read_until-Alive at at as' (omega arith) h)
read_until-Alive last now (failure at ∷ as') le (ge, lt) = ap (λ (n : ℕ). ([], n)) (omega arith)

-- The handler of a connection whose arrivals each come within 60 seconds after the last pong before
-- it, or after the start, and whose events find room in Recv, takes just the events that come
-- before the first error, each when it comes, and leaves its loop at that error, or 60 seconds
-- after the last pong if there is none.
pub handle_ws-Alive :
    (start : ℕ) (as' : List Arrival)
    → Alive start start as'
    → handle_ws start as' ≡ (events_of as', ends start as')
unfolding handle_ws
handle_ws-Alive start as' h = read_until-Alive start start as' (omega arith) h
