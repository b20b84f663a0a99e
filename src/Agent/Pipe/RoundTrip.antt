-- ===== src/Agent/Pipe/RoundTrip.antt =====
-- From the DLL that writes events to the agent that reads them, with other messages in between.
use open_anti_cheat.Common.{
  ℕ, ◌≡◌, ◌≢◌, ◌<◌, ◌⊎◌, Bool, true, ◌++◌, arith, refl, sym, ◌∙◌, List, [], ◌∷◌, ◌≤◌, some, length,
  All,
}
use open_anti_cheat.Event.{AcEvent, Padding, event_size, ev_to_bytes, IsEvent, IsPadding}
use open_anti_cheat.Event.Wire.{length-ev_to_bytes, event_of_bytes-ev_to_bytes}
use open_anti_cheat.Agent.Pipe.{ReadFile, read_loop}
use open_anti_cheat.Agent.Pipe.Delivery.{
  MessageMode, events_of, events_of_event, events_of_other, reads,
}
use open_anti_cheat.Agent.Pipe.Early.{IsShort, read_loop-Front}

-- A client writes the bytes of an event, or something that is shorter and not empty.
pub data Write : Type 0 where
  event : AcEvent → Padding → Write
  stray : List ℕ → Write

abbrev pub message : Write → List ℕ
message (event e p) = ev_to_bytes e p
message (stray m) = m

abbrev pub messages : List Write → List (List ℕ)
messages [] = []
messages (w ∷ ws) = message w ∷ messages ws

abbrev pub IsWrite : Write → Type 0
IsWrite (event e p) = IsEvent e × IsPadding p
IsWrite (stray m) = (length m ≢ 0) × (length m < event_size)

abbrev pub written : List Write → List AcEvent
written [] = []
written (event e p ∷ ws) = e ∷ written ws
written (stray m ∷ ws) = written ws

events_of-messages : (ws : List Write) → All IsWrite ws → events_of (messages ws) ≡ written ws
events_of-messages [] h = unfold events_of in refl
events_of-messages (event e p ∷ ws) ((he, hp), hws) =
    events_of_event _ (messages ws) (length-ev_to_bytes e p he hp)
    ∙ cc (event_of_bytes-ev_to_bytes e p he hp, events_of-messages ws hws)
events_of-messages (stray m ∷ ws) ((some_bytes, other), hws) =
    events_of_other m (messages ws) some_bytes (omega arith) ∙ events_of-messages ws hws

messages-IsShort : (ws : List Write) → All IsWrite ws → All IsShort (messages ws)
messages-IsShort [] h = tt
messages-IsShort (event e p ∷ ws) ((he, hp), hws) =
    (omega (arith, length-ev_to_bytes e p he hp), messages-IsShort ws hws)
messages-IsShort (stray m ∷ ws) ((some_bytes, small), hws) = (omega arith, messages-IsShort ws hws)

-- The agent's loop, with fuel for every read, returns and has sent to its channel, in order, events
-- that the client wrote and nothing else, whatever shorter messages that are not empty stand
-- between them: all of them, or those before a read that reports too early.
pub read_loop-written :
    (sys : ReadFile) (pending : sys.Handle → List (List ℕ)) (early : sys.Handle → ℕ → Bool)
    → MessageMode sys pending early
    → (ws : List Write) (fuel : ℕ) (h : sys.Handle) (buf : List ℕ) → All IsWrite ws
    → pending h ≡ messages ws
    → reads (messages ws) ≤ fuel
    → (front : List AcEvent) × (rest : List AcEvent) × (read_loop sys fuel h buf [] ≡ some front)
      × (written ws ≡ front ++ rest)
      × ((rest ≡ [])
          ⊎ ((h' : sys.Handle) × (early h' event_size ≡ true) × (events_of (pending h') ≡ rest)))
read_loop-written sys pending early mode ws fuel h buf ok e enough =
    let (front, rest, out, all, cut) =
      read_loop-Front sys pending early mode (messages ws) fuel h buf [] (messages-IsShort ws ok) e
        enough in
    (front, rest, out, sym (events_of-messages ws ok) ∙ all, cut)
