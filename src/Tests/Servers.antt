-- ===== src/Tests/Servers.antt =====
-- MedusaBackend/WSServer.go: runs of the server's goroutines.
use open_anti_cheat.Common.{
  map, ℕ, ◌≡◌, ◌≤◌, refl, true, false, some, List, [], ◌∷◌, ◌++◌, length, arith,
}
use open_anti_cheat.Backend.Server.Delivery.{taken, given, of_conn, event_of, Reach-delivers}
use open_anti_cheat.Event.{AcEvent, ev_to_bytes}
use open_anti_cheat.Backend.Server.{
  Server, Reach, start, later, accept, binary_message, upgrades, locks_to_register, registers,
  accepts, sends, consumes, cancels, closes, send_panics, commands, begins, writes, ends_broadcast,
  scan_dll,
}
use open_anti_cheat.Backend.Server.Locking.{in_lock, in_map, Reach-alone}
use open_anti_cheat.Backend.Server.Panics.{closing_panics}
use open_anti_cheat.Backend.Server.Rounds.{Sub, due, got, begun}
use open_anti_cheat.Backend.Server.Rounds.Broadcast.{Reach-broadcasts}
use open_anti_cheat.Tests.Wire.{
  handle_event, some_padding, handle_event-IsEvent, some_padding-IsPadding,
}
use open_anti_cheat.Backend.Server.Releasing.{Releases, Reach-Releases}
use open_anti_cheat.Backend.Server.Messages.{accept-ev_to_bytes}

abbrev pub message : List ℕ
message = ev_to_bytes handle_event some_padding

pub accepted : accept binary_message message ≡ some handle_event
accepted =
    accept-ev_to_bytes 2 handle_event some_padding handle_event-IsEvent some_padding-IsPadding

-- The handler of connection 0 with the mutex, on its way into the map.
abbrev entering : (s : Server) × Reach 1 s
entering = (_, later (later start (upgrades 0 refl)) (locks_to_register 0 refl refl))

-- The same handler at its select with an event.
abbrev at_select : (s : Server) × Reach 1 s
at_select = (
  _,
  later (later entering.1 (registers 0 refl))
      (accepts 0 binary_message message handle_event refl accepted),
)

-- The event has been consumed.
abbrev received : (s : Server) × Reach 1 s
received = (
  _,
  later (later at_select.1 (sends 0 handle_event refl refl (omega arith)))
      (consumes handle_event [] refl),
)

Reach-alone_example :
    ((k : ℕ) → in_lock (entering.0.handlers k) ≡ true → 0 ≡ k)
    × (in_map entering.0.broadcast ≡ false)
Reach-alone_example = Reach-alone entering.1 0 refl

-- A server that has panicked.
abbrev panicking : (s : Server) × Reach 1 s
panicking = (
  _,
  later (later (later at_select.1 cancels) (closes refl refl))
      (send_panics 0 handle_event refl refl),
)

closing_panics_example : (t : Server) × Reach 1 t × (t.panicked ≡ true)
closing_panics_example = closing_panics at_select.1 0 handle_event refl refl

Reach-Releases_example : Releases entering.0
Reach-Releases_example = Reach-Releases entering.1

-- A command has been written to the one connection.
abbrev commanded : (s : Server) × Reach 1 s
commanded = (
  _,
  later
      (later
        (later (later (later entering.1 (registers 0 refl)) (commands (omega arith)))
          (begins scan_dll [] refl refl refl))
        (writes 0 _ refl refl refl))
      (ends_broadcast _ refl (λ c a b. a)),
)

Reach-broadcasts_example :
    Sub (due 0 commanded.1) (got 0 commanded.1) × Sub (got 0 commanded.1) (begun commanded.1)
Reach-broadcasts_example = Reach-broadcasts commanded.1 0

due_once : due 0 commanded.1 ≡ scan_dll ∷ []
due_once = refl

Reach-delivers_example :
    (map event_of (given received.1) ≡ received.0.consumed ++ received.0.recv)
    × ((c : ℕ)
        → (tail : List AcEvent) × (of_conn c (taken received.1)
            ≡ of_conn c (given received.1) ++ tail)
          × (length tail ≤ 1))
Reach-delivers_example = Reach-delivers received.1

given_once : given received.1 ≡ (0, handle_event) ∷ []
given_once = refl
