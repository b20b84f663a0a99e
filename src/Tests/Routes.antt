-- ===== src/Tests/Routes.antt =====
-- The way of an event through the agent and over the wire, at a failed call and a message.
use open_anti_cheat.Common.{◌≡◌, refl, ℕ, map, ◌++◌, List, some, [], ◌∷◌, arith, replicate}
use open_anti_cheat.Agent.Receiver.{loop}
use open_anti_cheat.Agent.Receiver.Messages.{replies}
use open_anti_cheat.Route.{delivered, loop-delivered}
use open_anti_cheat.Backend.Server.{Server, Reach, start, later, commands, scan_dll}
use open_anti_cheat.Event.{AcEvent}
use open_anti_cheat.Agent.Main.{on_message}
use open_anti_cheat.Backend.Main.{read_lines}
use open_anti_cheat.Route.Lines.{console, module_line, on_message-lines}
use open_anti_cheat.Tests.Scans.{
  listed, kernel, game, listed-Walks, kernel-IsReportable, game-IsReportable,
}
use open_anti_cheat.Tests.Wire.{
  handle_event, some_padding, handle_event-IsEvent, some_padding-IsPadding,
}
use open_anti_cheat.Agent.Client.Session.{
  Client, dial_succeeds, writer_starts, pump_receives, pump_sends, writer_takes, writer_writes,
}
use open_anti_cheat.Agent.Client.Session.Queue.{queued, pulled, frame_of}
use open_anti_cheat.Agent.Client.Session.Frames.{on}
use open_anti_cheat.Backend.Server.Delivery.{given, of_conn, event_of}
use open_anti_cheat.Backend.Server.{
  upgrades, locks_to_register, registers, accepts, sends, consumes, binary_message,
}
use open_anti_cheat.Route.Pipeline.{
  Joint, begins, client_moves, server_moves, client_run, server_run, events_in,
}
use open_anti_cheat.Route.Pipeline.Through.{Joint-delivers}
use open_anti_cheat.Tests.Sessions.{frame, frame-IsEventFrame}
use open_anti_cheat.Tests.Servers.{message, accepted}
use open_anti_cheat.Tests.Ports.{incoming, header-IsHeader}

loop-delivered_example :
    delivered (λ e. some_padding) (loop (replies incoming) (replicate 3664 0))
    ≡ some handle_event ∷ []
loop-delivered_example =
    loop-delivered incoming (replicate 3664 0) (λ e. some_padding)
      (omega arith, ((header-IsHeader, handle_event-IsEvent, some_padding-IsPadding), tt))
      (λ e. some_padding-IsPadding)

-- A server whose main has sent one command.
abbrev commanded : (s : Server) × Reach 1 s
commanded = (_, later start (commands (omega arith)))

on_message-lines_example :
    (es : List AcEvent) × (on_message listed 9 4711 scan_dll ≡ some es)
    × (read_lines 2 (console (λ e. some_padding) es)
        ≡ some (module_line kernel ∷ module_line game ∷ [], []))
on_message-lines_example =
    on_message-lines listed (λ s. s) listed-Walks 9 4711 (kernel ∷ game ∷ []) kernel (game ∷ [])
      (λ e. some_padding) refl refl (omega arith) (kernel-IsReportable, (game-IsReportable, tt))
      (λ e. some_padding-IsPadding)

-- The client writes a frame, the handler reads it, and the consumer takes its event.
abbrev written : (a : Client) × (s : Server) × Joint 1 a s []
written = (
  _,
  _,
  client_moves
      (client_moves
        (client_moves
          (client_moves
            (client_moves (client_moves begins (dial_succeeds refl)) (writer_starts 0 0 refl refl))
            (pump_receives frame frame-IsEventFrame refl))
          (pump_sends frame refl refl (omega arith)))
        (writer_takes [] [] 0 frame [] refl refl))
      (writer_writes [] [] 0 frame refl refl),
)

abbrev through : (a : Client) × (s : Server) × Joint 1 a s ((0, frame) ∷ [])
through = (
  _,
  _,
  server_moves
      (server_moves
        (server_moves
          (server_moves
            (server_moves (server_moves written.2 (upgrades 0 refl) tt)
              (locks_to_register 0 refl refl) tt)
            (registers 0 refl) tt)
          (accepts 0 binary_message message handle_event refl accepted) ([], refl))
        (sends 0 handle_event refl refl (omega arith)) tt)
      (consumes handle_event [] refl) tt,
)

abbrev joint : Joint 1 through.0 through.1 ((0, frame) ∷ [])
joint = through.2

Joint-delivers_example :
    (queued (client_run joint) ≡ map frame_of (pulled (client_run joint)) ++ through.0.send_ch)
    × (map event_of (given (server_run joint)) ≡ through.1.consumed ++ through.1.recv)
    × ((c : ℕ)
        → (rest : List AcEvent) × (events_in (on c (pulled (client_run joint)))
            ≡ of_conn c (given (server_run joint)) ++ rest))
Joint-delivers_example = Joint-delivers joint (((((((tt, refl), tt), tt), tt), tt), tt))

consumed_once : through.1.consumed ≡ handle_event ∷ []
consumed_once = refl
