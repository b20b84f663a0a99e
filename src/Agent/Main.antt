-- ===== src/Agent/Main.antt =====
-- main of MedusaUserlandAgent/main.go: its arguments, what it starts, and the callback for messages
-- of the backend.
pub mod Pid
pub mod Arguments
use open_anti_cheat.Common.{
  ℕ, ◌%◌, ◌^◌, Bool, true, false, ◌&&◌, ◌==◌, if◌then◌else◌, Option, none, some, List, [], ◌∷◌,
}
use open_anti_cheat.Event.{AcEvent}
use open_anti_cheat.Agent.Receiver.Port.{Receiver, Windows, ConnectError, connect}
use open_anti_cheat.Agent.Scanner.{Toolhelp, execute_dll_scan}
use open_anti_cheat.Agent.Main.Pid.{sscanf_d}

-- `\MedusaComPort`
abbrev pub port_name : List ℕ
port_name =
    92 ∷ b'M' ∷ b'e' ∷ b'd' ∷ b'u' ∷ b's' ∷ b'a' ∷ b'C' ∷ b'o' ∷ b'm' ∷ b'P' ∷ b'o' ∷ b'r' ∷ b't'
    ∷ []

-- `NewReceiver`
abbrev pub new_receiver : List ℕ → Receiver
new_receiver name = record { h_port = 0; name = name }

-- How `main` goes: an index of `os.Args` out of range, an argument that is no number, a driver that
-- does not answer, or Receiver.Loop, with `ToProtectPID`, the client's URL and `toInjectDLL`.
pub data Main : Type 0 where
  panics no_pid : Main
  no_driver : ConnectError → Main
  runs : ℕ → List ℕ → List ℕ → Receiver → Main

-- From `Connect` on.
abbrev pub after_connect : Receiver × Option ConnectError → ℕ → List ℕ → List ℕ → Main
after_connect (r, some e) pid url dll = no_driver e
after_connect (r, none) pid url dll = runs pid url dll r

-- From the answer of `Sscanf` on, with `os.Args[2:]`.
unfoldable pub after_pid : Windows → ℕ → Option ℕ → List (List ℕ) → Main
after_pid w agent_pid none rest = no_pid
after_pid w agent_pid (some pid) (url ∷ dll ∷ more) =
    after_connect (connect w (pid % 2 ^ 32) agent_pid (new_receiver port_name)) (pid % 2 ^ 32) url
      dll
after_pid w agent_pid (some pid) _ = panics

unfoldable pub main : Windows → ℕ → List (List ℕ) → Main
unfolding after_pid
main w agent_pid (prog ∷ pid ∷ rest) = after_pid w agent_pid (sscanf_d pid) rest
main w agent_pid _ = panics

abbrev pub same_bytes : List ℕ → List ℕ → Bool
same_bytes [] [] = true
same_bytes (a ∷ xs) (b ∷ ys) = a == b && same_bytes xs ys
same_bytes _ _ = false

-- The callback: the events that it sends to EventChannel; `none`: the scan's fuel ran out.
unfoldable pub on_message : Toolhelp → ℕ → ℕ → List ℕ → Option (List AcEvent)
on_message api fuel to_protect_pid b =
    if same_bytes b (b's' ∷ b'c' ∷ b'a' ∷ b'n' ∷ b'D' ∷ b'L' ∷ b'L' ∷ [])
    then execute_dll_scan api fuel to_protect_pid
    else some []
