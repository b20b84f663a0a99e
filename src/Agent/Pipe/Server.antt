-- ===== src/Agent/Pipe/Server.antt =====
-- `server` of MedusaUserlandAgent/IPC.go: the loop that makes pipe instances and hands each
-- connected one to a reader of its own.
use open_anti_cheat.Text.Ascii.{codes}
use open_anti_cheat.Common.{ℕ, ◌+◌, ◌≡◌, refl, List, [], ◌∷◌, ◌++◌, arith, ◌==◌, if◌then◌else◌}

-- `defaultPipe`
abbrev pub default_pipe : List ℕ
default_pipe = codes "\\\\.\\pipe\\MedusaPipe"

-- `Start`: the name of the pipe that it gives to `server`.
abbrev pub start : List ℕ → List ℕ
start [] = default_pipe
start pipe = pipe

-- What `CreateNamedPipe` and then `ConnectNamedPipe` answer.
pub data Create : Type 0 where
  create_failed : Create
  created : ℕ → Create

pub data Connect : Type 0 where
  pipe_connected io_pending other_answer : Connect

pub data Action : Type 0 where
  open_pipe await_client start_reader close_pipe : ℕ → Action

-- The body of the loop; where the creation fails the loop just goes round.
unfoldable pub attempt : Create → Connect → List Action
attempt create_failed c = []
attempt (created h) pipe_connected = open_pipe h ∷ start_reader h ∷ []
attempt (created h) io_pending = open_pipe h ∷ await_client h ∷ start_reader h ∷ []
attempt (created h) other_answer = open_pipe h ∷ close_pipe h ∷ []

unfoldable pub serve : List (Create × Connect) → List Action
serve [] = []
serve ((p, c) ∷ rest) = attempt p c ++ serve rest

-- How often a handle is opened, closed by the loop, and given to a reader (which closes it).
abbrev pub opened : ℕ → List Action → ℕ
opened h [] = 0
opened h (open_pipe k ∷ as') = (if k == h then 1 else 0) + opened h as'
opened h (_ ∷ as') = opened h as'

abbrev pub closed : ℕ → List Action → ℕ
closed h [] = 0
closed h (close_pipe k ∷ as') = (if k == h then 1 else 0) + closed h as'
closed h (start_reader k ∷ as') = (if k == h then 1 else 0) + closed h as'
closed h (_ ∷ as') = closed h as'

-- Every pipe instance that is made has one owner who closes it: the loop or a reader.
opened-eq-closed :
    (h : ℕ) (outcomes : List (Create × Connect))
    → opened h (serve outcomes) ≡ closed h (serve outcomes)
unfolding serve attempt
opened-eq-closed h [] = refl
opened-eq-closed h ((create_failed, c) ∷ rest) = opened-eq-closed h rest
opened-eq-closed h ((created k, pipe_connected) ∷ rest) = omega (arith, opened-eq-closed h rest)
opened-eq-closed h ((created k, io_pending) ∷ rest) = omega (arith, opened-eq-closed h rest)
opened-eq-closed h ((created k, other_answer) ∷ rest) = omega (arith, opened-eq-closed h rest)
