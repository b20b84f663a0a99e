-- ===== src/Backend/Main.antt =====
-- The consumer of main of MedusaBackend/Main.go, and a reader of what it prints.
use open_anti_cheat.Common.{
  ℕ, zero, suc, ◌≡◌, refl, ◌∙◌, Option, some, ◌>>=◌, List, [], ◌∷◌, ◌++◌, map, length, All,
}
use open_anti_cheat.Text.Json.Objects.{Member, read_object, expect}
use open_anti_cheat.Event.{AcEvent, IsEvent}
use open_anti_cheat.Event.Json.Reading.{said}
use open_anti_cheat.Backend.Server.{Server, init}
use open_anti_cheat.Backend.Json.{shown, to_json}
use open_anti_cheat.Backend.Printed.{read_object-to_json}

-- `NewHydraWSServer("0.0.0.0:8080", "/", 1024)`
abbrev pub server : Server
server = init 1024

-- What it has printed after the events: `fmt.Println` of the JSON of each.
unfoldable pub output : List AcEvent → List ℕ
output [] = []
output (e ∷ es) = to_json e ++ b'\n' ∷ output es

-- As many lines, each with a JSON object, and what follows them.
unfoldable pub read_lines : ℕ → List ℕ → Option (List (List Member) × List ℕ)
unfolding expect
read_lines zero cs = some ([], cs)
read_lines (suc n) cs = do
  (ms, r) ← read_object cs
  r' ← expect b'\n' r
  (lines, r'') ← read_lines n r'
  some (ms ∷ lines, r'')

read_lines-suc :
    (n : ℕ) (cs rest : List ℕ) (ms : List Member)
    → read_object cs ≡ some (ms, b'\n' ∷ rest)
    → read_lines (suc n) cs ≡ (do (lines, r) ← read_lines n rest; some (ms ∷ lines, r))
unfolding read_lines
read_lines-suc n cs rest ms e = rw e refl

-- The lines that the consumer prints are as many as the events, and say of each event what its JSON
-- says.
pub read_lines-output :
    (es : List AcEvent)
    → All IsEvent es
    → read_lines (length es) (output es) ≡ some (map (λ e. said (shown e) e) es, [])
unfolding output
read_lines-output [] h = unfold read_lines in refl
read_lines-output (e ∷ es) (he, hes) =
    read_lines-suc (length es) (to_json e ++ b'\n' ∷ output es) (output es) (said (shown e) e)
      (read_object-to_json e (b'\n' ∷ output es) he)
    ∙ rw (read_lines-output es hes) refl
