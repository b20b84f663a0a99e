-- ===== src/Text/Ascii.antt =====
-- A literal of the Go code as the bytes of its text, which is ASCII.
use Prim.Native.Char.{code}
use Prim.Native.String.{String}
use open_anti_cheat.Common.{ℕ, List, [], ◌∷◌}

abbrev pub codes : String → List ℕ
codes String.[] = []
codes (String.◌∷◌ c s) = code c ∷ codes s
