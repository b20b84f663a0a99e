-- ===== src/Agent/Strings.antt =====
-- The conversions of MedusaUserlandAgent/Event.go.
use open_anti_cheat.Common.{ℕ, List}
use open_anti_cheat.Text.Utf16.{until_nul, utf16_to_string_win}
use open_anti_cheat.Text.Narrow.{narrowed}

unfoldable pub utf16_to_string : List ℕ → List ℕ
utf16_to_string buf = utf16_to_string_win (until_nul buf)

unfoldable pub int32_to_string : List ℕ → List ℕ
int32_to_string buf = utf16_to_string_win (narrowed buf)
