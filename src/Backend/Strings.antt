-- ===== src/Backend/Strings.antt =====
-- The conversions of MedusaBackend/Event.go.
use open_anti_cheat.Common.{ℕ, List}
use open_anti_cheat.Text.Utf8.{encode_utf8}
use open_anti_cheat.Text.Utf16.{until_nul, decode_utf16}
use open_anti_cheat.Text.Narrow.{narrowed}

unfoldable pub utf16_buf_to_string : List ℕ → List ℕ
utf16_buf_to_string buf = encode_utf8 (decode_utf16 buf)

unfoldable pub utf16_to_string : List ℕ → List ℕ
unfolding utf16_buf_to_string
utf16_to_string buf = utf16_buf_to_string (until_nul buf)

unfoldable pub int32_to_string : List ℕ → List ℕ
unfolding utf16_buf_to_string
int32_to_string buf = utf16_buf_to_string (narrowed buf)
