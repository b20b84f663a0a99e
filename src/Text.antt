-- ===== src/Text.antt =====
-- Text as the Go code sees it: a string is its bytes, a rune a code point, and Windows text a list
-- of UTF-16 code units. These are the parts of Go's language and standard library that the agent
-- and the backend use (`range` over a string, `[]rune(s)`, `string(runes)`, package unicode/utf16).
pub mod Utf8
pub mod Utf16
pub mod Narrow
pub mod Decimal
pub mod Ascii
pub mod Json
