-- ===== src/Text/Json.antt =====
-- What encoding/json prints of a map with strings for keys and strings and integers for values, and
-- a reader of that JSON.
pub mod Strings
pub mod Objects
