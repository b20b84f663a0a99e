-- ===== src/Tests/Texts.antt =====
-- MedusaUserlandAgent/structs.go and the two Event.go files: texts in buffers.
use open_anti_cheat.Common.{ℕ, ◌≡◌, ◌≢◌, refl, List, [], ◌∷◌, take, arith, set}
use open_anti_cheat.Text.Utf8.{encode_utf8, encode_rune, runes, decode_rune, decode_3, decode_4}
use open_anti_cheat.Text.Utf16.{encode_utf16, encode_unit}
use open_anti_cheat.Agent.Buffers.{int32, uint16, string_z_into, zeroed, store_units, cut_units}
use open_anti_cheat.Agent.Buffers.Shape.{IsBuffer, string_z_into-IsBuffer}
use open_anti_cheat.Agent.Strings
use open_anti_cheat.Backend.Strings.{utf16_to_string, int32_to_string}
use open_anti_cheat.Backend.Stored.{utf16_round_trip, int32_round_trip, int32_spoiled}

-- "a€😀": one, three and four bytes.
abbrev mixed : List ℕ
mixed = 0x61 ∷ 0x20AC ∷ 0x1F600 ∷ []

mixed_bytes : encode_utf8 mixed ≡ 0x61 ∷ 0xE2 ∷ 0x82 ∷ 0xAC ∷ 0xF0 ∷ 0x9F ∷ 0x98 ∷ 0x80 ∷ []
unfolding encode_utf8 encode_rune
mixed_bytes = refl

-- A stray continuation byte and a cut sequence.
bad_bytes : runes (0x80 ∷ 0xE2 ∷ 0x82 ∷ []) ≡ 0xFFFD ∷ 0xFFFD ∷ 0xFFFD ∷ []
unfolding runes decode_rune decode_3
bad_bytes = refl

mixed_units : encode_utf16 mixed ≡ 0x61 ∷ 0x20AC ∷ 0xD83D ∷ 0xDE00 ∷ []
unfolding encode_utf16 encode_unit
mixed_units = refl

abbrev six : List ℕ
six = 7 ∷ 7 ∷ 7 ∷ 7 ∷ 7 ∷ 7 ∷ []

stored : string_z_into uint16 six (encode_utf8 mixed) ≡ 0x61 ∷ 0x20AC ∷ 0xD83D ∷ 0xDE00 ∷ 0 ∷ 0 ∷ []
unfolding string_z_into encode_utf8 encode_rune encode_utf16 encode_unit runes decode_rune decode_3
    decode_4 zeroed store_units cut_units set
stored = refl

string_z_into-IsBuffer_example : IsBuffer uint16 6 (string_z_into uint16 six (encode_utf8 mixed))
string_z_into-IsBuffer_example = string_z_into-IsBuffer uint16 six (encode_utf8 mixed)

-- Both programs show the text of the buffer.
utf16_round_trip_example :
    (utf16_to_string (string_z_into uint16 six (encode_utf8 mixed)) ≡ encode_utf8 mixed)
    × (Strings.utf16_to_string (string_z_into uint16 six (encode_utf8 mixed)) ≡ encode_utf8 mixed)
utf16_round_trip_example =
    utf16_round_trip six mixed (omega arith) (ground arith) (ground arith)
      (unfold encode_utf16 encode_unit in omega arith)

-- The int32 buffer cuts a longer text.
int32_round_trip_example :
    int32_to_string (string_z_into int32 (7 ∷ 7 ∷ 7 ∷ []) (encode_utf8 (0x61 ∷ 0xE9 ∷ 0x20AC ∷ [])))
    ≡ encode_utf8 (take 2 (0x61 ∷ 0xE9 ∷ 0x20AC ∷ []))
int32_round_trip_example =
    int32_round_trip (7 ∷ 7 ∷ 7 ∷ []) (0x61 ∷ 0xE9 ∷ 0x20AC ∷ []) (omega arith) (ground arith)

int32_spoiled_example :
    int32_to_string (string_z_into int32 six (encode_utf8 mixed)) ≢ encode_utf8 mixed
int32_spoiled_example =
    int32_spoiled six mixed (omega arith) (ground arith) (ground arith) (omega arith)
      (λ h. absurd (omega (arith, h.1.1.0)))
