-- ===== src/Backend/Printed.antt =====
-- What the JSON lines of main's consumer say of the events, and the agent's `ToJSON` beside the
-- backend's.
use open_anti_cheat.Common.{ℕ, ◌≡◌, ap, ◌∙◌, List, [], ◌∷◌, ◌++◌, some, All, arith}
use open_anti_cheat.Memory.Words.{Fits}
use open_anti_cheat.Text.Utf8.{IsScalar, replacement, encode_utf8, runes-encode_utf8}
use open_anti_cheat.Text.Utf16.{
  NonZero, IsUnit, encode_utf16, until_nul, until_nul_id, encode_utf16-NonZero, decode-encode_utf16,
  utf16_to_string_win, encode_wtf8-scalar,
}
use open_anti_cheat.Text.Narrow.{narrowed, decode_utf16-IsScalar}
use open_anti_cheat.Text.Json.Objects.{read_object}
use open_anti_cheat.Text.Json.Objects.RoundTrip.{to_valid}
use open_anti_cheat.Event.{AcEvent, IsEvent}
use open_anti_cheat.Event.Json.{json_of}
use open_anti_cheat.Event.Json.Reading.{said, valid_shown, read_object-json_of}
use open_anti_cheat.Agent.Strings
use open_anti_cheat.Agent.Json
use open_anti_cheat.Backend.Strings.{utf16_buf_to_string, utf16_to_string, int32_to_string}
use open_anti_cheat.Backend.Json.{shown, to_json}

until_nul-IsUnit : (us : List ℕ) → All (Fits 2) us → All IsUnit (until_nul us)
unfolding until_nul
until_nul-IsUnit [] h = tt
until_nul-IsUnit (u ∷ us) (hu, hus) = ground (arith, until_nul-IsUnit us hus)

narrowed-IsUnit : (vs : List ℕ) → All IsUnit (narrowed vs)
unfolding narrowed
narrowed-IsUnit [] = tt
narrowed-IsUnit (v ∷ vs) = ground (arith, narrowed-IsUnit vs)

-- The backend's strings are valid UTF-8.
to_valid-utf16_buf :
    (us : List ℕ) → All IsUnit us → to_valid (utf16_buf_to_string us) ≡ utf16_buf_to_string us
unfolding utf16_buf_to_string
to_valid-utf16_buf us h = ap encode_utf8 (runes-encode_utf8 _ (decode_utf16-IsScalar us h))

valid_shown-shown : (e : AcEvent) → IsEvent e → valid_shown (shown e) ≡ shown e
unfolding utf16_to_string int32_to_string
valid_shown-shown e h i = record {
  event_type = to_valid-utf16_buf _ (until_nul-IsUnit _ h.event_type.1) i;
  image_file_name = to_valid-utf16_buf _ (narrowed-IsUnit e.image_file_name) i;
  command_line = to_valid-utf16_buf _ (until_nul-IsUnit _ h.command_line.1) i;
}

-- A reader of JSON takes from the line that the backend prints of an event its ten members by their
-- keys: the four int32 fields and the process and thread numbers as signed numbers, the base and
-- the size as unsigned ones, and the three texts as the backend's conversions make them; whatever
-- follows the line.
pub read_object-to_json :
    (e : AcEvent) (rest : List ℕ)
    → IsEvent e
    → read_object (to_json e ++ rest) ≡ some (said (shown e) e, rest)
unfolding to_json
read_object-to_json e rest h =
    read_object-json_of (shown e) e rest ∙ ap (λ s. some (said s e, rest)) (valid_shown-shown e h)

-- Code units of a text of Unicode scalar values without NUL.
abbrev pub IsText : List ℕ → Type 0
IsText us = (rs : List ℕ) × All IsScalar rs × All NonZero rs × (us ≡ encode_utf16 rs)

-- The three buffers hold such texts, up to their NUL.
pub record IsReadable (e : AcEvent) : Type 0 where
  pub event_type : IsText (until_nul e.event_type)
  pub image_file_name : IsText (narrowed e.image_file_name)
  pub command_line : IsText (until_nul e.command_line)

same_text : (us : List ℕ) → IsText us → utf16_to_string_win us ≡ utf16_buf_to_string us
unfolding utf16_to_string_win utf16_buf_to_string
same_text us (rs, scalar, plain, e) =
    rw
      (
        e,
        until_nul_id (encode_utf16 rs) (encode_utf16-NonZero rs plain),
        decode-encode_utf16 (λ u. u) rs scalar,
        decode-encode_utf16 (λ u. replacement) rs scalar,
      )
      (encode_wtf8-scalar rs scalar)

same_shown : (e : AcEvent) → IsReadable e → Json.shown e ≡ shown e
unfolding Strings.utf16_to_string Strings.int32_to_string utf16_to_string int32_to_string
same_shown e h i = record {
  event_type = same_text _ h.event_type i;
  image_file_name = same_text _ h.image_file_name i;
  command_line = same_text _ h.command_line i;
}

-- The agent's `ToJSON` and the backend's, which convert UTF-16 by different packages, print the
-- same bytes of an event whose three buffers hold, up to their NUL, the UTF-16 of Unicode scalar
-- values.
pub to_json-agrees : (e : AcEvent) → IsReadable e → Json.to_json e ≡ to_json e
unfolding to_json Json.to_json
to_json-agrees e h = ap (λ s. json_of s e) (same_shown e h)
