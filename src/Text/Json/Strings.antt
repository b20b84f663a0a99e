-- ===== src/Text/Json/Strings.antt =====
-- Strings as encoding/json prints them, and as a reader of JSON takes them.
pub mod Decoded
pub mod RoundTrip
use open_anti_cheat.Common.{
  ℕ, zero, suc, ◌+◌, ◌-◌, ◌*◌, ◌/◌, ◌%◌, Bool, ◌&&◌, ◌||◌, Option, none, some, List, [], ◌∷◌, ◌++◌,
  take, ltb, leb, ◌==◌, if◌then◌else◌,
}
use open_anti_cheat.Text.Utf8.{replacement, encode_rune, decode_rune}

-- One digit of `const hex = "0123456789abcdef"`.
unfoldable pub hex : ℕ → ℕ
hex d = if ltb d 10 then b'0' + d else b'a' + (d - 10)

-- `\u00` and the two digits of a byte.
abbrev pub escaped : ℕ → List ℕ
escaped b = b'\\' ∷ b'u' ∷ b'0' ∷ b'0' ∷ hex (b / 16) ∷ hex (b % 16) ∷ []

-- A byte below 0x80, with HTML's characters escaped.
unfoldable pub quoted_ascii : ℕ → List ℕ
quoted_ascii b =
    if b == b'\\' || b == b'"'
    then b'\\' ∷ b ∷ []
    else if b == 8
    then b'\\' ∷ b'b' ∷ []
    else if b == 12
    then b'\\' ∷ b'f' ∷ []
    else if b == 10
    then b'\\' ∷ b'n' ∷ []
    else if b == 13
    then b'\\' ∷ b'r' ∷ []
    else if b == 9
    then b'\\' ∷ b't' ∷ []
    else if ltb b 32 || (b == b'<' || (b == b'>' || b == b'&'))
    then escaped b
    else b ∷ []

-- `\ufffd`
abbrev pub bad_byte : List ℕ
bad_byte = b'\\' ∷ b'u' ∷ b'f' ∷ b'f' ∷ b'f' ∷ b'd' ∷ []

-- A rune that `decode_rune` found, the number of its bytes, and these bytes.
unfoldable pub quoted : ℕ → ℕ → List ℕ → List ℕ
unfolding quoted_ascii
quoted r n raw =
    if ltb r 0x80
    then quoted_ascii r
    else if r == replacement && n == 1
    then bad_byte
    else if r == 0x2028 || r == 0x2029
    then b'\\' ∷ b'u' ∷ b'2' ∷ b'0' ∷ b'2' ∷ hex (r % 16) ∷ []
    else raw

-- The string behind `skip` bytes that belong to the rune before.
unfoldable pub quote_from : ℕ → List ℕ → List ℕ
unfolding quoted
quote_from skip [] = []
quote_from (suc skip) (b ∷ bs) = quote_from skip bs
quote_from zero (b ∷ bs) =
    let (r, n) = decode_rune b bs in quoted r n (take n (b ∷ bs)) ++ quote_from (n - 1) bs

unfoldable pub quote : List ℕ → List ℕ
unfolding quote_from
quote s = b'"' ∷ (quote_from 0 s ++ b'"' ∷ [])

-- A reader between the quotes: at a character, behind a backslash, and in a `\u` with the value of
-- the digits so far and the number that is still to come behind the next. Two escapes of surrogates
-- are not put together: Go's printer writes none.
pub data Mode : Type 0 where
  plain backslash : Mode
  digits : ℕ → ℕ → Mode

pub data Next : Type 0 where
  stop : Next
  finish : Next
  go : Mode → List ℕ → Next

unfoldable pub hex_value : ℕ → Option ℕ
hex_value c =
    if leb b'0' c && leb c b'9'
    then some (c - b'0')
    else if leb b'a' c && leb c b'f'
    then some (c - b'a' + 10)
    else if leb b'A' c && leb c b'F'
    then some (c - b'A' + 10)
    else none

unfoldable pub after_backslash : ℕ → List ℕ → Next
after_backslash c out =
    if c == b'"' || (c == b'\\' || c == b'/')
    then go plain (out ++ c ∷ [])
    else if c == b'b'
    then go plain (out ++ 8 ∷ [])
    else if c == b'f'
    then go plain (out ++ 12 ∷ [])
    else if c == b'n'
    then go plain (out ++ 10 ∷ [])
    else if c == b'r'
    then go plain (out ++ 13 ∷ [])
    else if c == b't'
    then go plain (out ++ 9 ∷ [])
    else if c == b'u'
    then go (digits 0 3) out
    else stop

unfoldable pub after_digit : ℕ → ℕ → Option ℕ → List ℕ → Next
after_digit acc left none out = stop
after_digit acc zero (some v) out = go plain (out ++ encode_rune (acc * 16 + v))
after_digit acc (suc left) (some v) out = go (digits (acc * 16 + v) left) out

unfoldable pub step : Mode → ℕ → List ℕ → Next
unfolding after_backslash after_digit
step plain c out =
    if c == b'"'
    then finish
    else if c == b'\\'
    then go backslash out
    else if ltb c 32
    then stop
    else go plain (out ++ c ∷ [])
step backslash c out = after_backslash c out
step (digits acc left) c out = after_digit acc left (hex_value c) out

-- The text up to the closing quote, and what follows it.
unfoldable pub read_from : Mode → List ℕ → List ℕ → Option (List ℕ × List ℕ)
unfolding step
read_from m [] out = none
read_from m (c ∷ cs) out = elim (step m c out) [
  | stop ↦ none
  | finish ↦ some (out, cs)
  | go m' out' ↦ read_from m' cs out'
]

unfoldable pub read_string : List ℕ → Option (List ℕ × List ℕ)
unfolding read_from
read_string [] = none
read_string (c ∷ cs) = if c == b'"' then read_from plain cs [] else none
