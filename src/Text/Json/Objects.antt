-- ===== src/Text/Json/Objects.antt =====
-- Objects as encoding/json prints a map, and as a reader of JSON takes them.
pub mod RoundTrip
use open_anti_cheat.Common.{
  ℕ, zero, suc, Bool, true, false, Option, none, some, ◌>>=◌, List, [], ◌∷◌, ◌++◌, length, ltb,
  ◌==◌, if◌then◌else◌, ℤ, pos, negsuc,
}
use open_anti_cheat.Text.Decimal.{is_digit, decimal, scan_digits}
use open_anti_cheat.Text.Json.Strings.{quote, read_string}

pub data Value : Type 0 where
  text : List ℕ → Value
  number : ℤ → Value

abbrev pub Member : Type 0
Member = List ℕ × Value

unfoldable pub print_int : ℤ → List ℕ
print_int (pos n) = decimal n
print_int (negsuc n) = b'-' ∷ decimal (suc n)

unfoldable pub print_value : Value → List ℕ
unfolding print_int
print_value (text s) = quote s
print_value (number z) = print_int z

unfoldable pub print_member : Member → List ℕ
unfolding print_value
print_member (k, v) = quote k ++ b':' ∷ print_value v

unfoldable pub print_members : List Member → List ℕ
unfolding print_member
print_members [] = []
print_members (m ∷ []) = print_member m
print_members (m ∷ n ∷ ms) = print_member m ++ b',' ∷ print_members (n ∷ ms)

unfoldable pub print_object : List Member → List ℕ
unfolding print_members
print_object ms = b'{' ∷ (print_members ms ++ b'}' ∷ [])

-- `strings.Compare(a, b) < 0`
unfoldable pub precedes : List ℕ → List ℕ → Bool
precedes a [] = false
precedes [] (b ∷ bs) = true
precedes (a ∷ as') (b ∷ bs) =
    let rest = precedes as' bs in if ltb a b then true else if a == b then rest else false

-- The members of a map by their keys.
unfoldable pub insert_member : Member → List Member → List Member
unfolding precedes
insert_member m [] = m ∷ []
insert_member m (n ∷ ms) =
    let rest = n ∷ insert_member m ms in if precedes n.0 m.0 then rest else m ∷ n ∷ ms

unfoldable pub sort_members : List Member → List Member
unfolding insert_member
sort_members [] = []
sort_members (m ∷ ms) = insert_member m (sort_members ms)

-- `json.Marshal` of a map.
unfoldable pub marshal : List Member → List ℕ
unfolding sort_members print_object
marshal ms = print_object (sort_members ms)

-- The integer of a sign and a magnitude.
abbrev pub opposite : ℕ → ℤ
opposite zero = pos 0
opposite (suc n) = negsuc n

unfoldable pub read_digits : List ℕ → Option (ℕ × List ℕ)
read_digits [] = none
read_digits (c ∷ cs) = if is_digit c then some (scan_digits 0 (c ∷ cs)) else none

unfoldable pub read_value : List ℕ → Option (Value × List ℕ)
unfolding read_digits
read_value [] = none
read_value (c ∷ cs) =
    if c == b'"'
    then (do (s, r) ← read_string (c ∷ cs); some (text s, r))
    else if c == b'-'
    then (do (n, r) ← read_digits cs; some (number (opposite n), r))
    else (do (n, r) ← read_digits (c ∷ cs); some (number (pos n), r))

unfoldable pub expect : ℕ → List ℕ → Option (List ℕ)
expect b [] = none
expect b (c ∷ cs) = if c == b then some cs else none

unfoldable pub read_member : List ℕ → Option (Member × List ℕ)
unfolding expect read_value
read_member cs = do
  (k, r) ← read_string cs
  r' ← expect b':' r
  (v, r'') ← read_value r'
  some ((k, v), r'')

-- The members behind the brace, and what follows the object; `none` also where the fuel runs out.
unfoldable pub read_members : ℕ → List ℕ → Option (List Member × List ℕ)
unfolding read_member
read_members zero cs = none
read_members (suc fuel) cs = elim (read_member cs) [
  | none ↦ none
  | some (m, []) ↦ none
  | some (m, d ∷ ds) ↦
      let more = (do (ms, r) ← read_members fuel ds; some (m ∷ ms, r)) in
      if d == b',' then more else if d == b'}' then some (m ∷ [], ds) else none
]

unfoldable pub read_object : List ℕ → Option (List Member × List ℕ)
unfolding read_members
read_object (c ∷ d ∷ cs) =
    if c == b'{'
    then (if d == b'}' then some ([], cs) else read_members (length (d ∷ cs)) (d ∷ cs))
    else none
read_object _ = none
