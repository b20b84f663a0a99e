-- ===== src/Text/Utf8.antt =====
-- UTF-8 as Go reads and writes it: `string(runes)` writes U+FFFD for what is no scalar value, and a
-- `range` over a string yields U+FFFD for each byte that starts no well-formed sequence.
use open_anti_cheat.Common.{
  ℕ, zero, suc, ◌+◌, ◌-◌, ◌*◌, ◌/◌, ◌%◌, ◌≤◌, ◌<◌, ◌≡◌, refl, ap, ◌∙◌, ◌⊎◌, Bool, ◌&&◌, List, [],
  ◌∷◌, ◌++◌, arith, dec_lt, ltb, leb, ◌==◌, if◌then◌else◌, All,
}

abbrev pub replacement : ℕ
replacement = 0xFFFD

-- A Unicode scalar value: a code point that is no surrogate.
abbrev pub IsScalar : ℕ → Type 0
IsScalar r = (r < 0xD800) ⊎ ((0xE000 ≤ r) × (r < 0x110000))

abbrev utf8_3 : ℕ → List ℕ
utf8_3 r = (0xE0 + r / 4096) ∷ (0x80 + r / 64 % 64) ∷ (0x80 + r % 64) ∷ []

unfoldable pub encode_rune : ℕ → List ℕ
encode_rune r =
    if ltb r 0x80
    then r ∷ []
    else if ltb r 0x800
    then (0xC0 + r / 64) ∷ (0x80 + r % 64) ∷ []
    else if leb 0xD800 r && ltb r 0xE000
    then utf8_3 replacement
    else if ltb r 0x10000
    then utf8_3 r
    else if ltb r 0x110000
    then (0xF0 + r / 262144) ∷ (0x80 + r / 4096 % 64) ∷ (0x80 + r / 64 % 64) ∷ (0x80 + r % 64) ∷ []
    else utf8_3 replacement

-- `string(runes)`
unfoldable pub encode_utf8 : List ℕ → List ℕ
encode_utf8 [] = []
encode_utf8 (r ∷ rs) = encode_rune r ++ encode_utf8 rs

abbrev within : ℕ → ℕ → ℕ → Bool
within lo hi b = leb lo b && leb b hi

abbrev bad : ℕ × ℕ
bad = (replacement, 1)

unfoldable pub decode_2 : ℕ → List ℕ → ℕ × ℕ
decode_2 b (c ∷ bs) = if within 0x80 0xBF c then ((b - 0xC0) * 64 + (c - 0x80), 2) else bad
decode_2 b _ = bad

unfoldable pub decode_3 : ℕ → List ℕ → ℕ × ℕ
decode_3 b (c ∷ d ∷ bs) =
    let lo = if b == 0xE0 then 0xA0 else 0x80 in
    let hi = if b == 0xED then 0x9F else 0xBF in
    if within lo hi c && within 0x80 0xBF d
    then ((b - 0xE0) * 4096 + (c - 0x80) * 64 + (d - 0x80), 3)
    else bad
decode_3 b _ = bad

unfoldable pub decode_4 : ℕ → List ℕ → ℕ × ℕ
decode_4 b (c ∷ d ∷ e ∷ bs) =
    let lo = if b == 0xF0 then 0x90 else 0x80 in
    let hi = if b == 0xF4 then 0x8F else 0xBF in
    if within lo hi c && (within 0x80 0xBF d && within 0x80 0xBF e)
    then ((b - 0xF0) * 262144 + (c - 0x80) * 4096 + (d - 0x80) * 64 + (e - 0x80), 4)
    else bad
decode_4 b _ = bad

-- The rune at the front, and how many bytes it takes.
unfoldable pub decode_rune : ℕ → List ℕ → ℕ × ℕ
decode_rune b bs =
    if ltb b 0x80
    then (b, 1)
    else if ltb b 0xC2
    then bad
    else if ltb b 0xE0
    then decode_2 b bs
    else if ltb b 0xF0
    then decode_3 b bs
    else if ltb b 0xF5
    then decode_4 b bs
    else bad

-- The runes of a string, behind `skip` bytes that belong to the rune before.
unfoldable pub runes_from : ℕ → List ℕ → List ℕ
runes_from skip [] = []
runes_from (suc skip) (b ∷ bs) = runes_from skip bs
runes_from zero (b ∷ bs) = let (r, n) = decode_rune b bs in r ∷ runes_from (n - 1) bs

-- `[]rune(s)`, and what a `range` over the string yields.
unfoldable pub runes : List ℕ → List ℕ
unfolding runes_from
runes s = runes_from 0 s

-- Decoding what `encode_rune` wrote, by the number of bytes.
decode_rune_1 : (r : ℕ) (bs : List ℕ) → r < 0x80 → decode_rune r bs ≡ (r, 1)
unfolding decode_rune
decode_rune_1 r bs h = ground arith

decode_rune_2 :
    (r : ℕ) (bs : List ℕ)
    → 0x80 ≤ r
    → r < 0x800
    → decode_rune (0xC0 + r / 64) ((0x80 + r % 64) ∷ bs) ≡ (r, 2)
unfolding decode_rune decode_2
decode_rune_2 r bs lo hi = ground arith

decode_3_lem :
    (r : ℕ) (bs : List ℕ)
    → 0x800 ≤ r
    → r < 0x10000
    → IsScalar r
    → decode_3 (0xE0 + r / 4096) ((0x80 + r / 64 % 64) ∷ (0x80 + r % 64) ∷ bs) ≡ (r, 3)
unfolding decode_3
decode_3_lem r bs lo hi h = ground arith

decode_4_lem :
    (r : ℕ) (bs : List ℕ)
    → 0x10000 ≤ r
    → r < 0x110000
    → decode_4
        (0xF0 + r / 262144)
        ((0x80 + r / 4096 % 64) ∷ (0x80 + r / 64 % 64) ∷ (0x80 + r % 64) ∷ bs)
      ≡ (r, 4)
unfolding decode_4
decode_4_lem r bs lo hi = ground arith

decode_rune_3 :
    (r : ℕ) (bs : List ℕ)
    → 0x800 ≤ r
    → r < 0x10000
    → IsScalar r
    → decode_rune (0xE0 + r / 4096) ((0x80 + r / 64 % 64) ∷ (0x80 + r % 64) ∷ bs) ≡ (r, 3)
unfolding decode_rune
decode_rune_3 r bs lo hi h = ground (arith, decode_3_lem r bs)

decode_rune_4 :
    (r : ℕ) (bs : List ℕ)
    → 0x10000 ≤ r
    → r < 0x110000
    → decode_rune
        (0xF0 + r / 262144)
        ((0x80 + r / 4096 % 64) ∷ (0x80 + r / 64 % 64) ∷ (0x80 + r % 64) ∷ bs)
      ≡ (r, 4)
unfolding decode_rune
decode_rune_4 r bs lo hi = ground (arith, decode_4_lem r bs)

runes-encode_rune :
    (r : ℕ) (rest : List ℕ) → IsScalar r → runes (encode_rune r ++ rest) ≡ r ∷ runes rest
unfolding runes encode_rune
runes-encode_rune r rest h = elim (dec_lt r 0x80) [
  | yes a ↦ ground (arith, decode_rune_1 r rest)
  | no a ↦ elim (dec_lt r 0x800) [
    | yes b ↦ ground (arith, decode_rune_2 r rest)
    | no b ↦ elim (dec_lt r 0x10000) [
      | yes c ↦ ground (arith, decode_rune_3 r rest)
      | no c ↦ ground (arith, decode_rune_4 r rest)
    ]
  ]
]

pub runes-encode_utf8 : (rs : List ℕ) → All IsScalar rs → runes (encode_utf8 rs) ≡ rs
unfolding encode_utf8
runes-encode_utf8 [] h = unfold runes in refl
runes-encode_utf8 (r ∷ rs) (hr, hrs) =
    runes-encode_rune r (encode_utf8 rs) hr ∙ ap (◌∷◌ r) (runes-encode_utf8 rs hrs)

decode_3-IsScalar : (b : ℕ) (bs : List ℕ) → 0xE0 ≤ b → b < 0xF0 → IsScalar (decode_3 b bs).0
unfolding decode_3
decode_3-IsScalar b [] lo hi = ground arith
decode_3-IsScalar b (c ∷ []) lo hi = ground arith
decode_3-IsScalar b (c ∷ d ∷ bs) lo hi = ground arith

decode_4-IsScalar : (b : ℕ) (bs : List ℕ) → 0xF0 ≤ b → b < 0xF5 → IsScalar (decode_4 b bs).0
unfolding decode_4
decode_4-IsScalar b [] lo hi = ground arith
decode_4-IsScalar b (c ∷ []) lo hi = ground arith
decode_4-IsScalar b (c ∷ d ∷ []) lo hi = ground arith
decode_4-IsScalar b (c ∷ d ∷ e ∷ bs) lo hi = ground arith

decode_rune-IsScalar : (b : ℕ) (bs : List ℕ) → IsScalar (decode_rune b bs).0
unfolding decode_rune decode_2
decode_rune-IsScalar b [] = ground (arith, decode_3-IsScalar b [], decode_4-IsScalar b [])
decode_rune-IsScalar b (c ∷ bs) =
    ground (arith, decode_3-IsScalar b (c ∷ bs), decode_4-IsScalar b (c ∷ bs))

runes_from-IsScalar : (skip : ℕ) (bs : List ℕ) → All IsScalar (runes_from skip bs)
unfolding runes_from
runes_from-IsScalar skip [] = tt
runes_from-IsScalar (suc skip) (b ∷ bs) = runes_from-IsScalar skip bs
runes_from-IsScalar zero (b ∷ bs) =
    (decode_rune-IsScalar b bs, runes_from-IsScalar ((decode_rune b bs).1 - 1) bs)

-- Go yields scalar values only, whatever the bytes.
pub runes-IsScalar : (s : List ℕ) → All IsScalar (runes s)
unfolding runes
runes-IsScalar s = runes_from-IsScalar 0 s
