-- ===== src/Text/Utf16.antt =====
-- Go's unicode/utf16, and `UTF16ToString` of packages syscall and golang.org/x/sys/windows, which
-- stops at a NUL and writes a lone surrogate in three bytes (WTF-8).
use open_anti_cheat.Common.{
  ℕ, ◌+◌, ◌-◌, ◌*◌, ◌/◌, ◌%◌, ◌^◌, ◌≤◌, ◌<◌, ◌≡◌, ◌≢◌, refl, ap, ◌∙◌, ◌⊎◌, Bool, ◌&&◌, not, List,
  [], ◌∷◌, ◌++◌, arith, true, false, dec_lt, ltb, leb, ◌==◌, if◌then◌else◌, All, All-append,
}
use open_anti_cheat.Text.Utf8.{replacement, IsScalar, encode_rune, encode_utf8}

abbrev pub is_high : ℕ → Bool
is_high u = leb 0xD800 u && ltb u 0xDC00

abbrev pub is_low : ℕ → Bool
is_low u = leb 0xDC00 u && ltb u 0xE000

abbrev pub is_surrogate : ℕ → Bool
is_surrogate u = leb 0xD800 u && ltb u 0xE000

abbrev pub pair_rune : ℕ → ℕ → ℕ
pair_rune hi lo = (hi - 0xD800) * 1024 + (lo - 0xDC00) + 0x10000

-- `utf16.Decode`, with what it yields for a surrogate that has no partner.
unfoldable pub decode_with : (ℕ → ℕ) → List ℕ → List ℕ
decode_with lone [] = []
decode_with lone (u ∷ []) = (if is_surrogate u then lone u else u) ∷ []
decode_with lone (u ∷ v ∷ us) =
    let paired = pair_rune u v ∷ decode_with lone us in
    let alone = (if is_surrogate u then lone u else u) ∷ decode_with lone (v ∷ us) in
    if is_high u && is_low v then paired else alone

abbrev pub decode_utf16 : List ℕ → List ℕ
decode_utf16 = decode_with (λ u. replacement)

-- `utf16.Encode`
unfoldable pub encode_unit : ℕ → List ℕ
encode_unit r =
    if ltb r 0x10000 && not (is_surrogate r)
    then r ∷ []
    else if leb 0x10000 r && ltb r 0x110000
    then (0xD800 + (r - 0x10000) / 1024) ∷ (0xDC00 + (r - 0x10000) % 1024) ∷ []
    else replacement ∷ []

unfoldable pub encode_utf16 : List ℕ → List ℕ
encode_utf16 [] = []
encode_utf16 (r ∷ rs) = encode_unit r ++ encode_utf16 rs

-- `buf[:n]` for the `n` of the first NUL, or the whole buffer.
unfoldable pub until_nul : List ℕ → List ℕ
until_nul [] = []
until_nul (v ∷ vs) = if v == 0 then [] else v ∷ until_nul vs

-- The windows `UTF16ToString`.
unfoldable pub wtf8_rune : ℕ → List ℕ
wtf8_rune r =
    if is_surrogate r
    then (0xE0 + r / 4096) ∷ (0x80 + r / 64 % 64) ∷ (0x80 + r % 64) ∷ []
    else encode_rune r

unfoldable pub encode_wtf8 : List ℕ → List ℕ
encode_wtf8 [] = []
encode_wtf8 (r ∷ rs) = wtf8_rune r ++ encode_wtf8 rs

unfoldable pub utf16_to_string_win : List ℕ → List ℕ
utf16_to_string_win us = encode_wtf8 (decode_with (λ u. u) (until_nul us))

abbrev pub NonZero : ℕ → Type 0
NonZero u = u ≢ 0

-- No NUL and no surrogate: the runes that take one code unit.
abbrev pub IsBmp : ℕ → Type 0
IsBmp r = (0 < r) × ((r < 0xD800) ⊎ ((0xE000 ≤ r) × (r < 0x10000)))

pub IsBmp-IsScalar : (r : ℕ) → IsBmp r → IsScalar r
IsBmp-IsScalar r h = ground arith

pub IsBmp-NonZero : (r : ℕ) → IsBmp r → NonZero r
IsBmp-NonZero r h = ground arith

module _ (lone : ℕ → ℕ) where
  decode_plain :
      (u : ℕ) (us : List ℕ)
      → is_surrogate u ≡ false
      → decode_with lone (u ∷ us) ≡ u ∷ decode_with lone us
  unfolding decode_with
  decode_plain u [] h = rw h
  decode_plain u (v ∷ us) h = ground arith

  decode_pair :
      (u v : ℕ) (us : List ℕ)
      → is_high u ≡ true
      → is_low v ≡ true
      → decode_with lone (u ∷ v ∷ us) ≡ pair_rune u v ∷ decode_with lone us
  unfolding decode_with
  decode_pair u v us hu hv = ground arith

  decode-encode_unit :
      (r : ℕ) (us : List ℕ)
      → IsScalar r
      → decode_with lone (encode_unit r ++ us) ≡ r ∷ decode_with lone us
  unfolding encode_unit
  decode-encode_unit r us h = elim (dec_lt r 0x10000) [
    | yes small ↦ ground (arith, decode_plain r us)
    | no large ↦
        ground
          (arith, decode_pair (0xD800 + (r - 0x10000) / 1024) (0xDC00 + (r - 0x10000) % 1024) us)
  ]

  -- Whatever a lone surrogate decodes to, encoding makes none.
  pub decode-encode_utf16 :
      (rs : List ℕ) → All IsScalar rs → decode_with lone (encode_utf16 rs) ≡ rs
  unfolding encode_utf16
  decode-encode_utf16 [] h = unfold decode_with in refl
  decode-encode_utf16 (r ∷ rs) (hr, hrs) =
      decode-encode_unit r (encode_utf16 rs) hr ∙ ap (◌∷◌ r) (decode-encode_utf16 rs hrs)

  pub decode_bmp : (us : List ℕ) → All IsBmp us → decode_with lone us ≡ us
  decode_bmp [] h = unfold decode_with in refl
  decode_bmp (u ∷ us) (hu, hus) = decode_plain u us (ground arith) ∙ ap (◌∷◌ u) (decode_bmp us hus)

encode_unit-NonZero : (r : ℕ) → r ≢ 0 → All NonZero (encode_unit r)
unfolding encode_unit
encode_unit-NonZero r h = ground arith

pub encode_utf16-NonZero : (rs : List ℕ) → All NonZero rs → All NonZero (encode_utf16 rs)
unfolding encode_utf16
encode_utf16-NonZero [] h = tt
encode_utf16-NonZero (r ∷ rs) (hr, hrs) =
    All-append NonZero (encode_unit r) (encode_utf16 rs) (encode_unit-NonZero r hr)
      (encode_utf16-NonZero rs hrs)

pub until_nul-append : (us zs : List ℕ) → All NonZero us → until_nul (us ++ 0 ∷ zs) ≡ us
unfolding until_nul
until_nul-append [] zs h = refl
until_nul-append (u ∷ us) zs (hu, hus) = ground (arith, until_nul-append us zs hus)

-- It is a prefix of the buffer without NUL, and ends at the first NUL or at the end.
pub until_nul-NonZero : (us : List ℕ) → All NonZero (until_nul us)
unfolding until_nul
until_nul-NonZero [] = tt
until_nul-NonZero (u ∷ us) = ground (arith, until_nul-NonZero us)

pub until_nul_id : (us : List ℕ) → All NonZero us → until_nul us ≡ us
unfolding until_nul
until_nul_id [] h = refl
until_nul_id (u ∷ us) (hu, hus) = ground (arith, until_nul_id us hus)

pub encode_wtf8-scalar : (rs : List ℕ) → All IsScalar rs → encode_wtf8 rs ≡ encode_utf8 rs
unfolding encode_wtf8 encode_utf8 wtf8_rune
encode_wtf8-scalar [] h = refl
encode_wtf8-scalar (r ∷ rs) (hr, hrs) = ground (arith, encode_wtf8-scalar rs hrs)

abbrev pub IsUnit : ℕ → Type 0
IsUnit u = u < 2 ^ 16

encode_unit-IsUnit : (r : ℕ) → All IsUnit (encode_unit r)
unfolding encode_unit
encode_unit-IsUnit r = ground arith

pub encode_utf16-IsUnit : (rs : List ℕ) → All IsUnit (encode_utf16 rs)
unfolding encode_utf16
encode_utf16-IsUnit [] = tt
encode_utf16-IsUnit (r ∷ rs) =
    All-append IsUnit (encode_unit r) (encode_utf16 rs) (encode_unit-IsUnit r)
      (encode_utf16-IsUnit rs)
