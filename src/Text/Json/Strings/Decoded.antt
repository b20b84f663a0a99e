-- ===== src/Text/Json/Strings/Decoded.antt =====
-- Characters of a printed string as its reader takes them, and what `decode_rune` says of the bytes
-- at the front.
use open_anti_cheat.Common.{
  ℕ, suc, ◌+◌, ◌*◌, ◌≤◌, ◌<◌, ◌≡◌, ◌≢◌, refl, sym, ap, ◌∙◌, ◌⊎◌, inl, inr, Bool, true, false, some,
  List, [], ◌∷◌, ◌++◌, append_assoc, append-nil, take, ltb, if◌then◌else◌, All, arith,
}
use open_anti_cheat.Text.Utf8.{replacement, encode_rune, decode_rune, decode_2, decode_3, decode_4}
use open_anti_cheat.Text.Json.Strings.{hex, plain, digits, hex_value, read_from}

pub read_plain :
    (c : ℕ) (cs out : List ℕ)
    → 32 ≤ c
    → c ≢ b'"'
    → c ≢ b'\\'
    → read_from plain (c ∷ cs) out ≡ read_from plain cs (out ++ c ∷ [])
unfolding read_from
read_plain c cs out h q s = ground arith

hex_value-hex : (d : ℕ) → d < 16 → hex_value (hex d) ≡ some d
unfolding hex_value hex
hex_value-hex d h = ground arith

read_digit :
    (acc left d : ℕ) (cs out : List ℕ)
    → d < 16
    → read_from (digits acc (suc left)) (hex d ∷ cs) out
      ≡ read_from (digits (acc * 16 + d) left) cs out
unfolding read_from
read_digit acc left d cs out h = rw (hex_value-hex d h, read_from)

read_last_digit :
    (acc d : ℕ) (cs out : List ℕ)
    → d < 16
    → read_from (digits acc 0) (hex d ∷ cs) out
      ≡ read_from plain cs (out ++ encode_rune (acc * 16 + d))
unfolding read_from
read_last_digit acc d cs out h = rw (hex_value-hex d h, read_from)

read_backslash_u :
    (cs out : List ℕ) → read_from plain (b'\\' ∷ b'u' ∷ cs) out ≡ read_from (digits 0 3) cs out
unfolding read_from
read_backslash_u cs out = refl

pub encode_rune-ascii : (r : ℕ) → r < 0x80 → encode_rune r ≡ r ∷ []
unfolding encode_rune
encode_rune-ascii r h = ground arith

-- Four digits behind `\u`.
pub read_unicode :
    (a b c d : ℕ) (cs out : List ℕ)
    → a < 16
    → b < 16
    → c < 16
    → d < 16
    → read_from plain (b'\\' ∷ b'u' ∷ hex a ∷ hex b ∷ hex c ∷ hex d ∷ cs) out
      ≡ read_from plain cs (out ++ encode_rune (((a * 16 + b) * 16 + c) * 16 + d))
read_unicode a b c d cs out ha hb hc hd =
    read_backslash_u _ out
    ∙ (read_digit 0 2 a _ out ha
        ∙ (read_digit (0 * 16 + a) 1 b _ out hb
            ∙ (read_digit ((0 * 16 + a) * 16 + b) 0 c _ out hc
                ∙ (read_last_digit (((0 * 16 + a) * 16 + b) * 16 + c) d cs out hd
                    ∙ ap (λ r. read_from plain cs (out ++ encode_rune r)) (omega arith)))))

pub read-raw :
    (raw rest out : List ℕ)
    → All (λ c. 0x80 ≤ c) raw
    → read_from plain (raw ++ rest) out ≡ read_from plain rest (out ++ raw)
read-raw [] rest out h = rw append-nil
read-raw (c ∷ cs) rest out (hc, hcs) =
    read_plain c (cs ++ rest) out (omega arith) (omega arith) (omega arith)
    ∙ (read-raw cs rest (out ++ c ∷ []) hcs ∙ rw append_assoc)

pub encode_rune-high : (r : ℕ) → 0x80 ≤ r → All (λ c. 0x80 ≤ c) (encode_rune r)
unfolding encode_rune
encode_rune-high r h = ground arith

-- What `decode_rune` says of the bytes at the front: a bad byte, or the bytes of the rune.
abbrev pub Decoded : ℕ → List ℕ → ℕ × ℕ → Type 0
Decoded b bs p =
    ((p.0 ≡ replacement) × (p.1 ≡ 1) × (0x80 ≤ b))
    ⊎ ((take p.1 (b ∷ bs) ≡ encode_rune p.0) × ((p.1 ≢ 1) ⊎ (p.0 < 0x80)))

decode_2-Decoded : (b : ℕ) (bs : List ℕ) → 0xC2 ≤ b → b < 0xE0 → Decoded b bs (decode_2 b bs)
unfolding decode_2 encode_rune take
decode_2-Decoded b [] lo hi = ground arith
decode_2-Decoded b (c ∷ bs) lo hi = ground arith

decode_3-Decoded : (b : ℕ) (bs : List ℕ) → 0xE0 ≤ b → b < 0xF0 → Decoded b bs (decode_3 b bs)
unfolding decode_3 encode_rune take
decode_3-Decoded b [] lo hi = ground arith
decode_3-Decoded b (c ∷ []) lo hi = ground arith
decode_3-Decoded b (c ∷ d ∷ bs) lo hi = ground arith

decode_4-Decoded : (b : ℕ) (bs : List ℕ) → 0xF0 ≤ b → b < 0xF5 → Decoded b bs (decode_4 b bs)
unfolding decode_4 encode_rune take
decode_4-Decoded b [] lo hi = ground arith
decode_4-Decoded b (c ∷ []) lo hi = ground arith
decode_4-Decoded b (c ∷ d ∷ []) lo hi = ground arith
decode_4-Decoded b (c ∷ d ∷ e ∷ bs) lo hi = ground arith

decode_ascii-Decoded : (b : ℕ) (bs : List ℕ) → b < 0x80 → Decoded b bs (b, 1)
unfolding take
decode_ascii-Decoded b bs h = inr (sym (encode_rune-ascii b h), inr h)

Decoded-if :
    (b : ℕ) (bs : List ℕ) (t : Bool) (p q : ℕ × ℕ)
    → (t ≡ true → Decoded b bs p)
    → (t ≡ false → Decoded b bs q)
    → Decoded b bs (if t then p else q)
Decoded-if b bs true p q hp hq = hp refl
Decoded-if b bs false p q hp hq = hq refl

pub decode_rune-Decoded : (b : ℕ) (bs : List ℕ) → Decoded b bs (decode_rune b bs)
unfolding decode_rune
decode_rune-Decoded b bs =
    Decoded-if b bs (ltb b 0x80) _ _ (λ h. decode_ascii-Decoded b bs (ground arith))
      λ h0.
        Decoded-if b bs (ltb b 0xC2) _ _ (λ h. inl (refl, refl, ground arith))
          λ h1.
            Decoded-if b bs (ltb b 0xE0) _ _
              (λ h. decode_2-Decoded b bs (ground arith) (ground arith))
              λ h2.
                Decoded-if b bs (ltb b 0xF0) _ _
                  (λ h. decode_3-Decoded b bs (ground arith) (ground arith))
                  λ h3.
                    Decoded-if b bs (ltb b 0xF5) _ _
                      (λ h. decode_4-Decoded b bs (ground arith) (ground arith))
                      λ h4. inl (refl, refl, ground arith)
