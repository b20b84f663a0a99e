-- ===== src/Text/Json/Strings/RoundTrip.antt =====
-- A string that encoding/json has printed, read again.
use open_anti_cheat.Common.{
  ℕ, zero, suc, ◌-◌, ◌/◌, ◌%◌, ◌≤◌, ◌<◌, ◌≡◌, ◌≢◌, refl, sym, ap, ◌∙◌, subst, ==_iff, ◌⊎◌, inl, inr,
  Bool, true, false, ◌&&◌, ◌||◌, some, List, [], ◌∷◌, ◌++◌, append_assoc, append-nil, take, ltb,
  ◌==◌, if◌then◌else◌, arith,
}
use open_anti_cheat.Text.Utf8.{
  replacement, encode_rune, decode_rune, runes_from, runes, encode_utf8,
}
use open_anti_cheat.Text.Json.Strings.{
  hex, escaped, bad_byte, quoted_ascii, quoted, quote_from, quote, plain, read_from, read_string,
}
use open_anti_cheat.Text.Json.Strings.Decoded.{
  read_plain, encode_rune-ascii, read_unicode, read-raw, encode_rune-high, Decoded,
  decode_rune-Decoded,
}

-- The reader goes through `printed` and has `text`.
abbrev Reads : List ℕ → List ℕ → Type 0
Reads printed text =
    (rest out : List ℕ) → read_from plain (printed ++ rest) out ≡ read_from plain rest (out ++ text)

Reads-if :
    (t : Bool) (p q text : List ℕ)
    → (t ≡ true → Reads p text)
    → (t ≡ false → Reads q text)
    → Reads (if t then p else q) text
Reads-if true p q text hp hq = hp refl
Reads-if false p q text hp hq = hq refl

Reads-eq : (printed : List ℕ) {a b : List ℕ} → a ≡ b → Reads printed a → Reads printed b
Reads-eq printed e = subst (Reads printed) e

Reads-same : (c : ℕ) → (c ≡ b'\\') ⊎ (c ≡ b'"') → Reads (b'\\' ∷ c ∷ []) (c ∷ [])
unfolding read_from
Reads-same c h rest out = ground arith

Reads-escaped : (r : ℕ) → r < 0x80 → Reads (escaped r) (encode_rune r)
unfolding hex
Reads-escaped r h rest out =
    read_unicode 0 0 (r / 16) (r % 16) rest out (omega arith) (omega arith) (omega arith)
      (omega arith)
    ∙ ap (λ c. read_from plain rest (out ++ encode_rune c)) (omega arith)

-- The byte that a letter stands for behind the backslash.
Reads-letter :
    (letter v r : ℕ)
    → ((cs out : List ℕ)
        → read_from plain (b'\\' ∷ letter ∷ cs) out ≡ read_from plain cs (out ++ v ∷ []))
    → (r == v) ≡ true
    → Reads (b'\\' ∷ letter ∷ []) (r ∷ [])
Reads-letter letter v r h e rest out =
    h rest out ∙ ap (λ c. read_from plain rest (out ++ c ∷ [])) (sym ((==_iff r v).0 e))

Reads-byte : (r : ℕ) → r < 0x80 → Reads (quoted_ascii r) (r ∷ [])
unfolding quoted_ascii read_from
Reads-byte r h =
    Reads-if (r == b'\\' || r == b'"') _ _ _ (λ t. Reads-same r (ground arith))
      λ f0.
        Reads-if (r == 8) _ _ _ (λ t. Reads-letter b'b' 8 r (λ cs out. refl) t)
          λ f1.
            Reads-if (r == 12) _ _ _ (λ t. Reads-letter b'f' 12 r (λ cs out. refl) t)
              λ f2.
                Reads-if (r == 10) _ _ _ (λ t. Reads-letter b'n' 10 r (λ cs out. refl) t)
                  λ f3.
                    Reads-if (r == 13) _ _ _ (λ t. Reads-letter b'r' 13 r (λ cs out. refl) t)
                      λ f4.
                        Reads-if (r == 9) _ _ _ (λ t. Reads-letter b't' 9 r (λ cs out. refl) t)
                          λ f5.
                            Reads-if (ltb r 32 || (r == b'<' || (r == b'>' || r == b'&'))) _ _ _
                              (λ t.
                                Reads-eq (escaped r) (encode_rune-ascii r h) (Reads-escaped r h))
                              λ f6. λ rest out.
                                read_plain r rest out (ground arith) (ground arith) (ground arith)

Reads-replacement : Reads bad_byte (encode_rune replacement)
unfolding hex
Reads-replacement rest out =
    read_unicode 15 15 15 13 rest out (omega arith) (omega arith) (omega arith) (omega arith)

Reads-separator :
    (r : ℕ)
    → (r ≡ 0x2028) ⊎ (r ≡ 0x2029)
    → Reads (b'\\' ∷ b'u' ∷ b'2' ∷ b'0' ∷ b'2' ∷ hex (r % 16) ∷ []) (encode_rune r)
unfolding hex
Reads-separator r h rest out =
    read_unicode 2 0 2 (r % 16) rest out (omega arith) (omega arith) (omega arith) (omega arith)
    ∙ ap (λ c. read_from plain rest (out ++ encode_rune c)) (ground arith)

Reads-append : (p q a b : List ℕ) → Reads p a → Reads q b → Reads (p ++ q) (a ++ b)
Reads-append p q a b hp hq rest out =
    ap (λ t. read_from plain t out) (append_assoc p q rest)
    ∙ (hp (q ++ rest) out ∙ (hq rest (out ++ a) ∙ ap (read_from plain rest) (append_assoc out a b)))

-- Bytes that are not escaped.
Reads-raw :
    (b : ℕ) (bs : List ℕ) (p : ℕ × ℕ)
    → Decoded b bs p
    → 0x80 ≤ p.0
    → (p.0 ≢ replacement) ⊎ (p.1 ≢ 1)
    → Reads (take p.1 (b ∷ bs)) (encode_rune p.0)
Reads-raw b bs p (inl (r, n, _)) h k = absurd (omega arith)
Reads-raw b bs p (inr (e, _)) h k =
    subst (λ raw. Reads raw (encode_rune p.0)) (sym e)
      (λ rest out. read-raw (encode_rune p.0) rest out (encode_rune-high p.0 h))

and_eq : (r n : ℕ) → (r == replacement && n == 1) ≡ true → r ≡ replacement
and_eq r n h = ground arith

and_ne : (r n : ℕ) → (r == replacement && n == 1) ≡ false → (r ≢ replacement) ⊎ (n ≢ 1)
and_ne r n h = ground arith

-- Reading what is printed of one rune gives the bytes of the rune.
Reads-quoted :
    (b : ℕ) (bs : List ℕ) (p : ℕ × ℕ)
    → Decoded b bs p
    → Reads (quoted p.0 p.1 (take p.1 (b ∷ bs))) (encode_rune p.0)
unfolding quoted
Reads-quoted b bs p h =
    Reads-if (ltb p.0 0x80) _ _ _
      (λ t. Reads-eq _ (sym (encode_rune-ascii p.0 (ground arith))) (Reads-byte p.0 (ground arith)))
      λ f0.
        Reads-if (p.0 == replacement && p.1 == 1) _ _ _
          (λ t. Reads-eq bad_byte (ap encode_rune (sym (and_eq p.0 p.1 t))) Reads-replacement)
          λ f1.
            Reads-if (p.0 == 0x2028 || p.0 == 0x2029) _ _ _
              (λ t. Reads-separator p.0 (ground arith))
              λ f2. Reads-raw b bs p h (ground arith) (and_ne p.0 p.1 f1)

-- The reader goes through what is printed of a string, and has its runes, each in UTF-8.
Reads-quote_from :
    (skip : ℕ) (s : List ℕ) → Reads (quote_from skip s) (encode_utf8 (runes_from skip s))
unfolding quote_from runes_from encode_utf8
Reads-quote_from skip [] = λ rest out. rw append-nil
Reads-quote_from (suc skip) (b ∷ bs) = Reads-quote_from skip bs
Reads-quote_from zero (b ∷ bs) =
    let p = decode_rune b bs in
    Reads-append _ _ _ _ (Reads-quoted b bs p (decode_rune-Decoded b bs))
      (Reads-quote_from (p.1 - 1) bs)

read_quote : (rest out : List ℕ) → read_from plain (b'"' ∷ rest) out ≡ some (out, rest)
unfolding read_from
read_quote rest out = refl

-- What a reader of JSON takes from the print of a string is the string with each byte that is not
-- part of well-formed UTF-8 replaced by U+FFFD, whatever follows the print.
pub read_string-quote :
    (s rest : List ℕ) → read_string (quote s ++ rest) ≡ some (encode_utf8 (runes s), rest)
unfolding read_string quote runes
read_string-quote s rest =
    ap (λ t. read_from plain t []) (append_assoc (quote_from 0 s) (b'"' ∷ []) rest)
    ∙ (Reads-quote_from 0 s (b'"' ∷ rest) [] ∙ read_quote rest _)
