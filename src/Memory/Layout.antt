-- ===== src/Memory/Layout.antt =====
-- Go's struct layout on amd64 and the copy of a struct to bytes and back. A field is an array of
-- `count` numbers of `width` bytes (a scalar is an array of one) and is aligned to `width`. Padding
-- is a field too, of single bytes, so that the bytes of a struct are those of its slots in order.
use open_anti_cheat.Common.{
  ℕ, ◌+◌, ◌-◌, ◌*◌, ◌/◌, ◌≡◌, refl, List, [], ◌∷◌, ◌++◌, arith, max, length, length-append, drop,
  drop-append_len, take-append-drop, ap, length-drop, All, All-append, All-drop,
}
use open_anti_cheat.Memory.Words.{
  IsByte, Fits, write_words, read_words, length-write_words, write_words-IsByte,
  read_words-write_words, length-read_words, read_words-Fits, write_words-read_words,
}

pub record Slot : Type 0 where
  pub width : ℕ
  pub count : ℕ

abbrev pub scalar : ℕ → Slot
scalar w = record { width = w; count = 1 }

abbrev pub array : ℕ → ℕ → Slot
array w n = record { width = w; count = n }

abbrev pub padding : ℕ → Slot
padding n = record { width = 1; count = n }

abbrev pub bytes_of_slot : Slot → ℕ
bytes_of_slot s = s.width * s.count

-- The next multiple of `a`.
abbrev pub align_up : ℕ → ℕ → ℕ
align_up off a = (off + a - 1) / a * a

abbrev pub struct_align : List Slot → ℕ
struct_align [] = 1
struct_align (f ∷ fs) = max f.width (struct_align fs)

-- Every field behind the padding that aligns it, and the padding at the end.
abbrev pub layout_from : ℕ → ℕ → List Slot → List Slot
layout_from off a [] = padding (align_up off a - off) ∷ []
layout_from off a (f ∷ fs) =
    let start = align_up off f.width in
    padding (start - off) ∷ f ∷ layout_from (start + bytes_of_slot f) a fs

abbrev pub layout : List Slot → List Slot
layout fs = layout_from 0 (struct_align fs) fs

-- `unsafe.Sizeof`
unfoldable pub size_of : List Slot → ℕ
size_of [] = 0
size_of (s ∷ ss) = bytes_of_slot s + size_of ss

-- What the slots hold: for each slot its numbers.
unfoldable pub encode : List Slot → List (List ℕ) → List ℕ
encode [] rows = []
encode (s ∷ ss) [] = []
encode (s ∷ ss) (row ∷ rows) = write_words s.width row ++ encode ss rows

unfoldable pub decode : List Slot → List ℕ → List (List ℕ)
decode [] bs = []
decode (s ∷ ss) bs = read_words s.width s.count bs ∷ decode ss (drop (bytes_of_slot s) bs)

-- The rows have the shapes of the slots.
abbrev pub Shaped : List Slot → List (List ℕ) → Type 0
Shaped [] [] = Unit {0}
Shaped [] (row ∷ rows) = ⊥
Shaped (s ∷ ss) [] = ⊥
Shaped (s ∷ ss) (row ∷ rows) = (length row ≡ s.count) × All (Fits s.width) row × Shaped ss rows

pub length-encode :
    (ss : List Slot) (rows : List (List ℕ)) → Shaped ss rows → length (encode ss rows) ≡ size_of ss
unfolding encode size_of
length-encode [] [] h = refl
length-encode [] (row ∷ rows) h = absurd h
length-encode (s ∷ ss) [] h = absurd h
length-encode (s ∷ ss) (row ∷ rows) (len, fit, h) = omega (
  arith,
  length-append (write_words s.width row) (encode ss rows),
  length-write_words s.width row,
  ap (λ (n : ℕ). s.width * n) len,
  length-encode ss rows h,
)

pub encode-IsByte : (ss : List Slot) (rows : List (List ℕ)) → All IsByte (encode ss rows)
unfolding encode
encode-IsByte [] rows = tt
encode-IsByte (s ∷ ss) [] = tt
encode-IsByte (s ∷ ss) (row ∷ rows) =
    All-append IsByte (write_words s.width row) (encode ss rows) (write_words-IsByte s.width row)
      (encode-IsByte ss rows)

slot_length :
    (s : Slot) (row : List ℕ)
    → length row ≡ s.count
    → length (write_words s.width row) ≡ bytes_of_slot s
slot_length s row len =
    omega (arith, length-write_words s.width row, ap (λ (n : ℕ). s.width * n) len)

pub decode-encode :
    (ss : List Slot) (rows : List (List ℕ)) → Shaped ss rows → decode ss (encode ss rows) ≡ rows
unfolding encode decode
decode-encode [] [] h = refl
decode-encode [] (row ∷ rows) h = absurd h
decode-encode (s ∷ ss) [] h = absurd h
decode-encode (s ∷ ss) (row ∷ rows) (len, fit, h) = rw (
  drop-append_len (write_words s.width row) (encode ss rows) (slot_length s row len),
  decode-encode ss rows h,
  ← len,
  read_words-write_words s.width row (encode ss rows) fit,
)

pub decode-Shaped :
    (ss : List Slot) (bs : List ℕ)
    → All IsByte bs
    → length bs ≡ size_of ss
    → Shaped ss (decode ss bs)
unfolding decode size_of
decode-Shaped [] bs h len = tt
decode-Shaped (s ∷ ss) bs h len = (
  length-read_words s.width s.count bs,
  read_words-Fits s.width s.count bs h (omega arith),
  decode-Shaped ss (drop (bytes_of_slot s) bs) (All-drop IsByte (bytes_of_slot s) bs h)
      (omega (arith, length-drop (bytes_of_slot s) bs)),
)

pub encode-decode :
    (ss : List Slot) (bs : List ℕ)
    → All IsByte bs
    → length bs ≡ size_of ss
    → encode ss (decode ss bs) ≡ bs
unfolding encode decode size_of
encode-decode [] [] h len = refl
encode-decode [] (b ∷ bs) h len = absurd (omega arith)
encode-decode (s ∷ ss) bs h len = rw (
  write_words-read_words s.width s.count bs h (omega arith),
  encode-decode ss (drop (bytes_of_slot s) bs) (All-drop IsByte (bytes_of_slot s) bs h)
      (omega (arith, length-drop (bytes_of_slot s) bs)),
  take-append-drop (bytes_of_slot s) bs,
)
