-- ===== src/Memory/Words.antt =====
-- Little-endian words: the bytes of one number, and of an array of numbers of one width.
use open_anti_cheat.Common.{
  ℕ, zero, suc, ◌+◌, ◌*◌, ◌/◌, ◌%◌, ◌^◌, ◌≤◌, ◌<◌, ◌≡◌, refl, ap, List, [], ◌∷◌, ◌++◌, arith,
  length, length-append, take, drop, take-append_len, drop-append_len, take-add, append_assoc,
  length-take, length-drop, All, All-append, All-take, All-drop,
}
use native.Mathlib.Nat.{div-add-mod, mul-suc, mul-zero, add_comm}
use mathlib.Core.Path.{subst}

abbrev pub IsByte : ℕ → Type 0
IsByte b = b < 256

-- A number that fits in `w` bytes.
abbrev pub Fits : ℕ → ℕ → Type 0
Fits w v = v < 256 ^ w

unfoldable pub le_bytes : ℕ → ℕ → List ℕ
le_bytes zero v = []
le_bytes (suc w) v = (v % 256) ∷ le_bytes w (v / 256)

unfoldable pub le_value : List ℕ → ℕ
le_value [] = 0
le_value (b ∷ bs) = b + 256 * le_value bs

unfoldable pub write_words : ℕ → List ℕ → List ℕ
write_words w [] = []
write_words w (v ∷ vs) = le_bytes w v ++ write_words w vs

-- `count` words of width `w` from the front of the bytes.
unfoldable pub read_words : ℕ → ℕ → List ℕ → List ℕ
read_words w zero bs = []
read_words w (suc count) bs = le_value (take w bs) ∷ read_words w count (drop w bs)

pub length-le_bytes : (w v : ℕ) → length (le_bytes w v) ≡ w
unfolding le_bytes
length-le_bytes zero v = refl
length-le_bytes (suc w) v = ap suc (length-le_bytes w (v / 256))

le_bytes-IsByte : (w v : ℕ) → All IsByte (le_bytes w v)
unfolding le_bytes
le_bytes-IsByte zero v = tt
le_bytes-IsByte (suc w) v = (omega arith, le_bytes-IsByte w (v / 256))

pub le_value-le_bytes : (w v : ℕ) → Fits w v → le_value (le_bytes w v) ≡ v
unfolding le_bytes le_value
le_value-le_bytes zero v h = omega arith
le_value-le_bytes (suc w) v h =
    omega (arith, le_value-le_bytes w (v / 256) (omega arith), div-add-mod v 256)

Fits-step : (n b v : ℕ) → b < 256 → v < 256 ^ n → b + 256 * v < 256 ^ suc n
Fits-step n b v hb hv = omega arith

pub le_value-Fits : (bs : List ℕ) → All IsByte bs → Fits (length bs) (le_value bs)
unfolding le_value
le_value-Fits [] h = omega arith
le_value-Fits (b ∷ bs) h = Fits-step (length bs) b (le_value bs) h.0 (le_value-Fits bs h.1)

low_byte : (b v : ℕ) → b < 256 → (b + 256 * v) % 256 ≡ b
low_byte b v h = omega arith

high_bytes : (b v : ℕ) → b < 256 → (b + 256 * v) / 256 ≡ v
high_bytes b v h = omega arith

pub le_bytes-le_value : (bs : List ℕ) → All IsByte bs → le_bytes (length bs) (le_value bs) ≡ bs
unfolding le_bytes le_value
le_bytes-le_value [] h = refl
le_bytes-le_value (b ∷ bs) (hb, hbs) =
    ground
      (arith, le_bytes-le_value bs hbs, low_byte b (le_value bs) hb, high_bytes b (le_value bs) hb)

pub length-write_words : (w : ℕ) (vs : List ℕ) → length (write_words w vs) ≡ w * length vs
unfolding write_words
length-write_words w [] = omega arith
length-write_words w (v ∷ vs) = omega (
  arith,
  length-append (le_bytes w v) (write_words w vs),
  length-le_bytes w v,
  length-write_words w vs,
)

pub write_words-IsByte : (w : ℕ) (vs : List ℕ) → All IsByte (write_words w vs)
unfolding write_words
write_words-IsByte w [] = tt
write_words-IsByte w (v ∷ vs) =
    All-append IsByte (le_bytes w v) (write_words w vs) (le_bytes-IsByte w v)
      (write_words-IsByte w vs)

-- What was written is read back, whatever follows it.
pub read_words-write_words :
    (w : ℕ) (vs rest : List ℕ)
    → All (Fits w) vs
    → read_words w (length vs) (write_words w vs ++ rest) ≡ vs
unfolding read_words write_words
read_words-write_words w [] rest h = refl
read_words-write_words w (v ∷ vs) rest (hv, hvs) = rw (
  append_assoc,
  take-append_len (le_bytes w v) (write_words w vs ++ rest) (length-le_bytes w v),
  drop-append_len (le_bytes w v) (write_words w vs ++ rest) (length-le_bytes w v),
  le_value-le_bytes w v hv,
  read_words-write_words w vs rest hvs,
)

pub length-read_words : (w count : ℕ) (bs : List ℕ) → length (read_words w count bs) ≡ count
unfolding read_words
length-read_words w zero bs = refl
length-read_words w (suc count) bs = ap suc (length-read_words w count (drop w bs))

length_front : (w : ℕ) (bs : List ℕ) → w ≤ length bs → length (take w bs) ≡ w
length_front w bs h = omega (arith, length-take w bs)

front_bytes :
    (w : ℕ) (bs : List ℕ)
    → All IsByte bs
    → w ≤ length bs
    → le_bytes w (le_value (take w bs)) ≡ take w bs
front_bytes w bs h len =
    subst (λ n. le_bytes n (le_value (take w bs)) ≡ take w bs) (length_front w bs len)
      (le_bytes-le_value (take w bs) (All-take IsByte w bs h))

pub read_words-Fits :
    (w count : ℕ) (bs : List ℕ)
    → All IsByte bs
    → w * count ≤ length bs
    → All (Fits w) (read_words w count bs)
unfolding read_words
read_words-Fits w zero bs h len = tt
read_words-Fits w (suc count) bs h len = (
  subst (λ n. Fits n (le_value (take w bs))) (length_front w bs (omega arith))
      (le_value-Fits (take w bs) (All-take IsByte w bs h)),
  read_words-Fits w count (drop w bs) (All-drop IsByte w bs h) (omega (arith, length-drop w bs)),
)

pub write_words-read_words :
    (w count : ℕ) (bs : List ℕ)
    → All IsByte bs
    → w * count ≤ length bs
    → write_words w (read_words w count bs) ≡ take (w * count) bs
unfolding write_words read_words
write_words-read_words w zero bs h len = rw mul-zero (unfold take in refl)
write_words-read_words w (suc count) bs h len = rw (
  mul-suc,
  add_comm (w * count) w,
  take-add w (w * count) bs,
  write_words-read_words w count (drop w bs) (All-drop IsByte w bs h)
      (omega (arith, length-drop w bs)),
  front_bytes w bs h (omega arith),
)
