-- ===== src/Agent/Buffers/Shape.antt =====
-- The shape of a filled buffer: its length, its elements' range, and the NUL at its end.
use open_anti_cheat.Common.{
  ℕ, zero, suc, ◌+◌, ◌-◌, ◌<◌, ◌≤◌, ◌≡◌, refl, List, [], ◌∷◌, ◌++◌, length, arith, take, replicate,
  get_or, length-append, length-take, length-replicate, All, All-append, All-take, All-map,
}
use open_anti_cheat.Memory.Words.{Fits}
use open_anti_cheat.Text.Utf8.{runes, IsScalar, runes-IsScalar}
use open_anti_cheat.Text.Utf16.{encode_utf16-IsUnit}
use open_anti_cheat.Agent.Buffers.{RuneLike, int32, uint16, string_z_into}
use open_anti_cheat.Agent.Buffers.Stored.{padded, elements, string_z_into_lem}

-- The bytes of an element.
abbrev pub element_width : RuneLike → ℕ
element_width int32 = 4
element_width uint16 = 2

-- A zero-terminated buffer of `n` elements.
pub record IsBuffer (t : RuneLike) (n : ℕ) (buf : List ℕ) : Type 0 where
  pub full : length buf ≡ n
  pub fits : All (Fits (element_width t)) buf
  pub ended : 0 < n → get_or buf (n - 1) 1 ≡ 0

zero-Fits : (t : RuneLike) → Fits (element_width t) 0
zero-Fits int32 = omega arith
zero-Fits uint16 = omega arith

replicate-Fits : (t : RuneLike) (n : ℕ) → All (Fits (element_width t)) (replicate n 0)
unfolding replicate
replicate-Fits t zero = tt
replicate-Fits t (suc n) = (zero-Fits t, replicate-Fits t n)

scalar-Fits : (r : ℕ) → IsScalar r → Fits 4 r
scalar-Fits r h = ground arith

elements-Fits : (t : RuneLike) (s : List ℕ) → All (Fits (element_width t)) (elements t s)
elements-Fits int32 s = All-map IsScalar (Fits 4) scalar-Fits (runes s) (runes-IsScalar s)
elements-Fits uint16 s = encode_utf16-IsUnit (runes s)

get_or-replicate : (k i : ℕ) → i < k → get_or (replicate {A = ℕ} k 0) i 1 ≡ 0
unfolding replicate
get_or-replicate zero i h = absurd (omega arith)
get_or-replicate (suc k) zero h = refl
get_or-replicate (suc k) (suc i) h = get_or-replicate k i (omega arith)

get_or-padding :
    (vs : List ℕ) (k i : ℕ)
    → length vs ≤ i
    → i < length vs + k
    → get_or (vs ++ replicate k 0) i 1 ≡ 0
get_or-padding [] k i lo hi = get_or-replicate k i (omega arith)
get_or-padding (v ∷ vs) k zero lo hi = absurd (omega arith)
get_or-padding (v ∷ vs) k (suc i) lo hi = get_or-padding vs k i (omega arith) (omega arith)

padded-IsBuffer :
    (t : RuneLike) (n : ℕ) (vs : List ℕ)
    → All (Fits (element_width t)) vs
    → length vs ≤ n - 1
    → IsBuffer t n (padded n vs)
padded-IsBuffer t n vs h len = record {
  full = omega (
    arith,
    length-append vs (replicate (n - length vs) 0),
    length-replicate {A = ℕ} (n - length vs) 0,
  );
  fits = All-append (Fits (element_width t)) vs _ h (replicate-Fits t (n - length vs));
  ended = λ pos. get_or-padding vs (n - length vs) (n - 1) len (omega arith);
}

-- Whatever the string and whatever the buffer held, `StringZInto` leaves a buffer of the same
-- length, whose elements are in range and whose last one is NUL.
pub string_z_into-IsBuffer :
    (t : RuneLike) (dst s : List ℕ) → IsBuffer t (length dst) (string_z_into t dst s)
string_z_into-IsBuffer t dst s = rw (string_z_into_lem t dst s) (
    padded-IsBuffer t (length dst) (take (length dst - 1) (elements t s))
      (All-take (Fits (element_width t)) _ (elements t s) (elements-Fits t s))
      (omega (arith, length-take (length dst - 1) (elements t s))))
