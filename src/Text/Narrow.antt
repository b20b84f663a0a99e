-- ===== src/Text/Narrow.antt =====
-- `[]uint16` built from an int32 buffer, as `int32ToString` of both Event.go files does, and when
-- the text that comes back is the one that was stored.
use open_anti_cheat.Common.{
  ℕ, ◌%◌, ◌^◌, ◌≤◌, ◌<◌, ◌≡◌, refl, inl, inr, List, [], ◌∷◌, ◌++◌, arith, ◌==◌, if◌then◌else◌,
  length, map, All, ◌&&◌, Bool, true, false, Bool-cases,
}
use open_anti_cheat.Text.Utf16.{
  NonZero, IsBmp, is_high, is_low, is_surrogate, decode_with, decode_utf16, pair_rune, IsUnit,
}
use open_anti_cheat.Text.Utf8.{IsScalar, replacement}

-- The loop stops at the first zero of the buffer, and cuts each value to 16 bits.
unfoldable pub narrowed : List ℕ → List ℕ
narrowed [] = []
narrowed (v ∷ vs) = if v == 0 then [] else (v % 2 ^ 16) ∷ narrowed vs

pub narrowed-append :
    (vs zs : List ℕ) → All NonZero vs → narrowed (vs ++ 0 ∷ zs) ≡ map (λ v. v % 2 ^ 16) vs
unfolding narrowed
narrowed-append [] zs h = refl
narrowed-append (v ∷ vs) zs (hv, hvs) = ground (arith, narrowed-append vs zs hvs)

pub map_narrow-bmp : (vs : List ℕ) → All IsBmp vs → map (λ v. v % 2 ^ 16) vs ≡ vs
map_narrow-bmp [] h = refl
map_narrow-bmp (v ∷ vs) (hv, hvs) = ground (arith, map_narrow-bmp vs hvs)

pub map_narrow-IsUnit : (vs : List ℕ) → All IsUnit (map (λ v. v % 2 ^ 16) vs)
map_narrow-IsUnit [] = tt
map_narrow-IsUnit (v ∷ vs) = (omega arith, map_narrow-IsUnit vs)

pair_rune-IsScalar : (u v : ℕ) → (is_high u && is_low v) ≡ true → IsScalar (pair_rune u v)
pair_rune-IsScalar u v h = ground arith

-- Of two lists under a test, the first is too short to have the length that the result has.
longer :
    (b : Bool) (xs ys : List ℕ) (n : ℕ)
    → length xs < n
    → (length ys ≡ n → All IsUnit ys)
    → length (if b then xs else ys) ≡ n
    → All IsUnit (if b then xs else ys)
longer true xs ys n h k e = absurd (omega arith)
longer false xs ys n h k e = k e

module _ (lone : ℕ → ℕ) (small : (u : ℕ) → IsUnit u → IsUnit (lone u)) where
  length-decode_with-le : (us : List ℕ) → length (decode_with lone us) ≤ length us
  unfolding decode_with
  length-decode_with-le [] = omega arith
  length-decode_with-le (u ∷ []) = omega arith
  length-decode_with-le (u ∷ v ∷ us) =
      ground (arith, length-decode_with-le us, length-decode_with-le (v ∷ us))

  lone-IsUnit : (u : ℕ) → IsUnit u → IsUnit (if is_surrogate u then lone u else u)
  lone-IsUnit u hu = ground (arith, small u)

  -- A decoding as long as its units has joined none, so that no rune is above 16 bits.
  pub decode_with-IsUnit :
      (us : List ℕ)
      → All IsUnit us
      → length (decode_with lone us) ≡ length us
      → All IsUnit (decode_with lone us)
  unfolding decode_with
  decode_with-IsUnit [] h e = tt
  decode_with-IsUnit (u ∷ []) h e = ground (arith, small u)
  decode_with-IsUnit (u ∷ v ∷ us) (hu, hus) e =
      longer (is_high u && is_low v) _ _ _ (omega (arith, length-decode_with-le us))
        (λ e'. (lone-IsUnit u hu, decode_with-IsUnit (v ∷ us) hus (omega arith))) e

decode_single-IsScalar : (u : ℕ) → IsUnit u → IsScalar (if is_surrogate u then replacement else u)
decode_single-IsScalar u hu = ground arith

-- `utf16.Decode` yields scalar values only.
pub decode_utf16-IsScalar : (us : List ℕ) → All IsUnit us → All IsScalar (decode_utf16 us)
unfolding decode_with
decode_utf16-IsScalar [] h = tt
decode_utf16-IsScalar (u ∷ []) h = (decode_single-IsScalar u h.0, tt)
decode_utf16-IsScalar (u ∷ v ∷ us) (hu, hus) = elim (Bool-cases (is_high u && is_low v)) [
  | inl joined ↦ rw joined (pair_rune-IsScalar u v joined, decode_utf16-IsScalar us hus.1)
  | inr alone ↦ rw alone (decode_single-IsScalar u hu, decode_utf16-IsScalar (v ∷ us) hus)
]
