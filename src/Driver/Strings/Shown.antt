-- ===== src/Driver/Strings/Shown.antt =====
-- What the conversions of MedusaBackend/Event.go make of the strings that the driver copies.
use open_anti_cheat.Common.{
  ℕ, ◌+◌, ◌-◌, ◌*◌, ◌/◌, ◌≤◌, ◌<◌, ◌≡◌, ◌≢◌, refl, sym, ap, ◌∙◌, List, [], ◌∷◌, ◌++◌, length, take,
  replicate, length-replicate, length-take, take-all, append_assoc, All, All-append, All-take,
  All-drop, All-replicate, All-map, arith,
}
use open_anti_cheat.Text.Utf8.{IsScalar, replacement, encode_utf8, runes, runes-encode_utf8}
use open_anti_cheat.Text.Utf16.{
  NonZero, IsBmp, IsUnit, until_nul, until_nul-NonZero, until_nul-append, until_nul_id, decode_bmp,
  IsBmp-IsScalar, IsBmp-NonZero,
}
use open_anti_cheat.Text.Narrow.{narrowed}
use open_anti_cheat.Backend.Strings.{utf16_buf_to_string, utf16_to_string, int32_to_string}
use open_anti_cheat.Driver.Strings.{wcsncpy_s, as_units, as_ints, wcsncpy_s_ints}

-- The first, the third and so on.
unfoldable pub every_other : List ℕ → List ℕ
every_other [] = []
every_other (u ∷ []) = u ∷ []
every_other (u ∷ v ∷ us) = u ∷ every_other us

abbrev IsZero : ℕ → Type 0
IsZero u = u ≡ 0

replicate-IsZero : (n : ℕ) → All IsZero (replicate n 0)
replicate-IsZero n = All-replicate IsZero n 0 refl

as_units-IsZero : (vs : List ℕ) → All IsZero vs → All IsZero (as_units vs)
unfolding as_units
as_units-IsZero [] h = tt
as_units-IsZero (v ∷ vs) (hv, hvs) = (omega arith, (omega arith, as_units-IsZero vs hvs))

pub length-as_units : (vs : List ℕ) → length (as_units vs) ≡ 2 * length vs
unfolding as_units
length-as_units [] = refl
length-as_units (v ∷ vs) = omega (arith, length-as_units vs)

as_ints-IsZero : (us : List ℕ) → All IsZero us → All IsZero (as_ints us)
unfolding as_ints
as_ints-IsZero [] h = tt
as_ints-IsZero (u ∷ []) h = h
as_ints-IsZero (u ∷ v ∷ us) (hu, (hv, hus)) = (omega arith, as_ints-IsZero us hus)

narrowed-IsZero : (vs : List ℕ) → All IsZero vs → narrowed vs ≡ []
unfolding narrowed
narrowed-IsZero [] h = refl
narrowed-IsZero (v ∷ vs) h = ground arith

pub until_nul-IsUnit : (us : List ℕ) → All IsUnit us → All IsUnit (until_nul us)
unfolding until_nul
until_nul-IsUnit [] h = tt
until_nul-IsUnit (u ∷ us) (hu, hus) = ground (arith, until_nul-IsUnit us hus)

-- Two units share an int, and the conversion keeps the lower one.
narrowed-as_ints :
    (us zs : List ℕ)
    → All NonZero us
    → All IsUnit us
    → All IsZero zs
    → narrowed (as_ints (us ++ 0 ∷ zs)) ≡ every_other us
unfolding as_ints every_other narrowed
narrowed-as_ints [] [] n h z = refl
narrowed-as_ints [] (z ∷ zs) n h hz =
    narrowed-IsZero (as_ints (0 ∷ z ∷ zs)) (as_ints-IsZero (0 ∷ z ∷ zs) (refl, hz))
narrowed-as_ints (u ∷ []) zs n h z =
    ground (arith, narrowed-IsZero (as_ints zs) (as_ints-IsZero zs z))
narrowed-as_ints (u ∷ v ∷ us) zs (hu, (hv, n)) (bu, (bv, h)) z =
    ground (arith, narrowed-as_ints us zs n h z)

module _ (n : ℕ) (src : List ℕ) (h : All IsUnit src) where
  abbrev kept : List ℕ
  kept = take (n - 1) (until_nul src)

  abbrev cells : List ℕ
  cells = take n (as_units (replicate n 0))

  cells-IsZero : All IsZero cells
  cells-IsZero = All-take IsZero n _ (as_units-IsZero _ (replicate-IsZero n))

  length-cells : length cells ≡ n
  length-cells = omega (
    arith,
    length-take n (as_units (replicate n 0)),
    length-as_units (replicate n 0),
    length-replicate {A = ℕ} n 0,
  )

  -- What the conversion finds in a cleared array of ints that the driver has copied a text into.
  narrowed-wcsncpy_s_ints : narrowed (wcsncpy_s_ints (replicate n 0) n src) ≡ every_other kept
  unfolding wcsncpy_s_ints wcsncpy_s
  narrowed-wcsncpy_s_ints =
      rw (length-cells, append_assoc)
        (narrowed-as_ints kept _ (All-take NonZero (n - 1) _ (until_nul-NonZero src))
          (All-take IsUnit (n - 1) _ (until_nul-IsUnit src h))
          (All-append IsZero _ _ (All-drop IsZero _ _ cells-IsZero)
            (All-drop IsZero n _ (as_units-IsZero _ (replicate-IsZero n)))))

  -- The texts of the wide arrays are shown whole, up to the room.
  until_nul-wcsncpy_s : until_nul (wcsncpy_s (replicate n 0) src) ≡ kept
  unfolding wcsncpy_s
  until_nul-wcsncpy_s =
      rw (length-replicate {A = ℕ} n 0)
        (until_nul-append kept _ (All-take NonZero (n - 1) _ (until_nul-NonZero src)))

  pub utf16_to_string-wcsncpy_s :
      utf16_to_string (wcsncpy_s (replicate n 0) src) ≡ utf16_buf_to_string kept
  unfolding utf16_to_string
  utf16_to_string-wcsncpy_s = ap utf16_buf_to_string until_nul-wcsncpy_s

  pub int32_to_string-wcsncpy_s_ints :
      int32_to_string (wcsncpy_s_ints (replicate n 0) n src)
      ≡ utf16_buf_to_string (every_other kept)
  unfolding int32_to_string
  int32_to_string-wcsncpy_s_ints = ap utf16_buf_to_string narrowed-wcsncpy_s_ints

every_other-Bmp : (us : List ℕ) → All IsBmp us → All IsBmp (every_other us)
unfolding every_other
every_other-Bmp [] h = tt
every_other-Bmp (u ∷ []) h = h
every_other-Bmp (u ∷ v ∷ us) (hu, (hv, h)) = (hu, every_other-Bmp us h)

length-every_other : (us : List ℕ) → length (every_other us) ≡ (length us + 1) / 2
unfolding every_other
length-every_other [] = refl
length-every_other (u ∷ []) = refl
length-every_other (u ∷ v ∷ us) = omega (arith, length-every_other us)

-- A name of two characters or more, of one code unit each, that the driver stores in
-- `ImageFileName` is not what `int32ToString` of the backend makes of it.
pub image_name_spoiled :
    (n : ℕ) (us : List ℕ)
    → All IsBmp us
    → 2 ≤ length us
    → length us < n
    → int32_to_string (wcsncpy_s_ints (replicate n 0) n us) ≢ encode_utf8 us
unfolding utf16_buf_to_string
image_name_spoiled n us h two fits e = absurd (omega (arith, ap length same, length-every_other us))
  where
    bmp_unit : (r : ℕ) → IsBmp r → IsUnit r
    bmp_unit r h = ground arith

    scalars : (vs : List ℕ) → All IsBmp vs → All IsScalar vs
    scalars vs hv = All-map IsBmp IsScalar IsBmp-IsScalar vs hv

    whole : take (n - 1) (until_nul us) ≡ us
    whole =
        rw (until_nul_id us (All-map IsBmp NonZero IsBmp-NonZero us h))
          (take-all (n - 1) us (omega arith))

    shown : int32_to_string (wcsncpy_s_ints (replicate n 0) n us) ≡ encode_utf8 (every_other us)
    shown =
        int32_to_string-wcsncpy_s_ints n us (All-map IsBmp IsUnit bmp_unit us h)
        ∙ ap (λ vs. utf16_buf_to_string (every_other vs)) whole
        ∙ ap encode_utf8 (decode_bmp (λ u. replacement) (every_other us) (every_other-Bmp us h))

    same : every_other us ≡ us
    same =
        sym (runes-encode_utf8 _ (scalars _ (every_other-Bmp us h)))
        ∙ ap runes (sym shown ∙ e)
        ∙ runes-encode_utf8 us (scalars us h)
