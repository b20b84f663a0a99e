-- ===== src/Backend/Stored.antt =====
-- A text that the agent stores in an event by `StringZInto`, as the backend's `ToJSON` shows it.
use open_anti_cheat.Common.{
  ℕ, suc, ◌-◌, ◌%◌, ◌^◌, ◌<◌, ◌≡◌, ◌≢◌, sym, ap, subst, ◌∙◌, List, ◌∷◌, ◌++◌, arith, length, take,
  length-map, length-take, map, All, All-map, All-take, replicate, take-all,
}
use open_anti_cheat.Text.Utf8.{IsScalar, replacement, encode_utf8, runes, runes-encode_utf8}
use open_anti_cheat.Text.Utf16.{
  NonZero, IsBmp, IsUnit, decode_utf16, encode_utf16, until_nul, until_nul-append,
  encode_utf16-NonZero, decode-encode_utf16, decode_bmp, IsBmp-IsScalar, IsBmp-NonZero,
  utf16_to_string_win, encode_wtf8-scalar, until_nul_id,
}
use open_anti_cheat.Text.Narrow.{
  narrowed, narrowed-append, map_narrow-bmp, map_narrow-IsUnit, decode_with-IsUnit,
  decode_utf16-IsScalar,
}
use open_anti_cheat.Agent.Buffers.{int32, uint16, string_z_into}
use open_anti_cheat.Agent.Buffers.Stored.{padded, string_z_into_lem}
use open_anti_cheat.Agent.Strings
use open_anti_cheat.Backend.Strings.{utf16_buf_to_string, utf16_to_string, int32_to_string}

-- The padding starts with a NUL, since one element at least is left over.
padded-cons :
    (n : ℕ) (vs : List ℕ)
    → 0 < n
    → padded n (take (n - 1) vs)
      ≡ take (n - 1) vs ++ 0 ∷ replicate (n - length (take (n - 1) vs) - 1) 0
unfolding replicate
padded-cons n vs h = ap (λ (m : ℕ). take (n - 1) vs ++ replicate m 0) left
  where
    left : n - length (take (n - 1) vs) ≡ suc (n - length (take (n - 1) vs) - 1)
    left = omega (arith, length-take (n - 1) vs)

module _ (dst rs : List ℕ) (room : 0 < length dst) (text : All IsScalar rs)
    (plain : All NonZero rs) where
  kept_units : List ℕ
  kept_units = take (length dst - 1) (encode_utf16 rs)

  stored_uint16 :
      until_nul (string_z_into uint16 dst (encode_utf8 rs))
      ≡ take (length dst - 1) (encode_utf16 rs)
  stored_uint16 =
      rw
        (
          string_z_into_lem uint16 dst (encode_utf8 rs),
          runes-encode_utf8 rs text,
          padded-cons (length dst) (encode_utf16 rs) room,
        )
        (until_nul-append _ _ (All-take NonZero _ _ (encode_utf16-NonZero rs plain)))

  pub utf16_to_string-string_z_into :
      utf16_to_string (string_z_into uint16 dst (encode_utf8 rs))
      ≡ utf16_buf_to_string (take (length dst - 1) (encode_utf16 rs))
  unfolding utf16_to_string
  utf16_to_string-string_z_into = ap utf16_buf_to_string stored_uint16

  -- A text of Unicode scalar values without NUL, stored by `StringZInto` in a uint16 buffer that
  -- has room for its code units and one more, is what `utf16ToString` of the backend and of the
  -- agent make of the buffer.
  pub utf16_round_trip :
      length (encode_utf16 rs) < length dst
      → (utf16_to_string (string_z_into uint16 dst (encode_utf8 rs)) ≡ encode_utf8 rs)
        × (Strings.utf16_to_string (string_z_into uint16 dst (encode_utf8 rs)) ≡ encode_utf8 rs)
  utf16_round_trip h = (
    rw (utf16_to_string-string_z_into, whole h)
        (unfold utf16_buf_to_string in ap encode_utf8 (decode-encode_utf16 _ rs text)),
    agent h,
  )
    where
      whole :
          length (encode_utf16 rs) < length dst
          → take (length dst - 1) (encode_utf16 rs) ≡ encode_utf16 rs
      whole h = take-all (length dst - 1) (encode_utf16 rs) (omega arith)

      agent :
          length (encode_utf16 rs) < length dst
          → Strings.utf16_to_string (string_z_into uint16 dst (encode_utf8 rs)) ≡ encode_utf8 rs
      agent h =
          unfold Strings.utf16_to_string utf16_to_string_win in
          rw
            (
              stored_uint16,
              whole h,
              until_nul_id (encode_utf16 rs) (encode_utf16-NonZero rs plain),
              decode-encode_utf16 (λ u. u) rs text,
            )
            (encode_wtf8-scalar rs text)

  stored_int32 :
      narrowed (string_z_into int32 dst (encode_utf8 rs))
      ≡ map (λ v. v % 2 ^ 16) (take (length dst - 1) rs)
  stored_int32 =
      rw
        (
          string_z_into_lem int32 dst (encode_utf8 rs),
          runes-encode_utf8 rs text,
          padded-cons (length dst) rs room,
        )
        (narrowed-append _ _ (All-take NonZero _ _ plain))

  -- A text of Unicode scalar values without NUL that fits in an int32 buffer but has a character
  -- above 16 bits is not what `int32ToString` of the backend makes of the buffer.
  pub int32_spoiled :
      length rs < length dst
      → ¬ All IsUnit rs
      → int32_to_string (string_z_into int32 dst (encode_utf8 rs)) ≢ encode_utf8 rs
  unfolding int32_to_string
  int32_spoiled h wide e = wide (
      subst (All IsUnit) same (
        decode_with-IsUnit _ small units (map_narrow-IsUnit rs)
          (ap length same ∙ sym (length-map _ rs))))
    where
      units : List ℕ
      units = map (λ v. v % 2 ^ 16) rs

      small : (u : ℕ) → IsUnit u → IsUnit replacement
      small u hu = omega arith

      stored_whole : narrowed (string_z_into int32 dst (encode_utf8 rs)) ≡ units
      stored_whole =
          stored_int32 ∙ ap (map (λ v. v % 2 ^ 16)) (take-all (length dst - 1) rs (omega arith))

      same : decode_utf16 units ≡ rs
      same =
          sym (runes-encode_utf8 _ (decode_utf16-IsScalar units (map_narrow-IsUnit rs)))
          ∙ ap runes (ap utf16_buf_to_string (sym stored_whole) ∙ e)
          ∙ runes-encode_utf8 rs text

-- A text whose characters all take one code unit and are not NUL, stored by `StringZInto` in an
-- int32 buffer, comes back from `int32ToString` of the backend cut to one character less than the
-- buffer is long.
pub int32_round_trip :
    (dst rs : List ℕ)
    → 0 < length dst
    → All IsBmp rs
    → int32_to_string (string_z_into int32 dst (encode_utf8 rs))
      ≡ encode_utf8 (take (length dst - 1) rs)
unfolding int32_to_string utf16_buf_to_string
int32_round_trip dst rs room h = rw (
  stored_int32 dst rs room (All-map IsBmp IsScalar IsBmp-IsScalar rs h)
      (All-map IsBmp NonZero IsBmp-NonZero rs h),
  map_narrow-bmp (take (length dst - 1) rs) (All-take IsBmp _ rs h),
  decode_bmp (λ u. replacement) (take (length dst - 1) rs) (All-take IsBmp _ rs h),
)
