-- ===== src/Driver/Strings/Stored.antt =====
-- The arrays that the driver has copied a text into keep their lengths and their element types.
use open_anti_cheat.Common.{
  ℕ, suc, ◌+◌, ◌-◌, ◌/◌, ◌≤◌, ◌≡◌, refl, List, [], ◌∷◌, ◌++◌, length, length-append, length-take,
  length-drop, take, drop, All, All-append, All-take, All-drop, arith,
}
use open_anti_cheat.Memory.Words.{Fits}
use open_anti_cheat.Text.Utf16.{IsUnit, until_nul}
use open_anti_cheat.Driver.Strings.{wcsncpy_s, as_units, as_ints, wcsncpy_s_ints}
use open_anti_cheat.Driver.Strings.Shown.{until_nul-IsUnit, length-as_units}

pub length-wcsncpy_s : (dst src : List ℕ) → 1 ≤ length dst → length (wcsncpy_s dst src) ≡ length dst
unfolding wcsncpy_s
length-wcsncpy_s dst src h = omega (
  arith,
  length-append kept (0 ∷ drop (suc (length kept)) dst),
  length-take (length dst - 1) (until_nul src),
  length-drop (suc (length kept)) dst,
)
  where
    kept : List ℕ
    kept = take (length dst - 1) (until_nul src)

pub wcsncpy_s-IsUnit :
    (dst src : List ℕ) → All IsUnit dst → All IsUnit src → All IsUnit (wcsncpy_s dst src)
unfolding wcsncpy_s
wcsncpy_s-IsUnit dst src hd hs =
    All-append IsUnit _ _ (All-take IsUnit _ _ (until_nul-IsUnit src hs))
      (omega arith, All-drop IsUnit _ _ hd)

as_units-IsUnit : (vs : List ℕ) → All (Fits 4) vs → All IsUnit (as_units vs)
unfolding as_units
as_units-IsUnit [] h = tt
as_units-IsUnit (v ∷ vs) (hv, h) = (omega arith, (omega arith, as_units-IsUnit vs h))

as_ints-Fits : (us : List ℕ) → All IsUnit us → All (Fits 4) (as_ints us)
unfolding as_ints
as_ints-Fits [] h = tt
as_ints-Fits (u ∷ []) h = (omega arith, tt)
as_ints-Fits (u ∷ v ∷ us) (hu, (hv, h)) = (omega arith, as_ints-Fits us h)

length-as_ints : (us : List ℕ) → length (as_ints us) ≡ (length us + 1) / 2
unfolding as_ints
length-as_ints [] = refl
length-as_ints (u ∷ []) = refl
length-as_ints (u ∷ v ∷ us) = omega (arith, length-as_ints us)

module _ (dst src : List ℕ) (n : ℕ) where
  pub wcsncpy_s_ints-Fits :
      All (Fits 4) dst → All IsUnit src → All (Fits 4) (wcsncpy_s_ints dst n src)
  unfolding wcsncpy_s_ints
  wcsncpy_s_ints-Fits hd hs = as_ints-Fits _ (
      All-append IsUnit _ _
        (wcsncpy_s-IsUnit _ src (All-take IsUnit n _ (as_units-IsUnit dst hd)) hs)
        (All-drop IsUnit n _ (as_units-IsUnit dst hd)))

  pub length-wcsncpy_s_ints :
      1 ≤ n → n ≤ length dst → length (wcsncpy_s_ints dst n src) ≡ length dst
  unfolding wcsncpy_s_ints
  length-wcsncpy_s_ints pos le = omega (
    arith,
    length-as_ints (wcsncpy_s (take n (as_units dst)) src ++ drop n (as_units dst)),
    length-append (wcsncpy_s (take n (as_units dst)) src) (drop n (as_units dst)),
    length-wcsncpy_s (take n (as_units dst)) src
        (omega (arith, length-take n (as_units dst), length-as_units dst)),
    length-take n (as_units dst),
    length-drop n (as_units dst),
    length-as_units dst,
  )
