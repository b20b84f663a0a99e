-- ===== src/Driver/Strings.antt =====
-- The copies of strings in MedusaKernelDriver/NotifyRoutine.c and Callback.c. `ImageFileName` of
-- ComsEvents.h is an array of int, and is given to `wcsncpy_s` as if it were one of wchar_t.
pub mod Shown
pub mod Stored
use open_anti_cheat.Common.{
  ℕ, suc, ◌+◌, ◌-◌, ◌*◌, ◌/◌, ◌%◌, ◌^◌, List, [], ◌∷◌, ◌++◌, length, take, drop,
}
use open_anti_cheat.Text.Utf16.{until_nul}

-- `wcsncpy_s(dst, n, src, _TRUNCATE)` for a `dst` of `n` elements, and `wcscpy_s` for a text that
-- fits. What is behind the NUL stays.
unfoldable pub wcsncpy_s : List ℕ → List ℕ → List ℕ
wcsncpy_s dst src =
    let kept = take (length dst - 1) (until_nul src) in kept ++ 0 ∷ drop (suc (length kept)) dst

-- The memory of ints as wchar_ts, and back.
unfoldable pub as_units : List ℕ → List ℕ
as_units [] = []
as_units (v ∷ vs) = (v % 2 ^ 16) ∷ (v / 2 ^ 16) ∷ as_units vs

unfoldable pub as_ints : List ℕ → List ℕ
as_ints [] = []
as_ints (lo ∷ []) = lo ∷ []
as_ints (lo ∷ hi ∷ us) = (lo + hi * 2 ^ 16) ∷ as_ints us

-- `wcsncpy_s(dst, n, src, _TRUNCATE)` for an array of ints.
unfoldable pub wcsncpy_s_ints : List ℕ → ℕ → List ℕ → List ℕ
unfolding wcsncpy_s as_units as_ints
wcsncpy_s_ints dst n src = let us = as_units dst in as_ints (wcsncpy_s (take n us) src ++ drop n us)
