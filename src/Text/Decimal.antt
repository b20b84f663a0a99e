-- ===== src/Text/Decimal.antt =====
-- Decimal numbers: Go's printing of an unsigned integer, and the digits at the front of a text.
use open_anti_cheat.Common.{
  ℕ, zero, suc, ◌+◌, ◌-◌, ◌*◌, ◌/◌, ◌%◌, ◌≡◌, ◌<◌, ◌≤◌, sym, subst, All, All-append, ap, ◌∙◌, Bool,
  true, inl, ◌&&◌, List, [], ◌∷◌, ◌++◌, append_assoc, dec_lt, ltb, leb, if◌then◌else◌, arith,
}
use open_anti_cheat.Text.Utf8.{IsScalar}

abbrev pub is_digit : ℕ → Bool
is_digit b = leb 48 b && leb b 57

-- The digits of a number, most significant first; a number is more fuel than it has digits.
unfoldable pub decimal_with : ℕ → ℕ → List ℕ
decimal_with zero n = []
decimal_with (suc fuel) n =
    let front = decimal_with fuel (n / 10) in
    if ltb n 10 then (48 + n) ∷ [] else front ++ (48 + n % 10) ∷ []

unfoldable pub decimal : ℕ → List ℕ
unfolding decimal_with
decimal n = decimal_with (suc n) n

-- The number that the digits at the front add to `acc`, and what follows them.
unfoldable pub scan_digits : ℕ → List ℕ → ℕ × List ℕ
scan_digits acc [] = (acc, [])
scan_digits acc (b ∷ bs) =
    let rest = scan_digits (acc * 10 + (b - 48)) bs in if is_digit b then rest else (acc, b ∷ bs)

pub is_digit-digit : (d : ℕ) → d < 10 → is_digit (48 + d) ≡ true
is_digit-digit d h = ground arith

scan_digit :
    (acc d : ℕ) (bs : List ℕ)
    → d < 10
    → scan_digits acc ((48 + d) ∷ bs) ≡ scan_digits (acc * 10 + d) bs
unfolding scan_digits
scan_digit acc d bs h = rw (is_digit-digit d h) (ap (λ a. scan_digits a bs) (omega arith))

decimal_with-one : (fuel n : ℕ) → n < 10 → decimal_with (suc fuel) n ≡ (48 + n) ∷ []
unfolding decimal_with
decimal_with-one fuel n h = ground arith

decimal_with-more :
    (fuel n : ℕ)
    → 10 ≤ n
    → decimal_with (suc fuel) n ≡ decimal_with fuel (n / 10) ++ (48 + n % 10) ∷ []
unfolding decimal_with
decimal_with-more fuel n h = ground arith

scan_digits-decimal_with :
    (fuel n : ℕ) (rest : List ℕ)
    → n < fuel
    → scan_digits 0 (decimal_with fuel n ++ rest) ≡ scan_digits n rest
scan_digits-decimal_with zero n rest h = absurd (omega arith)
scan_digits-decimal_with (suc fuel) n rest h = elim (dec_lt n 10) [
  | yes l ↦
      ap (λ ds. scan_digits 0 (ds ++ rest)) (decimal_with-one fuel n l)
      ∙ (scan_digit 0 n rest l ∙ ap (λ a. scan_digits a rest) (omega arith))
  | no m ↦
      ap (λ ds. scan_digits 0 (ds ++ rest)) (decimal_with-more fuel n (omega (arith, m)))
      ∙ (ap (scan_digits 0) (append_assoc (decimal_with fuel (n / 10)) ((48 + n % 10) ∷ []) rest)
          ∙ (scan_digits-decimal_with fuel (n / 10) ((48 + n % 10) ∷ rest) (omega (arith, m))
              ∙ (scan_digit (n / 10) (n % 10) rest (omega arith)
                  ∙ ap (λ a. scan_digits a rest) (omega arith))))
]

-- Scanning a printed number gives the number, and goes on behind it.
pub scan_digits-decimal :
    (n : ℕ) (rest : List ℕ) → scan_digits 0 (decimal n ++ rest) ≡ scan_digits n rest
unfolding decimal
scan_digits-decimal n rest = scan_digits-decimal_with (suc n) n rest (omega arith)

-- A text that starts with a digit.
abbrev pub Front : List ℕ → Type 0
Front bs = (d : ℕ) × (ds : List ℕ) × (d < 10) × (bs ≡ (48 + d) ∷ ds)

Front-append : (xs ys : List ℕ) → Front xs → Front (xs ++ ys)
Front-append xs ys (d, ds, l, e) = (d, ds ++ ys, l, ap (λ zs. zs ++ ys) e)

decimal_with-Front : (fuel n : ℕ) → n < fuel → Front (decimal_with fuel n)
decimal_with-Front zero n h = absurd (omega arith)
decimal_with-Front (suc fuel) n h = elim (dec_lt n 10) [
  | yes l ↦ (n, [], l, decimal_with-one fuel n l)
  | no m ↦
      let more =
        Front-append _ ((48 + n % 10) ∷ []) (decimal_with-Front fuel (n / 10) (omega (arith, m))) in
      (more.0, more.1, more.2, decimal_with-more fuel n (omega (arith, m)) ∙ more.3)
]

pub decimal-Front : (n : ℕ) → Front (decimal n)
unfolding decimal
decimal-Front n = decimal_with-Front (suc n) n (omega arith)

decimal_with-IsScalar : (fuel n : ℕ) → n < fuel → All IsScalar (decimal_with fuel n)
decimal_with-IsScalar zero n h = absurd (omega arith)
decimal_with-IsScalar (suc fuel) n h = elim (dec_lt n 10) [
  | yes l ↦ subst (All IsScalar) (sym (decimal_with-one fuel n l)) (inl (omega arith), tt)
  | no m ↦ subst (All IsScalar) (sym (decimal_with-more fuel n (omega (arith, m)))) (
      All-append IsScalar _ _ (decimal_with-IsScalar fuel (n / 10) (omega (arith, m)))
        (inl (omega arith), tt))
]

pub decimal-IsScalar : (n : ℕ) → All IsScalar (decimal n)
unfolding decimal
decimal-IsScalar n = decimal_with-IsScalar (suc n) n (omega arith)
