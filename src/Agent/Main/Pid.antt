-- ===== src/Agent/Main/Pid.antt =====
-- `fmt.Sscanf(os.Args[1], "%d", &pid)` of MedusaUserlandAgent/main.go, as the fmt package reads an
-- int.
use open_anti_cheat.Common.{
  ℕ, ◌+◌, ◌-◌, ◌%◌, ◌^◌, ◌≡◌, ◌<◌, refl, sym, ap, ◌∙◌, Bool, true, false, ◌&&◌, ◌||◌, ◌==◌, leb,
  ltb, if◌then◌else◌, Option, none, some, List, [], ◌∷◌, append-nil, arith,
}
use open_anti_cheat.Text.Utf8.{encode_utf8, runes, runes-encode_utf8}
use open_anti_cheat.Text.Decimal.{
  is_digit, is_digit-digit, Front, decimal-Front, decimal-IsScalar, scan_digits, decimal,
  scan_digits-decimal,
}

abbrev pub is_space : ℕ → Bool
is_space r =
    (leb 9 r && leb r 13)
    || (r == 32)
    || (r == 0x85)
    || (r == 0xA0)
    || (r == 0x1680)
    || (leb 0x2000 r && leb r 0x200A)
    || (leb 0x2028 r && leb r 0x2029)
    || (r == 0x202F)
    || (r == 0x205F)
    || (r == 0x3000)

-- `SkipSpace`: a newline is an error, with or without a carriage return before it.
unfoldable pub skip_space : List ℕ → Option (List ℕ)
skip_space [] = some []
skip_space (r ∷ rs) =
    let rest = skip_space rs in if r == 10 then none else if is_space r then rest else some (r ∷ rs)

-- The sign of the number, and what follows it.
unfoldable pub scan_sign : List ℕ → Bool × List ℕ
scan_sign [] = (false, [])
scan_sign (r ∷ rs) =
    if r == b'-' then (true, rs) else if r == b'+' then (false, rs) else (false, r ∷ rs)

-- The bit pattern of a 64-bit int, if the number is one.
abbrev pub to_int : Bool → ℕ → Option ℕ
to_int true n = if leb n (2 ^ 63) then some ((2 ^ 64 - n) % 2 ^ 64) else none
to_int false n = if ltb n (2 ^ 63) then some n else none

-- The digits: one at least.
unfoldable pub scan_number : Bool → List ℕ → Option ℕ
scan_number negative [] = none
scan_number negative (r ∷ rs) =
    if is_digit r then to_int negative (scan_digits 0 (r ∷ rs)).0 else none

-- What follows the spaces, if there was no newline.
unfoldable pub after_space : Option (List ℕ) → Option ℕ
unfolding scan_sign scan_number
after_space none = none
after_space (some rs) = scan_number (scan_sign rs).0 (scan_sign rs).1

unfoldable pub scan_int : List ℕ → Option ℕ
unfolding skip_space after_space
scan_int rs = after_space (skip_space rs)

unfoldable pub sscanf_d : List ℕ → Option ℕ
unfolding scan_int
sscanf_d arg = scan_int (runes arg)

is_space-digit : (d : ℕ) → d < 10 → is_space (48 + d) ≡ false
is_space-digit d h = ground arith

skip_space-digit :
    (d : ℕ) (ds : List ℕ) → d < 10 → skip_space ((48 + d) ∷ ds) ≡ some ((48 + d) ∷ ds)
unfolding skip_space
skip_space-digit d ds h = ground (arith, is_space-digit d h)

scan_sign-digit :
    (d : ℕ) (ds : List ℕ) → d < 10 → scan_sign ((48 + d) ∷ ds) ≡ (false, (48 + d) ∷ ds)
unfolding scan_sign
scan_sign-digit d ds h = ground arith

scan_number-digit :
    (d : ℕ) (ds : List ℕ)
    → d < 10
    → scan_number false ((48 + d) ∷ ds) ≡ to_int false (scan_digits 0 ((48 + d) ∷ ds)).0
unfolding scan_number
scan_number-digit d ds h = rw (is_digit-digit d h)

-- A text that starts with a digit.
scan_int-digit :
    (d : ℕ) (ds : List ℕ)
    → d < 10
    → scan_int ((48 + d) ∷ ds) ≡ to_int false (scan_digits 0 ((48 + d) ∷ ds)).0
unfolding scan_int after_space
scan_int-digit d ds h =
    ap after_space (skip_space-digit d ds h)
    ∙ (ap (λ s. scan_number s.0 s.1) (scan_sign-digit d ds h) ∙ scan_number-digit d ds h)

scan_digits-end : (n : ℕ) → scan_digits n [] ≡ (n, [])
unfolding scan_digits
scan_digits-end n = refl

digits_lem : (n : ℕ) → scan_digits 0 (decimal n) ≡ (n, [])
digits_lem n =
    ap (scan_digits 0) (sym (append-nil (decimal n)))
    ∙ (scan_digits-decimal n [] ∙ scan_digits-end n)

to_int-small : (n : ℕ) → n < 2 ^ 63 → to_int false n ≡ some n
to_int-small n h = ground arith

-- An int that is printed in decimal is what `Sscanf` reads.
pub sscanf_d-decimal : (n : ℕ) → n < 2 ^ 63 → sscanf_d (encode_utf8 (decimal n)) ≡ some n
unfolding sscanf_d
sscanf_d-decimal n h =
    ap scan_int (runes-encode_utf8 (decimal n) (decimal-IsScalar n))
    ∙ (front (decimal-Front n) ∙ (ap (λ r. to_int false r.0) (digits_lem n) ∙ to_int-small n h))
  where
    front : Front (decimal n) → scan_int (decimal n) ≡ to_int false (scan_digits 0 (decimal n)).0
    front (d, ds, l, e) =
        ap scan_int e ∙ (scan_int-digit d ds l ∙ ap (λ r. to_int false (scan_digits 0 r).0) (sym e))
