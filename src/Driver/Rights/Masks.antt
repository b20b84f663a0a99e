-- ===== src/Driver/Rights/Masks.antt =====
-- `DesiredAccess &= MINIMAL_ALLOW` of MedusaKernelDriver/Callback.c, bit by bit.
use Prim.Native.Nat.{bit_and, digits, bit_and-bitwise}
use open_anti_cheat.Common.{
  ℕ, zero, suc, ◌+◌, ◌*◌, ◌/◌, ◌%◌, ◌^◌, ◌≤◌, ◌<◌, ◌≡◌, refl, sym, ap, ◌∙◌, min, Bool, true, false,
  List, [], ◌∷◌, ◌++◌, replicate, arith,
}
use open_anti_cheat.Driver.Callback.{minimal_allow}

-- A mask by its bits, the lowest first, its number, and what it picks of a number.
abbrev bit : Bool → ℕ
bit true = 1
bit false = 0

abbrev number_of : List Bool → ℕ
number_of [] = 0
number_of (b ∷ bs) = bit b + 2 * number_of bs

abbrev picked : List Bool → ℕ → ℕ
picked [] a = 0
picked (true ∷ bs) a = a % 2 + 2 * picked bs (a / 2)
picked (false ∷ bs) a = 2 * picked bs (a / 2)

picked-zero : (bs : List Bool) → picked bs 0 ≡ 0
picked-zero [] = refl
picked-zero (true ∷ bs) = omega (arith, picked-zero bs)
picked-zero (false ∷ bs) = omega (arith, picked-zero bs)

abbrev conjunction : ℕ → ℕ → ℕ → ℕ
conjunction = digits (λ b. 0) min

conjunction-none : (n a : ℕ) → conjunction n a 0 ≡ 0
conjunction-none zero a = refl
conjunction-none (suc n) zero = refl
conjunction-none (suc n) (suc a) = omega (arith, conjunction-none n (suc a / 2))

behind : (b m : ℕ) → b < 2 → (b + 2 * m) / 2 ≡ m
behind b m small = omega arith

-- However many digits are looked at, if they are all that there are.
conjunction_lem : (bs : List Bool) (n a : ℕ) → a ≤ n → conjunction n a (number_of bs) ≡ picked bs a
conjunction_lem [] n a le = conjunction-none n a
conjunction_lem (b ∷ bs) zero zero le = sym (picked-zero (b ∷ bs))
conjunction_lem (b ∷ bs) zero (suc a) le = absurd (omega arith)
conjunction_lem (b ∷ bs) (suc n) zero le = sym (picked-zero (b ∷ bs))
conjunction_lem (true ∷ bs) (suc n) (suc a) le = omega (
  arith,
  ap (conjunction n (suc a / 2)) (behind 1 (number_of bs) (omega arith)),
  conjunction_lem bs n (suc a / 2) (omega arith),
)
conjunction_lem (false ∷ bs) (suc n) (suc a) le = omega (
  arith,
  ap (conjunction n (suc a / 2)) (behind 0 (number_of bs) (omega arith)),
  conjunction_lem bs n (suc a / 2) (omega arith),
)

-- The rights to wait for a process and to ask for a little of it, as far as they were asked for.
abbrev pub allowed : ℕ → ℕ
allowed access = access / 2 ^ 20 % 2 * 2 ^ 20 + access / 2 ^ 12 % 2 * 2 ^ 12

-- Bits 12 and 20.
abbrev minimal_bits : List Bool
minimal_bits = replicate 12 false ++ true ∷ replicate 7 false ++ true ∷ []

pub bit_and-minimal_allow : (a : ℕ) → bit_and a minimal_allow ≡ allowed a
unfolding replicate
bit_and-minimal_allow a =
    bit_and-bitwise a minimal_allow ∙ (conjunction_lem minimal_bits a a (omega arith) ∙ omega arith)
