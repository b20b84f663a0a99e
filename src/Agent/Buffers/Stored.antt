-- ===== src/Agent/Buffers/Stored.antt =====
-- What `StringZInto` leaves in the buffer.
use open_anti_cheat.Common.{
  ℕ, zero, suc, ◌+◌, ◌-◌, ◌%◌, ◌^◌, ◌<◌, ◌≡◌, refl, ap, ◌∙◌, List, [], ◌∷◌, ◌++◌, arith, false,
  length, leb, if◌then◌else◌, set, take, replicate, length-append, length-replicate, length-take,
  All, All-map, All-take, append_assoc, length-map, take-all,
}
use native.Mathlib.Nat.{zero-add, suc-add, sub-zero, suc-sub-suc, mod-eq_of_lt}
use open_anti_cheat.Text.Utf8.{runes, IsScalar, runes-IsScalar}
use open_anti_cheat.Text.Utf16.{encode_utf16, encode_utf16-IsUnit}
use open_anti_cheat.Agent.Buffers.{
  RuneLike, int32, uint16, store_runes, store_units, cut_units, zeroed, store, string_z_into,
}

zeroed-replicate : (dst : List ℕ) → zeroed dst ≡ replicate (length dst) 0
unfolding zeroed replicate
zeroed-replicate [] = refl
zeroed-replicate (d ∷ dst) = ap (◌∷◌ 0) (zeroed-replicate dst)

replicate-suc : (n : ℕ) → ◌≡◌ {A = List ℕ} (replicate (suc n) 0) (0 ∷ replicate n 0)
unfolding replicate
replicate-suc n = refl

take-nil : (n : ℕ) → ◌≡◌ {A = List ℕ} (take n []) []
unfolding take
take-nil zero = refl
take-nil (suc n) = refl

take-cons : (k r : ℕ) (rs : List ℕ) → take (suc k) (r ∷ rs) ≡ r ∷ take k rs
unfolding take
take-cons k r rs = refl

leb-suc : (k : ℕ) → leb (suc k) 0 ≡ false
leb-suc k = ground arith

set-front :
    (front : List ℕ) (x v : ℕ) (back : List ℕ)
    → set (front ++ x ∷ back) (length front) v ≡ front ++ v ∷ back
unfolding set
set-front [] x v back = refl
set-front (f ∷ front) x v back = ap (◌∷◌ f) (set-front front x v back)

abbrev Narrow : ℕ → ℕ → Type 0
Narrow k v = v < 2 ^ k

-- `vs` with zeros behind it, up to a length of `n`.
abbrev pub padded : ℕ → List ℕ → List ℕ
padded n vs = vs ++ replicate (n - length vs) 0

length-snoc : (front : List ℕ) (v : ℕ) → length (front ++ v ∷ []) ≡ length front + 1
length-snoc front v = omega (arith, length-append front (v ∷ []))

snoc : (front : List ℕ) (v : ℕ) (rest : List ℕ) → (front ++ v ∷ []) ++ rest ≡ front ++ v ∷ rest
snoc front v rest = append_assoc front (v ∷ []) rest

store_units_lem :
    (us front : List ℕ) (k : ℕ)
    → All (Narrow 16) us
    → store_units us (length front) (front ++ replicate (length us + k) 0)
      ≡ front ++ (us ++ replicate k 0)
unfolding store_units
store_units_lem [] front k h = rw zero-add
store_units_lem (u ∷ us) front k (hu, hus) = rw (
  suc-add,
  replicate-suc (length us + k),
  set-front front 0 (u % 2 ^ 16) (replicate (length us + k) 0),
  mod-eq_of_lt hu,
  ← snoc front u (replicate (length us + k) 0),
  ← length-snoc front u,
  store_units_lem us (front ++ u ∷ []) k hus,
  snoc front u (us ++ replicate k 0),
)

room :
    (front : List ℕ) (k : ℕ)
    → leb (length (front ++ replicate (suc k) 0) - 1) (length front) ≡ leb k 0
room front k =
    ground (arith, length-append front (replicate (suc k) 0), length-replicate {A = ℕ} (suc k) 0)

store_runes_lem :
    (rs front : List ℕ) (k : ℕ)
    → All (Narrow 32) rs
    → store_runes rs (length front) (front ++ replicate (suc k) 0)
      ≡ front ++ padded (suc k) (take k rs)
unfolding store_runes
store_runes_lem [] front k h = rw (take-nil, sub-zero)
store_runes_lem (r ∷ rs) front zero (hr, hrs) = rw (room front zero) (unfold take in refl)
store_runes_lem (r ∷ rs) front (suc k) (hr, hrs) = rw (
  room front (suc k),
  replicate-suc (suc k),
  set-front front 0 (r % 2 ^ 32) (replicate (suc k) 0),
  mod-eq_of_lt hr,
  ← snoc front r (replicate (suc k) 0),
  ← length-snoc front r,
  store_runes_lem rs (front ++ r ∷ []) k hrs,
  snoc front r (padded (suc k) (take k rs)),
  leb-suc k,
  take-cons k r rs,
  suc-sub-suc (suc k) (length (take k rs)),
)

scalar-Narrow : (r : ℕ) → IsScalar r → Narrow 32 r
scalar-Narrow r h = ground arith

runes-Narrow : (s : List ℕ) → All (Narrow 32) (runes s)
runes-Narrow s = All-map IsScalar (Narrow 32) scalar-Narrow (runes s) (runes-IsScalar s)

length-zeroed : (dst : List ℕ) → length (zeroed dst) ≡ length dst
unfolding zeroed
length-zeroed dst = length-map (λ _. 0) dst

cut_units_lem : (units dst : List ℕ) → cut_units units dst ≡ take (length dst - 1) units
unfolding cut_units
cut_units_lem units dst = ground (arith, take-all (length dst - 1) units)

-- The buffer of at least two elements, in the shape that the loops work on.
store_int32 :
    (n : ℕ) (s : List ℕ)
    → store_runes (runes s) 0 (replicate (suc n) 0) ≡ padded (suc n) (take n (runes s))
store_int32 n s = store_runes_lem (runes s) [] n (runes-Narrow s)

store_uint16 :
    (n : ℕ) (us : List ℕ)
    → All (Narrow 16) us
    → store_units (take n us) 0 (replicate (suc n) 0) ≡ padded (suc n) (take n us)
store_uint16 n us h =
    ap (λ (m : ℕ). store_units (take n us) 0 (replicate m 0)) fits
    ∙ store_units_lem (take n us) [] (suc n - length (take n us)) (All-take (Narrow 16) n us h)
  where
    fits : suc n ≡ length (take n us) + (suc n - length (take n us))
    fits = omega (arith, length-take n us)

blank_length : (n : ℕ) → length (replicate {A = ℕ} (suc n) 0) - 1 ≡ n
blank_length n = omega (arith, length-replicate {A = ℕ} (suc n) 0)

-- What the buffer is to hold: the runes of the string, or its code units.
abbrev pub elements : RuneLike → List ℕ → List ℕ
elements int32 s = runes s
elements uint16 s = encode_utf16 (runes s)

store-padded :
    (t : RuneLike) (n : ℕ) (s : List ℕ)
    → store t (replicate (suc n) 0) s ≡ padded (suc n) (take n (elements t s))
unfolding store
store-padded int32 n s = store_int32 n s
store-padded uint16 n s =
    rw (cut_units_lem (encode_utf16 (runes s)), blank_length n)
      (store_uint16 n (encode_utf16 (runes s)) (encode_utf16-IsUnit (runes s)))

filled : RuneLike → List ℕ → List ℕ → List ℕ
filled t blank s = if leb (length blank) 1 then blank else store t blank s

filled_lem :
    (t : RuneLike) (n : ℕ) (s : List ℕ)
    → filled t (replicate n 0) s ≡ padded n (take (n - 1) (elements t s))
unfolding filled
filled_lem t zero s = unfold replicate take in refl
filled_lem t (suc zero) s = unfold replicate take in refl
filled_lem t (suc (suc n)) s =
    ground (arith, length-replicate {A = ℕ} (suc (suc n)) 0, store-padded t (suc n) s)

-- The whole routine in one equation, for a buffer of any length and content.
pub string_z_into_lem :
    (t : RuneLike) (dst s : List ℕ)
    → string_z_into t dst s ≡ padded (length dst) (take (length dst - 1) (elements t s))
unfolding string_z_into filled
string_z_into_lem t dst s = rw (zeroed-replicate dst) (filled_lem t (length dst) s)
