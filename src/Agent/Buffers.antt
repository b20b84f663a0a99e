-- ===== src/Agent/Buffers.antt =====
-- `StringZInto` of MedusaUserlandAgent/structs.go and its wrappers: a string is stored in a buffer
-- of fixed length that ends in NUL, as runes in an int32 buffer or as code units in a uint16 one.
pub mod Stored
pub mod Shape
use open_anti_cheat.Common.{
  ℕ, zero, suc, ◌+◌, ◌-◌, ◌%◌, ◌^◌, List, [], ◌∷◌, map, length, leb, ltb, if◌then◌else◌, set, take,
  replicate,
}
use open_anti_cheat.Text.Utf8.{runes}
use open_anti_cheat.Text.Utf16.{encode_utf16}

-- `RuneLike`: the element type of the buffer.
pub data RuneLike : Type 0 where
  int32 uint16 : RuneLike

-- The loop over the runes: it stops when the last element is all that is left.
unfoldable pub store_runes : List ℕ → ℕ → List ℕ → List ℕ
store_runes [] i dst = dst
store_runes (r ∷ rs) i dst =
    let next = store_runes rs (i + 1) (set dst i (r % 2 ^ 32)) in
    if leb (length dst - 1) i then dst else next

-- The loop over the code units that were kept.
unfoldable pub store_units : List ℕ → ℕ → List ℕ → List ℕ
store_units [] i dst = dst
store_units (u ∷ us) i dst = store_units us (i + 1) (set dst i (u % 2 ^ 16))

unfoldable pub cut_units : List ℕ → List ℕ → List ℕ
cut_units units dst =
    if ltb (length dst - 1) (length units) then take (length dst - 1) units else units

unfoldable pub zeroed : List ℕ → List ℕ
zeroed dst = map (λ _. 0) dst

store : RuneLike → List ℕ → List ℕ → List ℕ
store int32 dst s = store_runes (runes s) 0 dst
store uint16 dst s = store_units (cut_units (encode_utf16 (runes s)) dst) 0 dst

unfoldable pub string_z_into : RuneLike → List ℕ → List ℕ → List ℕ
unfolding store
string_z_into t dst s =
    let blank = zeroed dst in if leb (length blank) 1 then blank else store t blank s

unfoldable pub string_z_260_i32 : List ℕ → List ℕ
string_z_260_i32 s = string_z_into int32 (replicate 260 0) s

unfoldable pub string_z_260_u16 : List ℕ → List ℕ
string_z_260_u16 s = string_z_into uint16 (replicate 260 0) s

unfoldable pub string_z_1024_u16 : List ℕ → List ℕ
string_z_1024_u16 s = string_z_into uint16 (replicate 1024 0) s
