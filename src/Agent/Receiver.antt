-- ===== src/Agent/Receiver.antt =====
-- The driver's side of the agent: `Receiver` of MedusaUserlandAgent/structs.go and its Loop in
-- main.go, which reads messages from the driver's communication port.
pub mod Messages
pub mod Port
use open_anti_cheat.Common.{
  ℕ, ◌+◌, ◌*◌, ◌/◌, ◌%◌, ◌^◌, List, [], ◌∷◌, ◌++◌, length, take, drop, get_or, ◌==◌, if◌then◌else◌,
}
use open_anti_cheat.Memory.Words.{Fits}
use open_anti_cheat.Memory.Layout.{Slot, scalar, layout, encode, decode}
use open_anti_cheat.Event.{AcEvent, event_size, event_of_bytes}

-- `filterMessageHeader`
pub record FilterMessageHeader : Type 0 where
  pub reply_length : ℕ
  pub message_id : ℕ

abbrev pub header_slots : List Slot
header_slots = layout (scalar 4 ∷ scalar 8 ∷ [])

-- `unsafe.Sizeof(filterMessageHeader{})`
abbrev pub header_size : ℕ
header_size = 16

-- The copy of `buf[:hdrSz]` over a header.
unfoldable pub header_of_bytes : List ℕ → FilterMessageHeader
header_of_bytes bs =
    let rows = decode header_slots bs in
    record {
      reply_length = get_or (get_or rows 1 []) 0 0;
      message_id = get_or (get_or rows 3 []) 0 0;
    }

-- What one call of FilterGetMessage answers, and what it wrote to the front of the buffer.
pub record Reply : Type 0 where
  pub ret : ℕ
  pub bytes : List ℕ

abbrev pub s_ok : ℕ
s_ok = 0

-- The two copies out of the buffer.
unfoldable pub parse : List ℕ → FilterMessageHeader × AcEvent
parse buf = (
  header_of_bytes (take header_size buf),
  event_of_bytes (take event_size (drop header_size buf)),
)

-- The events that `Loop` sends to EventChannel, by the answers of the port. One buffer serves all.
unfoldable pub loop : List Reply → List ℕ → List AcEvent
loop [] buf = []
loop (r ∷ rs) buf =
    let buf' = r.bytes ++ drop (length r.bytes) buf in
    let rest = loop rs buf' in if r.ret == s_ok then (parse buf').1 ∷ rest else rest
