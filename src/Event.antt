-- ===== src/Event.antt =====
-- MedusaUserlandAgent/Event.go and MedusaBackend/Event.go: the event that the driver, the pipe, the
-- agent and the backend exchange, and its copies to bytes and back (`evToBytes`, and the `copy`
-- through `unsafe.Pointer` in Receiver.Loop, readLoop and handleWS).
pub mod Wire
pub mod Json
use open_anti_cheat.Common.{ℕ, zero, suc, ◌≡◌, List, [], ◌∷◌, length, get_or, All}
use open_anti_cheat.Memory.Words.{IsByte, Fits}
use open_anti_cheat.Memory.Layout.{Slot, scalar, array, layout, size_of, encode, decode, Shaped}

-- `EventSource`
abbrev pub km : ℕ
km = 0

abbrev pub um : ℕ
um = 1

abbrev pub dll : ℕ
dll = 2

-- Each number is the bit pattern of its Go type: an int32 or uint32 is below 2 ^ 32, a uint16 below
-- 2 ^ 16, a uintptr below 2 ^ 64. A fixed array is a list of its length.
pub record AcEvent : Type 0 where
  pub src : ℕ
  pub event_type : List ℕ
  pub caller_pid : ℕ
  pub target_pid : ℕ
  pub thread_id : ℕ
  pub image_file_name : List ℕ
  pub command_line : List ℕ
  pub is_create : ℕ
  pub image_base : ℕ
  pub image_size : ℕ

abbrev pub event_fields : List Slot
event_fields =
    scalar 4
    ∷ array 2 260
    ∷ scalar 4
    ∷ scalar 4
    ∷ scalar 4
    ∷ array 4 260
    ∷ array 2 1024
    ∷ scalar 4
    ∷ scalar 8
    ∷ scalar 4
    ∷ []

abbrev pub event_slots : List Slot
event_slots = layout event_fields

-- `unsafe.Sizeof(ACEvent{})`
abbrev pub event_size : ℕ
event_size = 3648

-- The bytes of a variable that belong to no field. Go leaves their values open.
pub record Padding : Type 0 where
  pub inner : List ℕ
  pub tail : List ℕ

pub rows_of_event : AcEvent → Padding → List (List ℕ)
rows_of_event e p =
    []
    ∷ (e.src ∷ [])
    ∷ []
    ∷ e.event_type
    ∷ []
    ∷ (e.caller_pid ∷ [])
    ∷ []
    ∷ (e.target_pid ∷ [])
    ∷ []
    ∷ (e.thread_id ∷ [])
    ∷ []
    ∷ e.image_file_name
    ∷ []
    ∷ e.command_line
    ∷ []
    ∷ (e.is_create ∷ [])
    ∷ p.inner
    ∷ (e.image_base ∷ [])
    ∷ []
    ∷ (e.image_size ∷ [])
    ∷ p.tail
    ∷ []

abbrev row : ℕ → List (List ℕ) → List ℕ
row i rows = get_or rows i []

abbrev first : List ℕ → ℕ
first vs = get_or vs 0 0

pub event_of_rows : List (List ℕ) → AcEvent
event_of_rows rows = record {
  src = first (row 1 rows);
  event_type = row 3 rows;
  caller_pid = first (row 5 rows);
  target_pid = first (row 7 rows);
  thread_id = first (row 9 rows);
  image_file_name = row 11 rows;
  command_line = row 13 rows;
  is_create = first (row 15 rows);
  image_base = first (row 17 rows);
  image_size = first (row 19 rows);
}

-- The padding bytes among those that were copied over a variable.
pub padding_of_bytes : List ℕ → Padding
padding_of_bytes bs =
    let rows = decode event_slots bs in record { inner = row 16 rows; tail = row 20 rows }

-- `evToBytes`: the memory of a variable that holds the event, with whatever its padding is.
pub ev_to_bytes : AcEvent → Padding → List ℕ
ev_to_bytes e p = encode event_slots (rows_of_event e p)

-- `copy((*[1 << 30]byte)(unsafe.Pointer(&ev))[:evtSz:evtSz], msg)` for a message of that size.
pub event_of_bytes : List ℕ → AcEvent
event_of_bytes bs = event_of_rows (decode event_slots bs)

-- The values that a Go variable of the type can hold.
pub record IsEvent (e : AcEvent) : Type 0 where
  pub src : Fits 4 e.src
  pub event_type : (length e.event_type ≡ 260) × All (Fits 2) e.event_type
  pub caller_pid : Fits 4 e.caller_pid
  pub target_pid : Fits 4 e.target_pid
  pub thread_id : Fits 4 e.thread_id
  pub image_file_name : (length e.image_file_name ≡ 260) × All (Fits 4) e.image_file_name
  pub command_line : (length e.command_line ≡ 1024) × All (Fits 2) e.command_line
  pub is_create : Fits 4 e.is_create
  pub image_base : Fits 8 e.image_base
  pub image_size : Fits 4 e.image_size

pub record IsPadding (p : Padding) : Type 0 where
  pub inner : (length p.inner ≡ 4) × All IsByte p.inner
  pub tail : (length p.tail ≡ 4) × All IsByte p.tail
