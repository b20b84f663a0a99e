-- ===== src/Agent/Pipe.antt =====
-- MedusaUserlandAgent/IPC.go: the named pipe on which the injected DLL sends events.
pub mod Delivery
pub mod Early
pub mod Server
pub mod RoundTrip
use open_anti_cheat.Common.{
  ℕ, zero, suc, ◌+◌, ◌*◌, ◌<◌, ◌≤◌, ◌≡◌, Option, none, some, List, [], ◌∷◌, ◌++◌, length, take,
  drop, ◌==◌, if◌then◌else◌,
}
use open_anti_cheat.Event.{AcEvent, event_size, event_of_bytes}

-- The errors that the loop tells apart.
pub data ReadError : Type 0 where
  broken_pipe pipe_not_connected more_data other_error : ReadError

-- What one `ReadFile` wrote to its buffer, and its error.
pub record ReadResult : Type 0 where
  pub bytes : List ℕ
  pub error : Option ReadError

-- `windows.ReadFile` on the server's end of a pipe, which `server` has opened with
-- FILE_FLAG_OVERLAPPED: its OVERLAPPED, `none` for nil, a handle that stands for what the pipe
-- holds, and the size of the buffer.
pub record ReadFile : Type 1 where
  pub Handle : Type 0
  pub read : Option ℕ → Handle → ℕ → ReadResult × Handle

-- A read overwrites the front of the buffer.
abbrev pub overwrite : List ℕ → List ℕ → List ℕ
overwrite bytes buf = bytes ++ drop (length bytes) buf

abbrev pub drain_size : ℕ
drain_size = 16 * 1024

module _ (sys : ReadFile) where
  open sys use {Handle, read}

  -- `none`: the fuel ran out.
  unfoldable pub drain : ℕ → Handle → Option Handle
  drain zero h = none
  drain (suc fuel) h =
      let (r, h') = read none h drain_size in
      elim r.error [ none ↦ some h' | some more_data ↦ drain fuel h' | some _ ↦ some h' ]

  -- The events that were sent to EventChannel, oldest first, when the loop returns.
  unfoldable pub read_loop : ℕ → Handle → List ℕ → List AcEvent → Option (List AcEvent)
  read_loop zero h buf sent = none
  read_loop (suc fuel) h buf sent =
      let (r, h') = read none h event_size in
      let buf' = overwrite r.bytes buf in
      let n = length r.bytes in
      let skipped = read_loop fuel h' buf' sent in
      let delivered = read_loop fuel h' buf' (sent ++ event_of_bytes (take event_size buf') ∷ []) in
      elim r.error [
        | none ↦ if n == 0 then some sent else if n == event_size then delivered else skipped
        | some more_data ↦ elim (drain fuel h') [
          | none ↦ none
          | some h'' ↦ read_loop fuel h'' buf' sent
        ]
        | some _ ↦ some sent
      ]
