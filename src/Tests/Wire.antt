-- ===== src/Tests/Wire.antt =====
-- MedusaUserlandAgent/Event.go: an event and its bytes.
use open_anti_cheat.Common.{
  ℕ, ◌≡◌, refl, [], ◌∷◌, replicate, All, arith, length-replicate, zero, suc,
}
use open_anti_cheat.Memory.Words.{IsByte, Fits}
use open_anti_cheat.Event.{AcEvent, Padding, ev_to_bytes, event_of_bytes, IsEvent, IsPadding}
use open_anti_cheat.Event.Wire.{event_of_bytes-ev_to_bytes}

pub replicate-All : (w n v : ℕ) → Fits w v → All (Fits w) (replicate n v)
unfolding replicate
replicate-All w zero v h = tt
replicate-All w (suc n) v h = (h, replicate-All w n v h)

-- Process 1234 is handled by 5678, with every text empty.
abbrev pub handle_event : AcEvent
handle_event = record {
  src = 0;
  event_type = replicate 260 0;
  caller_pid = 1234;
  target_pid = 5678;
  thread_id = 9;
  image_file_name = replicate 260 0;
  command_line = replicate 1024 0;
  is_create = 1;
  image_base = 0x7ff6_0000_0000;
  image_size = 0x1000;
}

abbrev pub some_padding : Padding
some_padding = record { inner = 1 ∷ 2 ∷ 3 ∷ 4 ∷ []; tail = 0xff ∷ 0 ∷ 0xff ∷ 0 ∷ [] }

pub handle_event-IsEvent : IsEvent handle_event
handle_event-IsEvent = record {
  src = omega arith;
  event_type = (length-replicate {A = ℕ} 260 0, replicate-All 2 260 0 (omega arith));
  caller_pid = omega arith;
  target_pid = omega arith;
  thread_id = omega arith;
  image_file_name = (length-replicate {A = ℕ} 260 0, replicate-All 4 260 0 (omega arith));
  command_line = (length-replicate {A = ℕ} 1024 0, replicate-All 2 1024 0 (omega arith));
  is_create = omega arith;
  image_base = omega arith;
  image_size = omega arith;
}

pub some_padding-IsPadding : IsPadding some_padding
some_padding-IsPadding = record { inner = (refl, omega arith); tail = (refl, omega arith) }

event_of_bytes-ev_to_bytes_example :
    event_of_bytes (ev_to_bytes handle_event some_padding) ≡ handle_event
event_of_bytes-ev_to_bytes_example =
    event_of_bytes-ev_to_bytes handle_event some_padding handle_event-IsEvent some_padding-IsPadding

pub sevens-IsByte : All IsByte (replicate 3648 7)
sevens-IsByte = replicate-All 1 3648 7 (omega arith)
