-- ===== src/Tests/Pipes.antt =====
-- MedusaUserlandAgent/IPC.go: a pipe that is a queue of messages.
use open_anti_cheat.Common.{
  Option, Bool, true, false, ◌⊎◌, ◌++◌, ℕ, ◌≡◌, ◌<◌, ◌≤◌, refl, none, some, List, [], ◌∷◌, length,
  take, drop, leb, if◌then◌else◌, arith, replicate,
}
use open_anti_cheat.Event.{AcEvent, event_size}
use open_anti_cheat.Event.Wire.{length-ev_to_bytes}
use open_anti_cheat.Agent.Pipe.{ReadResult, ReadFile, broken_pipe, more_data, read_loop}
use open_anti_cheat.Agent.Pipe.Delivery.{MessageMode, events_of, reads, read_loop-events_of}
use open_anti_cheat.Agent.Pipe.RoundTrip.{Write, event, stray, messages, read_loop-written}
use open_anti_cheat.Tests.Wire.{
  handle_event, some_padding, handle_event-IsEvent, some_padding-IsPadding,
}

-- A pipe that is a queue; the reads into a buffer whose size is `bad` report too early.
pub queue_read : (ℕ → Bool) → Option ℕ → List (List ℕ) → ℕ → ReadResult × List (List ℕ)
queue_read bad o [] k =
    if bad k
    then (record { bytes = []; error = none }, [])
    else (record { bytes = []; error = some broken_pipe }, [])
queue_read bad o (m ∷ ms) k =
    if bad k
    then (record { bytes = []; error = none }, m ∷ ms)
    else if leb (length m) k
    then (record { bytes = m; error = none }, ms)
    else (record { bytes = take k m; error = some more_data }, drop k m ∷ ms)

abbrev pub queue : (ℕ → Bool) → ReadFile
queue bad = record { Handle = List (List ℕ); read = queue_read bad }

abbrev pub early : (ℕ → Bool) → List (List ℕ) → ℕ → Bool
early bad h k = bad k

module _ (bad : ℕ → Bool) where
  queue_early :
      (h : List (List ℕ)) (k : ℕ)
      → bad k ≡ true
      → (queue_read bad none h k).0 ≡ record { bytes = []; error = none }
  unfolding queue_read
  queue_early [] k soon = rw soon refl
  queue_early (m ∷ ms) k soon = rw soon refl

  queue_whole :
      (h : List (List ℕ)) (k : ℕ) (m : List ℕ) (ms : List (List ℕ))
      → bad k ≡ false
      → h ≡ m ∷ ms
      → length m ≤ k
      → ((queue_read bad none h k).0 ≡ record { bytes = m; error = none })
        × ((queue_read bad none h k).1 ≡ ms)
  unfolding queue_read
  queue_whole h k m ms later e fits = rw e (ground arith)

  queue_partial :
      (h : List (List ℕ)) (k : ℕ) (m : List ℕ) (ms : List (List ℕ))
      → bad k ≡ false
      → h ≡ m ∷ ms
      → k < length m
      → ((queue_read bad none h k).0 ≡ record { bytes = take k m; error = some more_data })
        × ((queue_read bad none h k).1 ≡ drop k m ∷ ms)
  unfolding queue_read
  queue_partial h k m ms later e long = rw e (ground arith)

  queue_closed :
      (h : List (List ℕ)) (k : ℕ)
      → bad k ≡ false
      → h ≡ []
      → (queue_read bad none h k).0 ≡ record { bytes = []; error = some broken_pipe }
  unfolding queue_read
  queue_closed h k later e = rw (e, later) refl

  pub queue-MessageMode : MessageMode (queue bad) (λ h. h) (early bad)
  queue-MessageMode = record {
    unfinished = queue_early;
    whole = queue_whole;
    partial = queue_partial;
    closed = queue_closed;
  }

-- A short message, and one that takes two reads to drain.
abbrev mixture : List (List ℕ)
mixture = (1 ∷ 2 ∷ []) ∷ [] ∷ []

abbrev pub never : ℕ → Bool
never k = false

read_loop-events_of_example :
    read_loop (queue never) 9 mixture (replicate 3648 0) [] ≡ some (events_of mixture)
read_loop-events_of_example =
    read_loop-events_of (queue never) (λ h. h) (early never) (queue-MessageMode never) (λ h k. refl)
      mixture 9 mixture (replicate 3648 0) [] refl (omega arith)

abbrev writes : List Write
writes = stray (1 ∷ 2 ∷ []) ∷ event handle_event some_padding ∷ stray (3 ∷ []) ∷ []

few_reads : reads (messages writes) ≤ 4000
few_reads = omega (
  arith,
  length-ev_to_bytes handle_event some_padding handle_event-IsEvent some_padding-IsPadding,
)

read_loop-written_example :
    (front : List AcEvent) × (rest : List AcEvent) × (read_loop
        (queue never)
        4000
        (messages writes)
        (replicate 3648 0)
        []
      ≡ some front)
    × (handle_event ∷ [] ≡ front ++ rest)
    × ((rest ≡ [])
        ⊎ ((h : List (List ℕ)) × (early never h event_size ≡ true) × (events_of h ≡ rest)))
read_loop-written_example =
    read_loop-written (queue never) (λ h. h) (early never) (queue-MessageMode never) writes 4000
      (messages writes) (replicate 3648 0)
      (
        (omega arith, omega arith),
        ((handle_event-IsEvent, some_padding-IsPadding), ((omega arith, omega arith), tt)),
      )
      refl few_reads

-- The first read reports too early.
cut_short : read_loop (queue (λ k. true)) 9 mixture [] [] ≡ some []
unfolding read_loop queue_read
cut_short = refl
