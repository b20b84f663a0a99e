-- ===== src/Agent/Pipe/Delivery.antt =====
-- What `readLoop` of MedusaUserlandAgent/IPC.go sends for the messages that were written to the
-- pipe.
use open_anti_cheat.Common.{
  ℕ, zero, suc, ◌+◌, ◌<◌, ◌≤◌, ◌≡◌, none, some, List, [], ◌∷◌, ◌++◌, length, take, drop, ◌==◌, Bool,
  true, false, if◌then◌else◌, arith, dec_lt, ℕ_discrete, ap, sym, ◌∙◌, ◌≢◌, append_assoc,
  append-nil, length-drop, take-append_len,
}
use open_anti_cheat.Event.{AcEvent, event_size, event_of_bytes}
use open_anti_cheat.Agent.Pipe.{
  broken_pipe, more_data, ReadFile, overwrite, drain_size, drain, read_loop,
}

-- The documented behaviour of `ReadFile` without an OVERLAPPED, on a handle with
-- FILE_FLAG_OVERLAPPED to a pipe in message mode, whose client has written `pending` and closed its
-- end. The function may report too early that the read is complete: no error, and the count at the
-- zero that it sets before it begins; `early` says for which reads. The others are as without the
-- flag: a read takes one message; of a message that is longer than the buffer it takes what fits
-- and fails with ERROR_MORE_DATA; behind the last it fails with ERROR_BROKEN_PIPE.
pub record MessageMode (sys : ReadFile) (pending : sys.Handle → List (List ℕ))
    (early : sys.Handle → ℕ → Bool) : Type 0 where
  pub unfinished :
      (h : sys.Handle) (k : ℕ)
      → early h k ≡ true
      → (sys.read none h k).0 ≡ record { bytes = []; error = none }
  pub whole :
      (h : sys.Handle) (k : ℕ) (m : List ℕ) (ms : List (List ℕ))
      → early h k ≡ false
      → pending h ≡ m ∷ ms
      → length m ≤ k
      → ((sys.read none h k).0 ≡ record { bytes = m; error = none })
        × (pending (sys.read none h k).1 ≡ ms)
  pub partial :
      (h : sys.Handle) (k : ℕ) (m : List ℕ) (ms : List (List ℕ))
      → early h k ≡ false
      → pending h ≡ m ∷ ms
      → k < length m
      → ((sys.read none h k).0 ≡ record { bytes = take k m; error = some more_data })
        × (pending (sys.read none h k).1 ≡ drop k m ∷ ms)
  pub closed :
      (h : sys.Handle) (k : ℕ)
      → early h k ≡ false
      → pending h ≡ []
      → (sys.read none h k).0 ≡ record { bytes = []; error = some broken_pipe }

-- The specification: a message of the size of an event is that event, one of another size is
-- passed over, and an empty one ends the loop.
unfoldable pub events_of : List (List ℕ) → List AcEvent
events_of [] = []
events_of (m ∷ ms) =
    if length m == 0
    then []
    else if length m == event_size
    then event_of_bytes m ∷ events_of ms
    else events_of ms

-- A bound for the number of reads that the messages take.
abbrev pub reads : List (List ℕ) → ℕ
reads [] = 1
reads (m ∷ ms) = length m + 1 + reads ms

pub reads_pos : (ms : List (List ℕ)) → 0 < reads ms
reads_pos [] = omega arith
reads_pos (m ∷ ms) = omega (arith, reads_pos ms)

pub events_of_empty : (m : List ℕ) (ms : List (List ℕ)) → length m ≡ 0 → events_of (m ∷ ms) ≡ []
unfolding events_of
events_of_empty m ms h = ground arith

pub events_of_event :
    (m : List ℕ) (ms : List (List ℕ))
    → length m ≡ event_size
    → events_of (m ∷ ms) ≡ event_of_bytes m ∷ events_of ms
unfolding events_of
events_of_event m ms h = ground arith

pub events_of_other :
    (m : List ℕ) (ms : List (List ℕ))
    → length m ≢ 0
    → length m ≢ event_size
    → events_of (m ∷ ms) ≡ events_of ms
unfolding events_of
events_of_other m ms h k = ground arith

module _ (sys : ReadFile) (pending : sys.Handle → List (List ℕ)) (early : sys.Handle → ℕ → Bool)
    (mode : MessageMode sys pending early) where
  open sys use {Handle, read}

  -- No read reports too early.
  abbrev pub Prompt : Type 0
  Prompt = (h : Handle) (k : ℕ) → early h k ≡ false

  drain_lem :
      Prompt
      → (fuel : ℕ) (h : Handle) (m : List ℕ) (ms : List (List ℕ)) → pending h ≡ m ∷ ms
      → length m < fuel
      → (h' : Handle) × (drain sys fuel h ≡ some h') × (pending h' ≡ ms)
  unfolding drain
  drain_lem prompt zero h m ms e small = absurd (omega arith)
  drain_lem prompt (suc fuel) h m ms e small = elim (dec_lt drain_size (length m)) [
    | yes long ↦
        let (result, rest) = mode.partial h drain_size m ms (prompt h drain_size) e long in
        let (h', d, q) =
          drain_lem prompt fuel (read none h drain_size).1 (drop drain_size m) ms rest
            (omega (arith, length-drop drain_size m)) in
        (h', ground (arith, result, d), q)
    | no short ↦
        let (result, rest) = mode.whole h drain_size m ms (prompt h drain_size) e (omega arith) in
        ((read none h drain_size).1, ground (arith, result), rest)
  ]

  -- One round of the loop, by the message that is next.
  module _ (fuel : ℕ) (h : Handle) (buf : List ℕ) (sent : List AcEvent) (m : List ℕ)
      (ms : List (List ℕ)) (done : early h event_size ≡ false) (e : pending h ≡ m ∷ ms) where
    abbrev pub after : Handle
    after = (read none h event_size).1

    pub round_empty : length m ≡ 0 → read_loop sys (suc fuel) h buf sent ≡ some sent
    unfolding read_loop
    round_empty len =
        let (result, rest) = mode.whole h event_size m ms done e (omega arith) in
        ground (arith, result)

    pub round_event :
        length m ≡ event_size
        → read_loop sys (suc fuel) h buf sent
          ≡ read_loop sys fuel after (overwrite m buf) (sent ++ event_of_bytes m ∷ [])
    unfolding read_loop
    round_event len =
        let (result, rest) = mode.whole h event_size m ms done e (omega arith) in
        ground (arith, result, take-append_len m (drop (length m) buf) len)

    pub round_short :
        0 < length m
        → length m < event_size
        → read_loop sys (suc fuel) h buf sent ≡ read_loop sys fuel after (overwrite m buf) sent
    unfolding read_loop
    round_short pos small =
        let (result, rest) = mode.whole h event_size m ms done e (omega arith) in
        ground (arith, result)

    round_long :
        event_size < length m
        → (h'' : Handle) → drain sys fuel after ≡ some h''
        → read_loop sys (suc fuel) h buf sent
          ≡ read_loop sys fuel h'' (overwrite (take event_size m) buf) sent
    unfolding read_loop
    round_long long h'' d =
        let (result, rest) = mode.partial h event_size m ms done e long in ground (arith, result, d)

  pub closed_round :
      (fuel : ℕ) (h : Handle) (buf : List ℕ) (sent : List AcEvent)
      → early h event_size ≡ false
      → pending h ≡ []
      → read_loop sys (suc fuel) h buf sent ≡ some (sent ++ events_of [])
  unfolding read_loop events_of
  closed_round fuel h buf sent done e =
      rw append-nil (ground (arith, mode.closed h event_size done e))

  pub early_round :
      (fuel : ℕ) (h : Handle) (buf : List ℕ) (sent : List AcEvent)
      → early h event_size ≡ true
      → read_loop sys (suc fuel) h buf sent ≡ some sent
  unfolding read_loop
  early_round fuel h buf sent soon = ground (arith, mode.unfinished h event_size soon)

  -- Where no read reports too early, `readLoop`, with fuel for every read, returns and has sent the
  -- events of the messages, whatever their sizes, in order.
  pub read_loop-events_of :
      Prompt
      → (ms : List (List ℕ)) (fuel : ℕ) (h : Handle) (buf : List ℕ) (sent : List AcEvent)
      → pending h ≡ ms
      → reads ms ≤ fuel
      → read_loop sys fuel h buf sent ≡ some (sent ++ events_of ms)
  read_loop-events_of prompt [] zero h buf sent e enough = absurd (omega arith)
  read_loop-events_of prompt (m ∷ ms) zero h buf sent e enough = absurd (omega arith)
  read_loop-events_of prompt [] (suc fuel) h buf sent e enough =
      closed_round fuel h buf sent (prompt h event_size) e
  read_loop-events_of prompt (m ∷ ms) (suc fuel) h buf sent e enough =
      elim (dec_lt event_size (length m)) [
        | yes long ↦
            let (result, rest) = mode.partial h event_size m ms (prompt h event_size) e long in
            let (h'', d, q) =
              drain_lem prompt fuel (read none h event_size).1 (drop event_size m) ms rest
                (omega (arith, length-drop event_size m, reads_pos ms)) in
            round_long fuel h buf sent m ms (prompt h event_size) e long h'' d
            ∙ read_loop-events_of prompt ms fuel h'' _ sent q (omega arith)
            ∙ ap (λ es. some (sent ++ es)) (sym (events_of_other m ms (omega arith) (omega arith)))
        | no short ↦
            let (result, rest) =
              mode.whole h event_size m ms (prompt h event_size) e (omega arith) in
            elim (ℕ_discrete (length m) event_size) [
              | yes full ↦
                  round_event fuel h buf sent m ms (prompt h event_size) e full
                  ∙ read_loop-events_of prompt ms fuel _ _ _ rest (omega arith)
                  ∙ ap some (append_assoc sent (event_of_bytes m ∷ []) (events_of ms))
                  ∙ ap (λ es. some (sent ++ es)) (sym (events_of_event m ms full))
              | no other ↦ elim (ℕ_discrete (length m) 0) [
                | yes nothing ↦
                    round_empty fuel h buf sent m ms (prompt h event_size) e nothing
                    ∙ ap some (sym (append-nil sent))
                    ∙ ap (λ es. some (sent ++ es)) (sym (events_of_empty m ms nothing))
                | no something ↦
                    round_short fuel h buf sent m ms (prompt h event_size) e (omega arith)
                      (omega arith)
                    ∙ read_loop-events_of prompt ms fuel _ _ sent rest (omega arith)
                    ∙ ap (λ es. some (sent ++ es)) (sym (events_of_other m ms something other))
              ]
            ]
      ]
