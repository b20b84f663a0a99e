-- ===== src/Tests/Retries.antt =====
-- MedusaUserlandAgent/WebSocketWorker.go: delays between dials, and a readLoop in time.
use open_anti_cheat.Agent.Client.Reader.{new_settings, with_ping_interval}
use open_anti_cheat.Agent.Client.Pings.{
  PingRound, wrote, failed, panics, pings, ticks, ping_loop, regular, ping_loop-regular,
}
use open_anti_cheat.Common.{some, arith, ◌+◌, ◌*◌, ◌≡◌, ◌≤◌, refl, List, [], ◌∷◌, ◌++◌, All}
use open_anti_cheat.Agent.Client.Frame.{dispatch}
use open_anti_cheat.Agent.Client.Reader.{
  new_settings, Arrival, message, buffered, read_loop, HandedBefore, read_loop-InTime,
}
use open_anti_cheat.Agent.Client.Backoff.{
  second, default_backoff, base_delay, next_backoff, Dial, connected, dial_failed, run, InRange,
  run_range,
}

abbrev dials : List Dial
dials = dial_failed 0 ∷ dial_failed 0 ∷ []

sleeps :
    run default_backoff (dials ++ connected ∷ dials) 0
    ≡ 500_000_000 ∷ 1_000_000_000 ∷ 500_000_000 ∷ 1_000_000_000 ∷ []
unfolding run next_backoff base_delay
sleeps = refl

run_range_example : All InRange (run default_backoff dials 3)
run_range_example = run_range dials 3

-- Two messages come in time, one of them behind the other in the buffer, and one does not.
abbrev arrivals : List Arrival
arrivals =
    message (5 * second) 1 (b'a' ∷ []) second
    ∷ buffered 1 (b'b' ∷ []) 0
    ∷ message (41 * second) 1 (b'c' ∷ []) 0
    ∷ []

read_loop_run :
    read_loop (new_settings []) 0 arrivals
    ≡ ((5 * second, b'a' ∷ []) ∷ (6 * second, b'b' ∷ []) ∷ [], 40 * second)
unfolding read_loop dispatch
read_loop_run = refl

read_loop-InTime_example :
    All
      (HandedBefore (0 + 2 * (20 * second) + 1 * second))
      (read_loop (new_settings []) 0 arrivals).0
    × ((read_loop (new_settings []) 0 arrivals).1 ≤ 0 + 2 * (20 * second) + 1 * second + second)
read_loop-InTime_example =
    read_loop-InTime (new_settings []) 0 1 second arrivals (omega arith) tt
      (omega arith, (omega arith, (omega arith, tt)))

-- Two pings, the second of which fails.
abbrev rounds : List PingRound
rounds = wrote second ∷ failed ∷ wrote 0 ∷ []

ping_loop-regular_example :
    ping_loop (new_settings []) 7 (some 0) rounds
    ≡ pings (regular (20 * second) (7 + 20 * second) rounds)
ping_loop-regular_example =
    ping_loop-regular (new_settings []) 7 0 rounds (omega arith)
      (omega arith, (tt, (omega arith, tt)))

-- A write that takes three intervals loses two ticks.
late :
    ping_loop
      (with_ping_interval 10 (new_settings []))
      0
      (some 0)
      (wrote 31 ∷ wrote 0 ∷ wrote 0 ∷ [])
    ≡ pings (10 ∷ 41 ∷ 50 ∷ [])
unfolding ping_loop ticks
late = refl

no_interval : ping_loop (with_ping_interval 0 (new_settings [])) 0 (some 0) [] ≡ panics
unfolding ping_loop
no_interval = refl
