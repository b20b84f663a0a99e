-- ===== src/Agent/Client/Pings.antt =====
-- `pingLoop` of MedusaUserlandAgent/WebSocketWorker.go in time, in nanoseconds.
use open_anti_cheat.Common.{
  ℕ, ◌+◌, ◌-◌, ◌*◌, ◌/◌, ◌≤◌, ◌<◌, ◌≡◌, refl, ap, false, Option, none, some, List, [], ◌∷◌, max,
  All, arith, ◌==◌, if◌then◌else◌,
}
use native.Mathlib.Nat.{sub_self, zero-div, one-mul}
use open_anti_cheat.Agent.Client.Backoff.{second}
use open_anti_cheat.Agent.Client.Reader.{Settings}

-- A round of the loop: a ping whose write takes that long, one whose write fails, or the end of the
-- context.
pub data PingRound : Type 0 where
  wrote : (takes : ℕ) → PingRound
  failed ended : PingRound

-- When pings are written. The ticker's channel holds one tick: it is received when it is due or
-- when the loop comes round to it, and the ticks until then are lost.
unfoldable pub ticks : (intv due now : ℕ) → List PingRound → List ℕ
ticks intv due now [] = []
ticks intv due now (ended ∷ rs) = []
ticks intv due now (failed ∷ rs) = max due now ∷ []
ticks intv due now (wrote takes ∷ rs) =
    let t = max due now in t ∷ ticks intv (due + ((t - due) / intv + 1) * intv) (t + takes) rs

-- NewTicker panics at an interval of 0; there is no connection; or the pings.
pub data Pings : Type 0 where
  panics no_conn : Pings
  pings : List ℕ → Pings

unfoldable pub ping_loop : Settings → ℕ → Option ℕ → List PingRound → Pings
unfolding ticks
ping_loop s start conn rs = if s.ping_intv == 0 then panics else elim conn [
  | none ↦ no_conn
  | some c ↦ pings (ticks s.ping_intv (start + s.ping_intv) start rs)
]

-- What `SetWriteDeadline` leaves a ping.
abbrev pub write_deadline : ℕ
write_deadline = 5 * second

abbrev pub InDeadline : PingRound → Type 0
InDeadline (wrote takes) = takes ≤ write_deadline
InDeadline _ = Unit {0}

-- One time for each round up to the first that fails or ends, `intv` apart.
abbrev pub regular : (intv due : ℕ) → List PingRound → List ℕ
regular intv due [] = []
regular intv due (ended ∷ rs) = []
regular intv due (failed ∷ rs) = due ∷ []
regular intv due (wrote takes ∷ rs) = due ∷ regular intv (due + intv) rs

later : (due now : ℕ) → now ≤ due → max due now ≡ due
later due now le = omega arith

module _ (intv : ℕ) (long : write_deadline < intv) where
  next_due : (due : ℕ) → due + ((due - due) / intv + 1) * intv ≡ due + intv
  next_due due = rw (sub_self due, zero-div intv, one-mul intv) refl

  ticks-regular :
      (due now : ℕ) (rs : List PingRound)
      → now ≤ due
      → All InDeadline rs
      → ticks intv due now rs ≡ regular intv due rs
  unfolding ticks
  ticks-regular due now [] le h = refl
  ticks-regular due now (ended ∷ rs) le h = refl
  ticks-regular due now (failed ∷ rs) le h = ap (λ (t : ℕ). t ∷ []) (later due now le)
  ticks-regular due now (wrote takes ∷ rs) le (small, h) =
      rw (later due now le, next_due due)
        (ap (◌∷◌ due) (ticks-regular (due + intv) (due + takes) rs (omega arith) h))

-- With a ping interval of more than the five seconds that the write of a ping may take, the loop
-- writes its pings at the multiples of the interval after its start, none left out, until a write
-- fails or the context ends.
pub ping_loop-regular :
    (s : Settings) (start c : ℕ) (rs : List PingRound)
    → write_deadline < s.ping_intv
    → All InDeadline rs
    → ping_loop s start (some c) rs ≡ pings (regular s.ping_intv (start + s.ping_intv) rs)
unfolding ping_loop
ping_loop-regular s start c rs long h =
    rw (set s.ping_intv long) (ap pings (ticks-regular s.ping_intv long _ start rs (omega arith) h))
  where
    set : (intv : ℕ) → write_deadline < intv → (intv == 0) ≡ false
    set intv long = ground arith
