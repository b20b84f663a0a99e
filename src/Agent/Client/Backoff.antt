-- ===== src/Agent/Client/Backoff.antt =====
-- `nextBackoff` and the retry loop of `run` in MedusaUserlandAgent/WebSocketWorker.go. A Duration
-- is a number of nanoseconds. The product with the power of two and the minimum are exact in
-- float64 for an initial delay and a maximum below 2 ^ 53 ns; past the range of float64 the product
-- is infinite and the minimum is `max`, as it is here.
use open_anti_cheat.Common.{
  ℕ, zero, suc, ◌+◌, ◌*◌, ◌%◌, ◌^◌, ◌<◌, ◌≤◌, ◌≡◌, refl, min, List, [], ◌∷◌, ◌++◌, arith, ltb, ◌==◌,
  if◌then◌else◌, ap, ◌∙◌, ◌⊎◌, inl, inr, All, dec_lt,
}

-- The field `backoff` of HydraWS.
pub record Backoff : Type 0 where
  pub initial : ℕ
  pub max : ℕ
  pub jitter : ℕ

abbrev pub millisecond : ℕ
millisecond = 1_000_000

abbrev pub second : ℕ
second = 1_000_000_000

-- What `NewHydraWS` sets.
abbrev pub default_backoff : Backoff
default_backoff = record {
  initial = 500 * millisecond;
  max = 30 * second;
  jitter = 250 * millisecond;
}

unfoldable pub base_delay : Backoff → ℕ → ℕ
base_delay b n =
    let base = if b.initial == 0 then 500 * millisecond else b.initial in
    let most = if b.max == 0 then 30 * second else b.max in min (base * 2 ^ n) most

-- `now` is `time.Now().UnixNano()`; the sum is an int64, as a bit pattern.
unfoldable pub next_backoff : Backoff → ℕ → ℕ → ℕ
next_backoff b n now =
    let d = base_delay b n in if ltb 0 b.jitter then (d + now % b.jitter) % 2 ^ 64 else d

pow_pos : (n : ℕ) → 1 ≤ 2 ^ n
pow_pos zero = omega arith
pow_pos (suc n) = omega (arith, pow_pos n)

pow_mono : (n m : ℕ) → n ≤ m → 2 ^ n ≤ 2 ^ m
pow_mono zero m h = pow_pos m
pow_mono (suc n) zero h = absurd (omega arith)
pow_mono (suc n) (suc m) h = omega (arith, pow_mono n m)

-- The delay before the first retries: half a second, doubled each time.
base_delay_small : (n : ℕ) → n < 6 → base_delay default_backoff n ≡ 500 * millisecond * 2 ^ n
unfolding base_delay
base_delay_small n h = omega (arith, pow_mono n 5)

-- From the seventh retry on it is the maximum.
base_delay_large : (n : ℕ) → 6 ≤ n → base_delay default_backoff n ≡ 30 * second
unfolding base_delay
base_delay_large n h = omega (arith, pow_mono 6 n h)

base_delay_range :
    (n : ℕ)
    → (500 * millisecond ≤ base_delay default_backoff n)
      × (base_delay default_backoff n ≤ 30 * second)
unfolding base_delay
base_delay_range n = (omega (arith, pow_pos n), omega arith)

-- The jitter is less than a quarter of a second, and the sum does not wrap.
next_backoff_jitter :
    (n now : ℕ)
    → next_backoff default_backoff n now ≡ base_delay default_backoff n + now % (250 * millisecond)
unfolding next_backoff
next_backoff_jitter n now = omega (arith, base_delay_range n)

-- Every delay lies between half a second and thirty seconds and a quarter.
pub next_backoff_range :
    (n now : ℕ)
    → (500 * millisecond ≤ next_backoff default_backoff n now)
      × (next_backoff default_backoff n now < 30 * second + 250 * millisecond)
next_backoff_range n now = rw next_backoff_jitter (omega (arith, base_delay_range n))

growing :
    (n now later : ℕ)
    → n < 6
    → next_backoff default_backoff n now < next_backoff default_backoff (suc n) later
growing n now later h = elim (dec_lt n 5) [
  | yes small ↦ omega (
    arith,
    next_backoff_jitter n now,
    next_backoff_jitter (suc n) later,
    base_delay_small n h,
    base_delay_small (suc n) (omega arith),
    pow_pos n,
  )
  | no large ↦ omega (
    arith,
    next_backoff_jitter n now,
    next_backoff_jitter (suc n) later,
    base_delay_small n h,
    base_delay_large (suc n) (omega arith),
    pow_mono n 5,
  )
]

-- Whatever the clock says, each of the first six delays is shorter than the one after it, and from
-- the seventh on a delay is thirty seconds and the jitter.
next_backoff_grows :
    (n now later : ℕ)
    → ((n < 6) × (next_backoff default_backoff n now < next_backoff default_backoff (suc n) later))
      ⊎ ((6 ≤ n) × (next_backoff default_backoff n now ≡ 30 * second + now % (250 * millisecond)))
next_backoff_grows n now later = elim (dec_lt n 6) [
  | yes small ↦ inl (small, growing n now later small)
  | no large ↦ inr (
    omega arith,
    next_backoff_jitter n now
        ∙ ap (λ (d : ℕ). d + now % (250 * millisecond)) (base_delay_large n (omega arith)),
  )
]

-- What `connect` answers; the clock is read for a delay. A session that begins also ends, before
-- the next dial.
pub data Dial : Type 0 where
  connected : Dial
  dial_failed : (now : ℕ) → Dial
  dial_canceled : Dial

-- The sleeps of `run`, by the answers to its dials, from `attempt` on.
unfoldable pub run : Backoff → List Dial → ℕ → List ℕ
run b [] attempt = []
run b (connected ∷ dials) attempt = run b dials 0
run b (dial_failed now ∷ dials) attempt = next_backoff b attempt now ∷ run b dials (attempt + 1)
run b (dial_canceled ∷ dials) attempt = []

abbrev pub InRange : ℕ → Type 0
InRange d = (500 * millisecond ≤ d) × (d < 30 * second + 250 * millisecond)

-- So the client never spins and never waits longer, however its dials go.
pub run_range : (dials : List Dial) (attempt : ℕ) → All InRange (run default_backoff dials attempt)
unfolding run
run_range [] attempt = tt
run_range (connected ∷ dials) attempt = run_range dials 0
run_range (dial_failed now ∷ dials) attempt =
    (next_backoff_range attempt now, run_range dials (attempt + 1))
run_range (dial_canceled ∷ dials) attempt = tt

-- The dials end in no cancellation.
abbrev pub Alive : Dial → Type 0
Alive dial_canceled = ⊥
Alive _ = Unit {0}

-- A session starts the delays anew: what follows it does not depend on what went before.
run-connected :
    (b : Backoff) (before after : List Dial) (attempt : ℕ)
    → All Alive before
    → run b (before ++ connected ∷ after) attempt ≡ run b before attempt ++ run b after 0
unfolding run
run-connected b [] after attempt h = refl
run-connected b (connected ∷ before) after attempt h = run-connected b before after 0 h.1
run-connected b (dial_failed now ∷ before) after attempt h =
    ap (◌∷◌ (next_backoff b attempt now)) (run-connected b before after (attempt + 1) h.1)
run-connected b (dial_canceled ∷ before) after attempt h = absurd h.0
