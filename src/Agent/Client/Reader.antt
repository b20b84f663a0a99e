-- ===== src/Agent/Client/Reader.antt =====
-- `readLoop` of MedusaUserlandAgent/WebSocketWorker.go in time, and the settings of HydraWS. A time
-- is a number of nanoseconds.
use open_anti_cheat.Common.{
  ℕ, zero, suc, ◌≡◌, ◌+◌, ◌*◌, ◌≤◌, ◌<◌, Bool-cases, inl, inr, Option, some, List, [], ◌∷◌, ◌++◌,
  map, min, max, ltb, ltb→lt, All, All-append, if◌then◌else◌, arith,
}
use open_anti_cheat.Event.{AcEvent}
use open_anti_cheat.Agent.Client.Backoff.{Backoff, default_backoff, second}
use open_anti_cheat.Agent.Client.Frame.{dispatch}

-- The fields of HydraWS that its user sets; `OnMessage` by the events that it sends to
-- EventChannel, `none` where it does not return.
pub record Settings : Type 0 where
  pub url : List ℕ
  pub header : List (List ℕ × List ℕ)
  pub on_message : List ℕ → Option (List AcEvent)
  pub ping_intv : ℕ
  pub backoff : Backoff

abbrev pub new_settings : List ℕ → Settings
new_settings url = record {
  url = url;
  header = [];
  on_message = λ b. some [];
  ping_intv = 20 * second;
  backoff = default_backoff;
}

abbrev pub with_header : List (List ℕ × List ℕ) → Settings → Settings
with_header hdr s = record s { header = hdr }

abbrev pub with_ping_interval : ℕ → Settings → Settings
with_ping_interval d s = record s { ping_intv = d }

abbrev pub with_on_message : (List ℕ → Option (List AcEvent)) → Settings → Settings
with_on_message f s = record s { on_message = f }

-- What the connection has for `ReadMessage`: a message, by when it is there, with how long
-- `OnMessage` is busy with it; a message that an earlier read has put into the library's buffer
-- whole; or an error.
pub data Arrival : Type 0 where
  message : (at mt : ℕ) (msg : List ℕ) (takes : ℕ) → Arrival
  buffered : (mt : ℕ) (msg : List ℕ) (takes : ℕ) → Arrival
  failure : (at : ℕ) → Arrival

abbrev timed : ℕ → List ℕ → ℕ × List ℕ
timed t msg = (t, msg)

-- What `OnMessage` gets, and when, and when the loop returns. The deadline is the network
-- connection's: a read that has to wait for it fails at the deadline, or at once behind it, and a
-- read that finds its message in the buffer succeeds whenever it is made.
unfoldable pub read_until : (deadline now : ℕ) → List Arrival → List (ℕ × List ℕ) × ℕ
read_until deadline now [] = ([], max now deadline)
read_until deadline now (message at mt msg takes ∷ as') =
    let t = max now at in
    let handed = map (timed t) (dispatch mt msg) in
    let rest = read_until deadline (t + takes) as' in
    if ltb t deadline then (handed ++ rest.0, rest.1) else ([], max now deadline)
read_until deadline now (buffered mt msg takes ∷ as') =
    let rest = read_until deadline (now + takes) as' in
    (map (timed now) (dispatch mt msg) ++ rest.0, rest.1)
read_until deadline now (failure at ∷ as') = ([], max now (min at deadline))

-- `readLoop` on a connection, from `SetReadDeadline` on.
unfoldable pub read_loop : Settings → ℕ → List Arrival → List (ℕ × List ℕ) × ℕ
unfolding read_until
read_loop s start as' = read_until (start + 2 * s.ping_intv) start as'

-- `OnMessage` is busy for at most this long.
abbrev pub TakesAtMost : ℕ → Arrival → Type 0
TakesAtMost k (message at mt msg takes) = takes ≤ k
TakesAtMost k (buffered mt msg takes) = takes ≤ k
TakesAtMost k (failure at) = Unit {0}

-- At most `left` buffered messages come first, and at most `b` behind any other message.
abbrev pub InRow : (b left : ℕ) → List Arrival → Type 0
InRow b left [] = Unit {0}
InRow b left (message at mt msg takes ∷ as') = InRow b b as'
InRow b zero (buffered mt msg takes ∷ as') = ⊥
InRow b (suc left) (buffered mt msg takes ∷ as') = InRow b left as'
InRow b left (failure at ∷ as') = Unit {0}

abbrev pub HandedBefore : ℕ → ℕ × List ℕ → Type 0
HandedBefore limit p = p.0 < limit

dispatch-before :
    (limit t mt : ℕ) (msg : List ℕ)
    → t < limit
    → All (HandedBefore limit) (map (timed t) (dispatch mt msg))
unfolding dispatch
dispatch-before limit t mt msg h = ground arith

suc_mul : (n k : ℕ) → suc n * k ≡ k + n * k
suc_mul n k = omega arith

module _ (deadline b k : ℕ) where
  abbrev InTime : List (ℕ × List ℕ) × ℕ → Type 0
  InTime p = All (HandedBefore (deadline + b * k)) p.0 × (p.1 ≤ deadline + b * k + k)

  read_until-InTime :
      (left now : ℕ) (as' : List Arrival)
      → now + left * k < deadline + b * k + k
      → InRow b left as'
      → All (TakesAtMost k) as'
      → InTime (read_until deadline now as')
  unfolding read_until
  read_until-InTime left now [] h row ok = (tt, omega arith)
  read_until-InTime left now (failure at ∷ as') h row ok = (tt, omega arith)
  read_until-InTime zero now (buffered mt msg takes ∷ as') h row ok = absurd row
  read_until-InTime (suc left) now (buffered mt msg takes ∷ as') h row (ok, oks) =
      let rest = read_until-InTime left (now + takes) as' (omega (arith, suc_mul left k)) row oks in
      (
        All-append (HandedBefore (deadline + b * k)) _ _
            (dispatch-before (deadline + b * k) now mt msg (omega (arith, suc_mul left k))) rest.0,
        rest.1,
      )
  read_until-InTime left now (message at mt msg takes ∷ as') h row (ok, oks) =
      elim (Bool-cases (ltb (max now at) deadline)) [
        | inl t ↦
            let rest =
              read_until-InTime b (max now at + takes) as' (omega (arith, ltb→lt _ _ t)) row oks in
            rw (t) (
              All-append (HandedBefore (deadline + b * k)) _ _
                  (dispatch-before (deadline + b * k) (max now at) mt msg
                    (omega (arith, ltb→lt _ _ t)))
                  rest.0,
              rest.1,
            )
        | inr t ↦ rw (t) (tt, omega arith)
      ]

-- Whatever comes over the connection, and however often the other side answers the pings, when
-- `OnMessage` is never busy for longer than `k` and no more than `b` messages in a row are read out
-- of the buffer: `OnMessage` gets nothing `b * k` behind twice the ping interval after the loop has
-- begun or later, and the loop returns at most one `k` after that.
pub read_loop-InTime :
    (s : Settings) (start b k : ℕ) (as' : List Arrival)
    → 0 < s.ping_intv
    → InRow b b as'
    → All (TakesAtMost k) as'
    → All (HandedBefore (start + 2 * s.ping_intv + b * k)) (read_loop s start as').0
      × ((read_loop s start as').1 ≤ start + 2 * s.ping_intv + b * k + k)
unfolding read_loop
read_loop-InTime s start b k as' positive row ok =
    read_until-InTime (start + 2 * s.ping_intv) b k b start as' (omega arith) row ok
