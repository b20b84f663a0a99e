-- ===== src/Backend/Server/Locking.antt =====
-- HydraWSServer of MedusaBackend/WSServer.go: the mutex and the map of connections.
use open_anti_cheat.Common.{ℕ, ◌≡◌, ◌≢◌, refl, sym, ◌∙◌, subst, ap, Bool, true, false, arith}
use open_anti_cheat.Backend.Server.{
  HandlerPc, registering_locked, leaving_locked, BroadcastPc, waiting, stopped, dropping, relocking,
  writing, deleting, pinging, handler, broadcaster, Mutex, free, read_locked, write_locked, Server,
  Step, Reach, start, later, upgrades, locks_to_register, registers, skips, accepts, read_fails,
  sends, send_panics, gives_up, locks_to_leave, leaves, commands, begins, writes, write_fails,
  locks_to_drop, deletes, relocks, ends_broadcast, begins_pings, ends_pings, stops, consumes,
  cancels, closes,
}

-- The handler writes to the map.
abbrev pub in_lock : HandlerPc → Bool
in_lock registering_locked = true
in_lock leaving_locked = true
in_lock _ = false

-- The broadcaster reads the map or deletes from it.
abbrev pub in_map : BroadcastPc → Bool
in_map (writing r) = true
in_map (deleting c r) = true
in_map pinging = true
in_map _ = false

abbrev HoldsMu : BroadcastPc → Mutex → Type 0
HoldsMu (writing r) m = m ≡ read_locked
HoldsMu (deleting c r) m = m ≡ write_locked broadcaster
HoldsMu pinging m = m ≡ read_locked
HoldsMu _ m = Unit {0}

record IsLocked (s : Server) : Type 0 where
  handlers_hold : (c : ℕ) → in_lock (s.handlers c) ≡ true → s.mu ≡ write_locked (handler c)
  broadcast_holds : HoldsMu s.broadcast s.mu

not_in_map :
    (b : BroadcastPc) {c : ℕ} {m : Mutex}
    → m ≡ write_locked (handler c)
    → HoldsMu b m
    → in_map b ≡ false
not_in_map (writing r) e h = cc
not_in_map (deleting c r) e h = cc
not_in_map pinging e h = cc
not_in_map waiting e h = refl
not_in_map stopped e h = refl
not_in_map (dropping c r) e h = refl
not_in_map (relocking r) e h = refl

-- A broadcaster that does not hold the mutex does not mind who does.
unlocked_moves :
    (b : BroadcastPc) {m : Mutex} (m' : Mutex)
    → m ≢ read_locked
    → m ≢ write_locked broadcaster
    → HoldsMu b m
    → HoldsMu b m'
unlocked_moves (writing r) m' n k h = absurd (n h)
unlocked_moves (deleting c r) m' n k h = absurd (k h)
unlocked_moves pinging m' n k h = absurd (n h)
unlocked_moves waiting m' n k h = h
unlocked_moves stopped m' n k h = h
unlocked_moves (dropping c r) m' n k h = h
unlocked_moves (relocking r) m' n k h = h

module _ {s : Server} (v : IsLocked s) where
  mutex_at : {b : BroadcastPc} → s.broadcast ≡ b → HoldsMu b s.mu
  mutex_at e = subst (λ b. HoldsMu b s.mu) e v.broadcast_holds

  no_handler :
      {m : Mutex}
      → s.mu ≡ m
      → ((c : ℕ) → m ≢ write_locked (handler c))
      → (k : ℕ) → ¬ (in_lock (s.handlers k) ≡ true)
  no_handler e n k h = n k (sym e ∙ v.handlers_hold k h)

  moves_from : (c : ℕ) (m : Mutex) → in_lock (s.handlers c) ≡ true → HoldsMu s.broadcast m
  moves_from c m h =
      unlocked_moves s.broadcast m (λ d. cc (v.handlers_hold c h)) (λ d. cc (v.handlers_hold c h))
        v.broadcast_holds

  Step-handlers_hold :
      {t : Server}
      → Step s t
      → (k : ℕ) → in_lock (t.handlers k) ≡ true
      → t.mu ≡ write_locked (handler k)
  Step-handlers_hold (upgrades c e) k h = ground (arith, v.handlers_hold k)
  Step-handlers_hold (locks_to_register c e m) k h = ground (arith, v.handlers_hold k)
  Step-handlers_hold (registers c e) k h = ground (arith, v.handlers_hold k, v.handlers_hold c)
  Step-handlers_hold (skips c mt msg e f) k h = v.handlers_hold k h
  Step-handlers_hold (accepts c mt msg ev e f) k h = ground (arith, v.handlers_hold k)
  Step-handlers_hold (read_fails c e) k h = ground (arith, v.handlers_hold k)
  Step-handlers_hold (sends c ev e f l) k h = ground (arith, v.handlers_hold k)
  Step-handlers_hold (send_panics c ev e f) k h = v.handlers_hold k h
  Step-handlers_hold (gives_up c ev e f) k h = ground (arith, v.handlers_hold k)
  Step-handlers_hold (locks_to_leave c e m) k h = ground (arith, v.handlers_hold k)
  Step-handlers_hold (leaves c e) k h = ground (arith, v.handlers_hold k, v.handlers_hold c)
  Step-handlers_hold (begins cmd rest e f m) k h = absurd (no_handler m (λ c d. cc) k h)
  Step-handlers_hold (writes c r e i n) k h = v.handlers_hold k h
  Step-handlers_hold (write_fails c r e i n) k h = absurd (no_handler (mutex_at e) (λ c d. cc) k h)
  Step-handlers_hold (locks_to_drop c r e m) k h = absurd (no_handler m (λ c d. cc) k h)
  Step-handlers_hold (deletes c r e) k h = absurd (no_handler (mutex_at e) (λ c d. cc) k h)
  Step-handlers_hold (relocks r e m) k h = absurd (no_handler m (λ c d. cc) k h)
  Step-handlers_hold (ends_broadcast r e a) k h = absurd (no_handler (mutex_at e) (λ c d. cc) k h)
  Step-handlers_hold (begins_pings e m) k h = absurd (no_handler m (λ c d. cc) k h)
  Step-handlers_hold (ends_pings e) k h = absurd (no_handler (mutex_at e) (λ c d. cc) k h)
  Step-handlers_hold (stops e f) k h = v.handlers_hold k h
  Step-handlers_hold (commands l) k h = v.handlers_hold k h
  Step-handlers_hold (consumes e rest f) k h = v.handlers_hold k h
  Step-handlers_hold cancels k h = v.handlers_hold k h
  Step-handlers_hold (closes e f) k h = v.handlers_hold k h

  Step-broadcast_holds : {t : Server} → Step s t → HoldsMu t.broadcast t.mu
  Step-broadcast_holds (upgrades c e) = v.broadcast_holds
  Step-broadcast_holds (locks_to_register c e m) =
      unlocked_moves s.broadcast (write_locked (handler c)) (λ d. cc) (λ d. cc) v.broadcast_holds
  Step-broadcast_holds (registers c e) = moves_from c free (ap in_lock e)
  Step-broadcast_holds (skips c mt msg e f) = v.broadcast_holds
  Step-broadcast_holds (accepts c mt msg ev e f) = v.broadcast_holds
  Step-broadcast_holds (read_fails c e) = v.broadcast_holds
  Step-broadcast_holds (sends c ev e f l) = v.broadcast_holds
  Step-broadcast_holds (send_panics c ev e f) = v.broadcast_holds
  Step-broadcast_holds (gives_up c ev e f) = v.broadcast_holds
  Step-broadcast_holds (locks_to_leave c e m) =
      unlocked_moves s.broadcast (write_locked (handler c)) (λ d. cc) (λ d. cc) v.broadcast_holds
  Step-broadcast_holds (leaves c e) = moves_from c free (ap in_lock e)
  Step-broadcast_holds (begins cmd rest e f m) = refl
  Step-broadcast_holds (writes c r e i n) = mutex_at e
  Step-broadcast_holds (write_fails c r e i n) = tt
  Step-broadcast_holds (locks_to_drop c r e m) = refl
  Step-broadcast_holds (deletes c r e) = tt
  Step-broadcast_holds (relocks r e m) = refl
  Step-broadcast_holds (ends_broadcast r e a) = tt
  Step-broadcast_holds (begins_pings e m) = refl
  Step-broadcast_holds (ends_pings e) = tt
  Step-broadcast_holds (stops e f) = tt
  Step-broadcast_holds (commands l) = v.broadcast_holds
  Step-broadcast_holds (consumes e rest f) = v.broadcast_holds
  Step-broadcast_holds cancels = v.broadcast_holds
  Step-broadcast_holds (closes e f) = v.broadcast_holds

  Step-IsLocked : {t : Server} → Step s t → IsLocked t
  Step-IsLocked mv = record {
    handlers_hold = Step-handlers_hold mv;
    broadcast_holds = Step-broadcast_holds mv;
  }

  -- Two holders are one.
  alone : (c k : ℕ) → in_lock (s.handlers c) ≡ true → in_lock (s.handlers k) ≡ true → c ≡ k
  alone c k h i = cc (v.handlers_hold c h, v.handlers_hold k i)

  not_both : (c : ℕ) → in_lock (s.handlers c) ≡ true → in_map s.broadcast ≡ false
  not_both c h = not_in_map s.broadcast (v.handlers_hold c h) v.broadcast_holds

Reach-IsLocked : {buf : ℕ} {s : Server} → Reach buf s → IsLocked s
Reach-IsLocked start = record { handlers_hold = λ c h. cc; broadcast_holds = tt }
Reach-IsLocked (later r mv) = Step-IsLocked (Reach-IsLocked r) mv

-- However handlers, broadcaster, consumer and Close interleave, a handler that is between `Lock`
-- and `Unlock`, where it writes the map of connections, is the only one there, and the broadcaster
-- is then neither in a loop over the map nor deleting from it.
pub Reach-alone :
    {buf : ℕ} {s : Server}
    → Reach buf s
    → (c : ℕ) → in_lock (s.handlers c) ≡ true
    → ((k : ℕ) → in_lock (s.handlers k) ≡ true → c ≡ k) × (in_map s.broadcast ≡ false)
Reach-alone r c h = (λ k. alone (Reach-IsLocked r) c k h, not_both (Reach-IsLocked r) c h)
