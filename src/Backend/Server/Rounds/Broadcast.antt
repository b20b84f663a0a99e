-- ===== src/Backend/Server/Rounds/Broadcast.antt =====
-- HydraWSServer of MedusaBackend/WSServer.go: which commands each connection gets.
use open_anti_cheat.Common.{ℕ, ◌≡◌, refl, subst, Bool, true, ==_iff, List, ◌==◌}
use open_anti_cheat.Backend.Server.Registry.{is_serving, Reach-registered}
use open_anti_cheat.Backend.Server.{
  HandlerPc, absent, registering, registering_locked, reading, sending, leaving, leaving_locked,
  gone, BroadcastPc, Server, Step, Reach, start, later, upgrades, locks_to_register, registers,
  skips, accepts, read_fails, sends, send_panics, gives_up, locks_to_leave, leaves, commands,
  begins, writes, write_fails, locks_to_drop, deletes, relocks, ends_broadcast, begins_pings,
  ends_pings, stops, consumes, cancels, closes,
}
use open_anti_cheat.Backend.Server.Rounds.{
  Sub, empty, is_past, IsRounds, begun_by, begun, got_by, got, due_by, due,
}
use open_anti_cheat.Backend.Server.Rounds.Steps.{
  IsRounds-handler, IsRounds-registers, IsRounds-drop, IsRounds-idle, IsRounds-moves,
  IsRounds-begins,
}
use open_anti_cheat.Backend.Server.Rounds.Visits.{IsRounds-ends, IsRounds-writes, IsRounds-fails}

module _ (c : ℕ) where
  serving-past : (h : HandlerPc) → is_serving h ≡ true → is_past h ≡ true
  serving-past (absent) e = absurd (cc e)
  serving-past (registering) e = absurd (cc e)
  serving-past (registering_locked) e = absurd (cc e)
  serving-past h e = refl

  -- A registered connection has a handler that is past its registration.
  abbrev IsServed : Server → Type 0
  IsServed s = (k : ℕ) → s.conns k ≡ true → is_serving (s.handlers k) ≡ true

  served-past :
      (s : Server) (k : ℕ)
      → IsServed s
      → s.conns k ≡ true
      → (k == c) ≡ true
      → is_past (s.handlers c) ≡ true
  served-past s k h e t =
      subst (λ m. is_past (s.handlers m) ≡ true) ((==_iff k c).0 t) (serving-past _ (h k e))

  at_pc :
      {pc pc' : BroadcastPc} {present : Bool} {h : HandlerPc} {d g b : List (List ℕ)}
      → pc ≡ pc'
      → IsRounds c pc present h d g b
      → IsRounds c pc' present h d g b
  at_pc {present = present} {h} {d} {g} {b} e = subst (λ pc. IsRounds c pc present h d g b) e

  Step-IsRounds :
      {s t : Server} (st : Step s t) (d g b : List (List ℕ))
      → IsServed s
      → IsRounds c s.broadcast (s.conns c) (s.handlers c) d g b
      → IsRounds c t.broadcast
          (t.conns c)
          (t.handlers c)
          (due_by c st d)
          (got_by c st g)
          (begun_by st b)
  Step-IsRounds {s} (upgrades k e) d g b z v =
      IsRounds-handler c s.handlers k absent registering e (λ p. p) v
  Step-IsRounds {s} (locks_to_register k e m) d g b z v =
      IsRounds-handler c s.handlers k registering registering_locked e (λ p. p) v
  Step-IsRounds {s} (registers k e) d g b z v = IsRounds-registers c s.handlers k s.conns e v
  Step-IsRounds (skips k mt msg e f) d g b z v = v
  Step-IsRounds {s} (accepts k mt msg ev e f) d g b z v =
      IsRounds-handler c s.handlers k reading (sending ev) e (λ p. p) v
  Step-IsRounds {s} (read_fails k e) d g b z v =
      IsRounds-handler c s.handlers k reading leaving e (λ p. p) v
  Step-IsRounds {s} (sends k ev e f l) d g b z v =
      IsRounds-handler c s.handlers k (sending ev) reading e (λ p. p) v
  Step-IsRounds (send_panics k ev e f) d g b z v = v
  Step-IsRounds {s} (gives_up k ev e f) d g b z v =
      IsRounds-handler c s.handlers k (sending ev) leaving e (λ p. p) v
  Step-IsRounds {s} (locks_to_leave k e m) d g b z v =
      IsRounds-handler c s.handlers k leaving leaving_locked e (λ p. p) v
  Step-IsRounds {s} (leaves k e) d g b z v =
      IsRounds-drop c s.conns k refl (λ t f. f)
        (IsRounds-handler c s.handlers k leaving_locked gone e (λ p. p) v)
  Step-IsRounds {s} (begins cmd rest e f m) d g b z v = IsRounds-begins c cmd s.conns v
  Step-IsRounds {s} (writes k r e i n) d g b z v =
      IsRounds-writes c r k (at_pc e v) n (served-past s k z i)
  Step-IsRounds {s} (write_fails k r e i n) d g b z v =
      IsRounds-fails c r k (at_pc e v) (served-past s k z i)
  Step-IsRounds (locks_to_drop k r e m) d g b z v = IsRounds-moves c refl (λ f. f) (at_pc e v)
  Step-IsRounds {s} (deletes k r e) d g b z v =
      IsRounds-drop c s.conns k refl (λ t f. t) (at_pc e v)
  Step-IsRounds (relocks r e m) d g b z v = IsRounds-moves c refl (λ f. f) (at_pc e v)
  Step-IsRounds (ends_broadcast r e a) d g b z v = IsRounds-ends c r (a c) (at_pc e v)
  Step-IsRounds (begins_pings e m) d g b z v = IsRounds-idle c refl v
  Step-IsRounds (ends_pings e) d g b z v = IsRounds-idle c refl v
  Step-IsRounds (stops e f) d g b z v = IsRounds-idle c refl v
  Step-IsRounds (commands l) d g b z v = v
  Step-IsRounds (consumes e rest f) d g b z v = v
  Step-IsRounds cancels d g b z v = v
  Step-IsRounds (closes e f) d g b z v = v

  Reach-IsRounds :
      {buf : ℕ} {s : Server} (r : Reach buf s)
      → IsRounds c s.broadcast (s.conns c) (s.handlers c) (due c r) (got c r) (begun r)
  Reach-IsRounds start = record {
    due_got = empty;
    got_begun = empty;
    during = λ r a. absurd (cc a);
  }
  Reach-IsRounds (later r st) =
      Step-IsRounds st (due c r) (got c r) (begun r) (Reach-registered r) (Reach-IsRounds r)

-- In every state that the server can reach, each connection has got, in order, a command of each
-- round at whose begin and end it was registered, and nothing but commands of rounds that have
-- begun, at most one of each and in their order.
pub Reach-broadcasts :
    {buf : ℕ} {s : Server} (r : Reach buf s) (c : ℕ)
    → Sub (due c r) (got c r) × Sub (got c r) (begun r)
Reach-broadcasts r c = ((Reach-IsRounds c r).due_got, (Reach-IsRounds c r).got_begun)
