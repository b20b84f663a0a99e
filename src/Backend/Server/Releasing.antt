-- ===== src/Backend/Server/Releasing.antt =====
-- HydraWSServer of MedusaBackend/WSServer.go: who holds the mutex, and how it is given back.
use open_anti_cheat.Common.{ℕ, ◌≡◌, refl, ap, Bool, true, false, ◌⊎◌, inl, inr, arith}
use open_anti_cheat.Backend.Server.Locking.{in_lock}
use open_anti_cheat.Backend.Server.{
  HandlerPc, Round, registering_locked, leaving_locked, BroadcastPc, writing, deleting, pinging,
  handler, broadcaster, Mutex, free, read_locked, write_locked, Server, Step, Reach, start, later,
  upgrades, locks_to_register, registers, skips, accepts, read_fails, sends, send_panics, gives_up,
  locks_to_leave, leaves, commands, begins, writes, write_fails, locks_to_drop, deletes, relocks,
  ends_broadcast, begins_pings, ends_pings, stops, consumes, cancels, closes,
}

-- The broadcaster reads the map.
abbrev pub in_read : BroadcastPc → Bool
in_read (writing r) = true
in_read pinging = true
in_read _ = false

abbrev pub is_deleting : BroadcastPc → Bool
is_deleting (deleting c r) = true
is_deleting _ = false

record IsHeld (s : Server) : Type 0 where
  by_reader : s.mu ≡ read_locked → in_read s.broadcast ≡ true
  by_broadcaster : s.mu ≡ write_locked broadcaster → is_deleting s.broadcast ≡ true
  by_handler : (c : ℕ) → s.mu ≡ write_locked (handler c) → in_lock (s.handlers c) ≡ true

module _ {s : Server} (v : IsHeld s) where
  Step-by_reader : {t : Server} → Step s t → t.mu ≡ read_locked → in_read t.broadcast ≡ true
  Step-by_reader (upgrades c e) h = v.by_reader h
  Step-by_reader (locks_to_register c e m) h = absurd (cc h)
  Step-by_reader (registers c e) h = absurd (cc h)
  Step-by_reader (skips c mt msg e f) h = v.by_reader h
  Step-by_reader (accepts c mt msg ev e f) h = v.by_reader h
  Step-by_reader (read_fails c e) h = v.by_reader h
  Step-by_reader (sends c ev e f l) h = v.by_reader h
  Step-by_reader (send_panics c ev e f) h = v.by_reader h
  Step-by_reader (gives_up c ev e f) h = v.by_reader h
  Step-by_reader (locks_to_leave c e m) h = absurd (cc h)
  Step-by_reader (leaves c e) h = absurd (cc h)
  Step-by_reader (begins cmd rest e f m) h = refl
  Step-by_reader (writes c r e i n) h = refl
  Step-by_reader (write_fails c r e i n) h = absurd (cc h)
  Step-by_reader (locks_to_drop c r e m) h = absurd (cc h)
  Step-by_reader (deletes c r e) h = absurd (cc h)
  Step-by_reader (relocks r e m) h = refl
  Step-by_reader (ends_broadcast r e a) h = absurd (cc h)
  Step-by_reader (begins_pings e m) h = refl
  Step-by_reader (ends_pings e) h = absurd (cc h)
  Step-by_reader (stops e f) h = absurd (cc (v.by_reader h, ap in_read e))
  Step-by_reader (commands l) h = v.by_reader h
  Step-by_reader (consumes e rest f) h = v.by_reader h
  Step-by_reader cancels h = v.by_reader h
  Step-by_reader (closes e f) h = v.by_reader h

  Step-by_broadcaster :
      {t : Server} → Step s t → t.mu ≡ write_locked broadcaster → is_deleting t.broadcast ≡ true
  Step-by_broadcaster (upgrades c e) h = v.by_broadcaster h
  Step-by_broadcaster (locks_to_register c e m) h = absurd (cc h)
  Step-by_broadcaster (registers c e) h = absurd (cc h)
  Step-by_broadcaster (skips c mt msg e f) h = v.by_broadcaster h
  Step-by_broadcaster (accepts c mt msg ev e f) h = v.by_broadcaster h
  Step-by_broadcaster (read_fails c e) h = v.by_broadcaster h
  Step-by_broadcaster (sends c ev e f l) h = v.by_broadcaster h
  Step-by_broadcaster (send_panics c ev e f) h = v.by_broadcaster h
  Step-by_broadcaster (gives_up c ev e f) h = v.by_broadcaster h
  Step-by_broadcaster (locks_to_leave c e m) h = absurd (cc h)
  Step-by_broadcaster (leaves c e) h = absurd (cc h)
  Step-by_broadcaster (begins cmd rest e f m) h = absurd (cc h)
  Step-by_broadcaster (writes c r e i n) h = absurd (cc (v.by_broadcaster h, ap is_deleting e))
  Step-by_broadcaster (write_fails c r e i n) h = absurd (cc h)
  Step-by_broadcaster (locks_to_drop c r e m) h = refl
  Step-by_broadcaster (deletes c r e) h = absurd (cc h)
  Step-by_broadcaster (relocks r e m) h = absurd (cc h)
  Step-by_broadcaster (ends_broadcast r e a) h = absurd (cc h)
  Step-by_broadcaster (begins_pings e m) h = absurd (cc h)
  Step-by_broadcaster (ends_pings e) h = absurd (cc h)
  Step-by_broadcaster (stops e f) h = absurd (cc (v.by_broadcaster h, ap is_deleting e))
  Step-by_broadcaster (commands l) h = v.by_broadcaster h
  Step-by_broadcaster (consumes e rest f) h = v.by_broadcaster h
  Step-by_broadcaster cancels h = v.by_broadcaster h
  Step-by_broadcaster (closes e f) h = v.by_broadcaster h

  Step-by_handler :
      {t : Server}
      → Step s t
      → (k : ℕ) → t.mu ≡ write_locked (handler k)
      → in_lock (t.handlers k) ≡ true
  Step-by_handler (upgrades c e) k h = ground (arith, v.by_handler k)
  Step-by_handler (locks_to_register c e m) k h = ground (arith, h)
  Step-by_handler (registers c e) k h = absurd (cc h)
  Step-by_handler (skips c mt msg e f) k h = v.by_handler k h
  Step-by_handler (accepts c mt msg ev e f) k h = ground (arith, v.by_handler k)
  Step-by_handler (read_fails c e) k h = ground (arith, v.by_handler k)
  Step-by_handler (sends c ev e f l) k h = ground (arith, v.by_handler k)
  Step-by_handler (send_panics c ev e f) k h = v.by_handler k h
  Step-by_handler (gives_up c ev e f) k h = ground (arith, v.by_handler k)
  Step-by_handler (locks_to_leave c e m) k h = ground (arith, h)
  Step-by_handler (leaves c e) k h = absurd (cc h)
  Step-by_handler (begins cmd rest e f m) k h = absurd (cc h)
  Step-by_handler (writes c r e i n) k h = v.by_handler k h
  Step-by_handler (write_fails c r e i n) k h = absurd (cc h)
  Step-by_handler (locks_to_drop c r e m) k h = absurd (cc h)
  Step-by_handler (deletes c r e) k h = absurd (cc h)
  Step-by_handler (relocks r e m) k h = absurd (cc h)
  Step-by_handler (ends_broadcast r e a) k h = absurd (cc h)
  Step-by_handler (begins_pings e m) k h = absurd (cc h)
  Step-by_handler (ends_pings e) k h = absurd (cc h)
  Step-by_handler (stops e f) k h = v.by_handler k h
  Step-by_handler (commands l) k h = v.by_handler k h
  Step-by_handler (consumes e rest f) k h = v.by_handler k h
  Step-by_handler cancels k h = v.by_handler k h
  Step-by_handler (closes e f) k h = v.by_handler k h

  Step-IsHeld : {t : Server} → Step s t → IsHeld t
  Step-IsHeld mv = record {
    by_reader = Step-by_reader mv;
    by_broadcaster = Step-by_broadcaster mv;
    by_handler = Step-by_handler mv;
  }

Reach-IsHeld : {buf : ℕ} {s : Server} → Reach buf s → IsHeld s
Reach-IsHeld start = record {
  by_reader = λ h. cc;
  by_broadcaster = λ h. cc;
  by_handler = λ c h. cc;
}
Reach-IsHeld (later r mv) = Step-IsHeld (Reach-IsHeld r) mv

abbrev pub FreesNext : Server → Type 0
FreesNext s = (t : Server) × Step s t × (t.mu ≡ free)

-- In its loop of writes the broadcaster frees the mutex at the end of the loop, which it reaches
-- when it has come to all connections, and at a write that fails.
abbrev pub IsWriting : Server → Type 0
IsWriting s =
    (r : Round) × (s.broadcast ≡ writing r)
    × (((c : ℕ) → s.conns c ≡ true → r.seen c ≡ true) → FreesNext s)
    × ((c : ℕ) → s.conns c ≡ true → r.seen c ≡ false → FreesNext s)

-- The mutex is free, or one step of its holder frees it, or the broadcaster is in its loop of
-- writes.
abbrev pub Releases : Server → Type 0
Releases s = (s.mu ≡ free) ⊎ (FreesNext s ⊎ IsWriting s)

handler-Releases :
    {s : Server} (c : ℕ) (pc : HandlerPc) → s.handlers c ≡ pc → in_lock pc ≡ true → Releases s
handler-Releases c registering_locked e h = inr (inl (_, registers c e, refl))
handler-Releases c leaving_locked e h = inr (inl (_, leaves c e, refl))
handler-Releases c _ e h = absurd (cc h)

reader-Releases : {s : Server} (b : BroadcastPc) → s.broadcast ≡ b → in_read b ≡ true → Releases s
reader-Releases (writing r) e h = inr (
    inr (
      r,
      e,
      (λ all. (_, ends_broadcast r e (λ c _ here. all c here), refl)),
      λ c here new. (_, write_fails c r e here new, refl),
    ))
reader-Releases pinging e h = inr (inl (_, ends_pings e, refl))
reader-Releases _ e h = absurd (cc h)

deleter-Releases :
    {s : Server} (b : BroadcastPc) → s.broadcast ≡ b → is_deleting b ≡ true → Releases s
deleter-Releases (deleting c r) e h = inr (inl (_, deletes c r e, refl))
deleter-Releases _ e h = absurd (cc h)

held-Releases : {s : Server} → IsHeld s → (m : Mutex) → s.mu ≡ m → Releases s
held-Releases v free e = inl e
held-Releases {s} v read_locked e = reader-Releases s.broadcast refl (v.by_reader e)
held-Releases {s} v (write_locked broadcaster) e =
    deleter-Releases s.broadcast refl (v.by_broadcaster e)
held-Releases {s} v (write_locked (handler c)) e =
    handler-Releases c (s.handlers c) refl (v.by_handler c e)

-- In every reachable state of the server the mutex is free, or whoever holds it can give it back by
-- its next step, or the broadcaster is in its loop of writes, where it gives the mutex back when it
-- has come to all connections that are registered, and otherwise at any write that fails.
pub Reach-Releases : {buf : ℕ} {s : Server} → Reach buf s → Releases s
Reach-Releases {s = s} r = held-Releases (Reach-IsHeld r) s.mu refl
