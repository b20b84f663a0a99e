-- ===== src/Backend/Server/Registry.antt =====
-- HydraWSServer of MedusaBackend/WSServer.go: what the map of connections and the channels hold.
use open_anti_cheat.Common.{
  ℕ, ◌≤◌, ◌≡◌, refl, sym, ap, subst, some-injective, ◌∙◌, Bool, true, false, none, some, List, [],
  ◌∷◌, ◌++◌, length, length-snoc, append_assoc, All, All-append, ◌==◌, ◌&&◌, if◌then◌else◌, ◌⊎◌,
  inl, inr, ==_iff, arith,
}
use open_anti_cheat.Event.{AcEvent, event_size, event_of_bytes}
use open_anti_cheat.Backend.Server.{
  HandlerPc, registering, registering_locked, reading, sending, leaving, leaving_locked, gone,
  accept, binary_message, put, scan_dll, Server, Step, Reach, start, later, upgrades,
  locks_to_register, registers, accepts, read_fails, sends, gives_up, locks_to_leave, leaves,
  commands, begins, deletes, consumes,
}

-- The handler is past its registration and has not returned.
abbrev pub is_serving : HandlerPc → Bool
is_serving reading = true
is_serving (sending e) = true
is_serving leaving = true
is_serving leaving_locked = true
is_serving _ = false

-- An event that is the image of a whole message.
abbrev pub IsImage : AcEvent → Type 0
IsImage e = (msg : List ℕ) × (length msg ≡ event_size) × (e ≡ event_of_bytes msg)

-- The channel of commands carries nothing but `"scanDLL"`.
abbrev pub Command : List ℕ → Type 0
Command cmd = cmd ≡ scan_dll

record IsRegistry (buf : ℕ) (s : Server) : Type 0 where
  registered : (c : ℕ) → s.conns c ≡ true → is_serving (s.handlers c) ≡ true
  capacity : s.capacity ≡ buf
  within : (length s.recv ≤ buf) × (length s.send_text ≤ buf)
  in_order : s.sent ≡ s.consumed ++ s.recv
  whole : All IsImage s.sent
  held : (c : ℕ) (e : AcEvent) → s.handlers c ≡ sending e → IsImage e
  commands : All Command s.send_text

and_true : (a b : Bool) → (a && b) ≡ true → (a ≡ true) × (b ≡ true)
and_true true b h = (refl, h)
and_true false b h = absurd (cc h)

if_some {ℓ} :
    {A : Type ℓ} (b : Bool) (x y : A) → (if b then some x else none) ≡ some y → (b ≡ true) × (x ≡ y)
if_some true x y h = (refl, some-injective x y h)
if_some false x y h = absurd (cc h)

accept-IsImage : (mt : ℕ) (msg : List ℕ) (e : AcEvent) → accept mt msg ≡ some e → IsImage e
unfolding accept
accept-IsImage mt msg e h =
    let fits =
      if_some (mt == binary_message && length msg == event_size) (event_of_bytes msg) e h in
    let size = and_true (mt == binary_message) (length msg == event_size) fits.0 in
    (msg, (==_iff (length msg) event_size).0 size.1, sym fits.1)

put_cases {ℓ} :
    {A : Type ℓ} (f : ℕ → A) (c : ℕ) (a : A) (k : ℕ) (b : A) → put f c a k ≡ b → (a ≡ b) ⊎ (f k ≡ b)
put_cases f c a k b h = ground arith

All-front : (xs ys : List AcEvent) → All IsImage (xs ++ ys) → All IsImage xs
All-front [] ys h = tt
All-front (x ∷ xs) ys h = (h.0, All-front xs ys h.1)

module _ {buf : ℕ} {s : Server} (v : IsRegistry buf s) where
  Step-registered :
      {t : Server} → Step s t → (k : ℕ) → t.conns k ≡ true → is_serving (t.handlers k) ≡ true
  Step-registered (upgrades c e) k h = ground (arith, v.registered k)
  Step-registered (locks_to_register c e m) k h = ground (arith, v.registered k)
  Step-registered (registers c e) k h = ground (arith, v.registered k)
  Step-registered (accepts c mt msg ev e f) k h = ground (arith, v.registered k)
  Step-registered (read_fails c e) k h = ground (arith, v.registered k)
  Step-registered (sends c ev e f l) k h = ground (arith, v.registered k)
  Step-registered (gives_up c ev e f) k h = ground (arith, v.registered k)
  Step-registered (locks_to_leave c e m) k h = ground (arith, v.registered k)
  Step-registered (leaves c e) k h = ground (arith, v.registered k)
  Step-registered (deletes c r e) k h = ground (arith, v.registered k)
  Step-registered mv k h = v.registered k h

  Step-capacity : {t : Server} → Step s t → t.capacity ≡ buf
  Step-capacity (sends c ev e f l) = v.capacity
  Step-capacity mv = v.capacity

  Step-within : {t : Server} → Step s t → (length t.recv ≤ buf) × (length t.send_text ≤ buf)
  Step-within (sends c ev e f l) = (omega (arith, length-snoc s.recv ev, v.capacity), v.within.1)
  Step-within (begins cmd rest e f m) = (v.within.0, omega (arith, ap length f, v.within.1))
  Step-within (commands l) =
      (v.within.0, omega (arith, length-snoc s.send_text scan_dll, v.capacity))
  Step-within (consumes e rest f) = (omega (arith, ap length f, v.within.0), v.within.1)
  Step-within mv = v.within

  Step-in_order : {t : Server} → Step s t → t.sent ≡ t.consumed ++ t.recv
  Step-in_order (sends c ev e f l) = rw (v.in_order) (append_assoc s.consumed s.recv (ev ∷ []))
  Step-in_order (consumes e rest f) =
      v.in_order ∙ (ap (λ r. s.consumed ++ r) f ∙ sym (append_assoc s.consumed (e ∷ []) rest))
  Step-in_order mv = v.in_order

  Step-whole : {t : Server} → Step s t → All IsImage t.sent
  Step-whole (sends c ev e f l) = All-append IsImage s.sent (ev ∷ []) v.whole (v.held c ev e, tt)
  Step-whole mv = v.whole

  held_put :
      (c : ℕ) (pc : HandlerPc)
      → ((ev : AcEvent) → pc ≡ sending ev → IsImage ev)
      → (k : ℕ) (ev : AcEvent) → put s.handlers c pc k ≡ sending ev
      → IsImage ev
  held_put c pc w k ev h = elim (put_cases s.handlers c pc k (sending ev) h) [
    | inl d ↦ w ev d
    | inr d ↦ v.held k ev d
  ]

  Step-held :
      {t : Server} → Step s t → (k : ℕ) (ev : AcEvent) → t.handlers k ≡ sending ev → IsImage ev
  Step-held (upgrades c e) = held_put c registering (λ ev d. absurd (cc d))
  Step-held (locks_to_register c e m) = held_put c registering_locked (λ ev d. absurd (cc d))
  Step-held (registers c e) = held_put c reading (λ ev d. absurd (cc d))
  Step-held (accepts c mt msg e' e f) =
      held_put c (sending e') (λ ev d. accept-IsImage mt msg ev (f ∙ cc d))
  Step-held (read_fails c e) = held_put c leaving (λ ev d. absurd (cc d))
  Step-held (sends c ev' e f l) = held_put c reading (λ ev d. absurd (cc d))
  Step-held (gives_up c ev' e f) = held_put c leaving (λ ev d. absurd (cc d))
  Step-held (locks_to_leave c e m) = held_put c leaving_locked (λ ev d. absurd (cc d))
  Step-held (leaves c e) = held_put c gone (λ ev d. absurd (cc d))
  Step-held mv = v.held

  Step-commands : {t : Server} → Step s t → All Command t.send_text
  Step-commands (begins cmd rest e f m) = (subst (All Command) f v.commands).1
  Step-commands (commands l) = All-append Command s.send_text (scan_dll ∷ []) v.commands (refl, tt)
  Step-commands mv = v.commands

  Step-IsRegistry : {t : Server} → Step s t → IsRegistry buf t
  Step-IsRegistry mv = record {
    registered = Step-registered mv;
    capacity = Step-capacity mv;
    within = Step-within mv;
    in_order = Step-in_order mv;
    whole = Step-whole mv;
    held = Step-held mv;
    commands = Step-commands mv;
  }

Reach-IsRegistry : {buf : ℕ} {s : Server} → Reach buf s → IsRegistry buf s
Reach-IsRegistry start = record {
  registered = λ c h. cc;
  capacity = refl;
  within = (omega arith, omega arith);
  in_order = refl;
  whole = tt;
  held = λ c e h. cc;
  commands = tt;
}
Reach-IsRegistry (later r mv) = Step-IsRegistry (Reach-IsRegistry r) mv

-- What the consumer has taken, followed by what waits in `Recv`, is what the handlers have sent, in
-- the order of their sends; `Recv` never holds more than its capacity, nor does `SendText`.
pub Reach-in_order :
    {buf : ℕ} {s : Server}
    → Reach buf s
    → (s.sent ≡ s.consumed ++ s.recv) × (length s.recv ≤ buf) × (length s.send_text ≤ buf)
Reach-in_order r =
    ((Reach-IsRegistry r).in_order, (Reach-IsRegistry r).within.0, (Reach-IsRegistry r).within.1)

-- Every event that the consumer takes is the image of a binary message of exactly the size of an
-- event.
pub Reach-whole : {buf : ℕ} {s : Server} → Reach buf s → All IsImage s.consumed
Reach-whole {buf} {s} r =
    All-front s.consumed s.recv
      (subst (All IsImage) (Reach-IsRegistry r).in_order (Reach-IsRegistry r).whole)

-- A registered connection has a handler that has been through its registration and has not
-- returned: a handler that returns leaves no entry behind.
pub Reach-registered :
    {buf : ℕ} {s : Server}
    → Reach buf s
    → (c : ℕ) → s.conns c ≡ true
    → is_serving (s.handlers c) ≡ true
Reach-registered r = (Reach-IsRegistry r).registered

pub Reach-commands : {buf : ℕ} {s : Server} → Reach buf s → All Command s.send_text
Reach-commands r = (Reach-IsRegistry r).commands
