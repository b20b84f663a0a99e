-- ===== src/Agent/Client/Session/Closing.antt =====
-- HydraWS of MedusaUserlandAgent/WebSocketWorker.go: what Close leaves, and the sends that can
-- panic.
use open_anti_cheat.Common.{
  ℕ, ◌≡◌, ◌≢◌, refl, sym, ◌∙◌, Bool, true, false, Bool-cases, inl, inr, Option, none, some, List,
  [], ◌∷◌, ◌++◌, arith,
}
use open_anti_cheat.Agent.Client.Session.{
  pump_stopped, run_dialing, run_stopped, close_done, close_conn, Client, Writer, init, idle,
  holder, Step, Reach, start, later, pump_receives, pump_sends, pump_panics, pump_ends,
  pump_gives_up, json_panics, dial_succeeds, dial_cancelled, session_ends, writer_starts,
  writer_finds_none, writer_takes, writer_writes, writer_fails, writer_ends, writer_sees_end,
  close_cancels, close_drops_conn, close_returns,
}

pub record IsClean (s : Client) : Type 0 where
  pub held_open : (c : ℕ) → s.is_open c ≡ true → s.conn ≡ some c
  pub dialing : s.run ≡ run_dialing → s.conn ≡ none
  pub stopped : s.run ≡ run_stopped → s.conn ≡ none
  pub closed :
      s.send_closed ≡ true
      → (s.pump ≡ pump_stopped) × (s.run ≡ run_stopped) × (s.writers ≡ []) × (s.starting ≡ 0)
  pub returned : s.close ≡ close_done → s.send_closed ≡ true
  pub panics : s.panicked ≡ true → s.send_closed ≡ true

not_split : (before after : List Writer) (w : Writer) → [] ≢ before ++ (w ∷ after)
not_split [] after w e = cc
not_split (b ∷ before) after w e = cc

-- Closing what `conn` names closes all that is open.
close_conn_all :
    (conn : Option ℕ) (is_open : ℕ → Bool)
    → ((c : ℕ) → is_open c ≡ true → conn ≡ some c)
    → (c : ℕ) → close_conn conn is_open c ≡ false
close_conn_all none is_open h c = ground (arith, h c)
close_conn_all (some k) is_open h c = ground (arith, h c)

module _ {s : Client} (v : IsClean s) where
  Step-held_open : {t : Client} → Step s t → (c : ℕ) → t.is_open c ≡ true → t.conn ≡ some c
  Step-held_open (dial_succeeds e) c o = ground (arith, v.held_open c, v.dialing e)
  Step-held_open (session_ends k e) c o = cc (close_conn_all s.conn s.is_open v.held_open c)
  Step-held_open (close_drops_conn e) c o = cc (close_conn_all s.conn s.is_open v.held_open c)
  Step-held_open mv c o = v.held_open c o

  Step-dialing : {t : Client} → Step s t → t.run ≡ run_dialing → t.conn ≡ none
  Step-dialing (dial_succeeds e) r = cc
  Step-dialing (dial_cancelled e c) r = cc
  Step-dialing (session_ends k e) r = refl
  Step-dialing (close_drops_conn e) r = refl
  Step-dialing mv r = v.dialing r

  Step-stopped : {t : Client} → Step s t → t.run ≡ run_stopped → t.conn ≡ none
  Step-stopped (dial_succeeds e) r = cc
  Step-stopped (dial_cancelled e c) r = v.dialing e
  Step-stopped (session_ends k e) r = refl
  Step-stopped (close_drops_conn e) r = refl
  Step-stopped mv r = v.stopped r

  no_writer :
      (before after : List Writer) (w : Writer)
      → s.writers ≡ before ++ (w ∷ after)
      → ¬ (s.send_closed ≡ true)
  no_writer before after w e o = not_split before after w (sym (v.closed o).2 ∙ e)

  Step-closed :
      {t : Client}
      → Step s t
      → t.send_closed ≡ true
      → (t.pump ≡ pump_stopped) × (t.run ≡ run_stopped) × (t.writers ≡ []) × (t.starting ≡ 0)
  Step-closed (pump_receives f ef e) o = cc (e, (v.closed o).0)
  Step-closed (pump_sends f e c room) o = cc
  Step-closed (pump_ends e) o = cc (e, (v.closed o).0)
  Step-closed (pump_gives_up f e c) o = cc (e, (v.closed o).0)
  Step-closed (dial_succeeds e) o = cc (e, (v.closed o).1)
  Step-closed (dial_cancelled e c) o = cc (e, (v.closed o).1)
  Step-closed (session_ends k e) o = cc (e, (v.closed o).1)
  Step-closed (writer_starts n c e p) o = absurd (omega (arith, e, (v.closed o).3))
  Step-closed (writer_finds_none n e p) o = absurd (omega (arith, e, (v.closed o).3))
  Step-closed (writer_takes before after c f rest e q) o =
      absurd (no_writer before after (idle c) e o)
  Step-closed (writer_writes before after c f e p) o =
      absurd (no_writer before after (holder c f) e o)
  Step-closed (writer_fails before after c f e) o = absurd (no_writer before after (holder c f) e o)
  Step-closed (writer_ends before after c e p) o = absurd (no_writer before after (idle c) e o)
  Step-closed (writer_sees_end before after c e q p) o =
      absurd (no_writer before after (idle c) e o)
  Step-closed (close_returns e p r z w x y) o = (p, r, w, z)
  Step-closed mv o = v.closed o

  Step-returned : {t : Client} → Step s t → t.close ≡ close_done → t.send_closed ≡ true
  Step-returned (close_cancels e) d = cc
  Step-returned (close_drops_conn e) d = cc
  Step-returned (close_returns e p r z w x y) d = refl
  Step-returned mv d = v.returned d

  Step-panics : {t : Client} → Step s t → t.panicked ≡ true → t.send_closed ≡ true
  Step-panics (pump_panics f e o) h = o
  Step-panics (json_panics o) h = o
  Step-panics (close_returns e p r z w x y) h = refl
  Step-panics mv h = v.panics h

Step-IsClean : {s t : Client} → Step s t → IsClean s → IsClean t
Step-IsClean st v = record {
  held_open = Step-held_open v st;
  dialing = Step-dialing v st;
  stopped = Step-stopped v st;
  closed = Step-closed v st;
  returned = Step-returned v st;
  panics = Step-panics v st;
}

init-IsClean : IsClean init
init-IsClean = record {
  held_open = λ c o. cc;
  dialing = λ r. refl;
  stopped = λ r. refl;
  closed = λ o. cc;
  returned = λ d. cc;
  panics = λ h. cc;
}

pub Reach-IsClean : {s : Client} → Reach s → IsClean s
Reach-IsClean start = init-IsClean
Reach-IsClean (later r st) = Step-IsClean st (Reach-IsClean r)

-- In every reachable state in which Close has returned, every connection is closed, no write loop
-- runs or is yet to begin, and the pump has stopped.
pub Reach-closed :
    {s : Client}
    → Reach s
    → s.close ≡ close_done
    → ((c : ℕ) → s.is_open c ≡ false)
      × (s.writers ≡ [])
      × (s.starting ≡ 0)
      × (s.pump ≡ pump_stopped)
Reach-closed {s} r d =
    (shut, (v.closed (v.returned d)).2, (v.closed (v.returned d)).3, (v.closed (v.returned d)).0)
  where
    v : IsClean s
    v = Reach-IsClean r

    none_left : s.conn ≡ none
    none_left = v.stopped (v.closed (v.returned d)).1

    shut : (c : ℕ) → s.is_open c ≡ false
    shut c = elim (Bool-cases (s.is_open c)) [ inl o ↦ cc (v.held_open c o, none_left) | inr o ↦ o ]

-- Nothing panics before Close has closed the channel.
pub Reach-panicked : {s : Client} → Reach s → s.send_closed ≡ false → s.panicked ≡ false
Reach-panicked {s} r o = elim (Bool-cases s.panicked) [
  | inl h ↦ cc ((Reach-IsClean r).panics h)
  | inr h ↦ h
]
