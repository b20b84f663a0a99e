-- ===== src/Backend/Server/Delivery.antt =====
-- HydraWSServer of MedusaBackend/WSServer.go: the events of one connection on their way to the
-- consumer.
use open_anti_cheat.Common.{
  ℕ, ◌≤◌, ◌≡◌, refl, sym, ap, subst, ◌∙◌, true, false, Bool-cases, ==_iff, inl, inr, List, [], ◌∷◌,
  ◌++◌, append-nil, map, length, ◌==◌, if◌then◌else◌, arith,
}
use open_anti_cheat.Event.{AcEvent}
use open_anti_cheat.Backend.Server.Registry.{Reach-in_order}
use open_anti_cheat.Backend.Server.{
  HandlerPc, absent, registering, registering_locked, reading, sending, leaving, leaving_locked,
  gone, put, Server, Step, Reach, start, later, upgrades, locks_to_register, registers, accepts,
  read_fails, sends, gives_up, locks_to_leave, leaves,
}

-- The events that the handlers took from their messages, and those that they put into `Recv`, each
-- with the connection.
abbrev pub taken_by : {s t : Server} → Step s t → List (ℕ × AcEvent) → List (ℕ × AcEvent)
taken_by (accepts c mt msg e f g) l = l ++ (c, e) ∷ []
taken_by _ l = l

abbrev pub taken : {buf : ℕ} {s : Server} → Reach buf s → List (ℕ × AcEvent)
taken start = []
taken (later r st) = taken_by st (taken r)

abbrev given_by : {s t : Server} → Step s t → List (ℕ × AcEvent) → List (ℕ × AcEvent)
given_by (sends c e f o l) g = g ++ (c, e) ∷ []
given_by _ g = g

abbrev pub given : {buf : ℕ} {s : Server} → Reach buf s → List (ℕ × AcEvent)
given start = []
given (later r st) = given_by st (given r)

abbrev pub event_of : ℕ × AcEvent → AcEvent
event_of p = p.1

map-snoc :
    (g : List (ℕ × AcEvent)) (p : ℕ × AcEvent)
    → map event_of (g ++ p ∷ []) ≡ map event_of g ++ p.1 ∷ []
map-snoc [] p = refl
map-snoc (x ∷ g) p = ap (◌∷◌ x.1) (map-snoc g p)

Step-given :
    {s t : Server} (st : Step s t) (g : List (ℕ × AcEvent))
    → map event_of g ≡ s.sent
    → map event_of (given_by st g) ≡ t.sent
Step-given (sends c e f o l) g h = map-snoc g (c, e) ∙ ap (λ q. q ++ e ∷ []) h
Step-given mv g h = h

module _ (c : ℕ) where
  -- The events of the connection.
  abbrev pub of_conn : List (ℕ × AcEvent) → List AcEvent
  of_conn [] = []
  of_conn ((k, e) ∷ l) = if k == c then e ∷ of_conn l else of_conn l

  pub of_conn-own :
      (l : List (ℕ × AcEvent)) (k : ℕ) (e : AcEvent)
      → (k == c) ≡ true
      → of_conn (l ++ (k, e) ∷ []) ≡ of_conn l ++ e ∷ []
  of_conn-own [] k e t = rw (t) refl
  of_conn-own ((m, d) ∷ l) k e t = elim (Bool-cases (m == c)) [
    | inl u ↦ rw (u) (ap (◌∷◌ d) (of_conn-own l k e t))
    | inr u ↦ rw (u) (of_conn-own l k e t)
  ]

  pub of_conn-other :
      (l : List (ℕ × AcEvent)) (k : ℕ) (e : AcEvent)
      → (k == c) ≡ false
      → of_conn (l ++ (k, e) ∷ []) ≡ of_conn l
  of_conn-other [] k e t = rw (t) refl
  of_conn-other ((m, d) ∷ l) k e t = elim (Bool-cases (m == c)) [
    | inl u ↦ rw (u) (ap (◌∷◌ d) (of_conn-other l k e t))
    | inr u ↦ rw (u) (of_conn-other l k e t)
  ]

  -- What a handler has taken and not given.
  abbrev Owes : HandlerPc → List AcEvent → Type 0
  Owes (sending e) tail = tail ≡ e ∷ []
  Owes leaving tail = length tail ≤ 1
  Owes leaving_locked tail = length tail ≤ 1
  Owes gone tail = length tail ≤ 1
  Owes _ tail = tail ≡ []

  record IsDelivering (h : HandlerPc) (l g : List (ℕ × AcEvent)) : Type 0 where
    tail : List AcEvent
    whole : of_conn l ≡ of_conn g ++ tail
    owes : Owes h tail

  module _ (handlers : ℕ → HandlerPc) (k : ℕ) {l g : List (ℕ × AcEvent)} where
    -- A handler that was at `old` is the one of the connection, or another.
    own :
        {old : HandlerPc}
        → handlers k ≡ old
        → (k == c) ≡ true
        → IsDelivering (handlers c) l g
        → IsDelivering old l g
    own e t v = subst (λ h. IsDelivering h l g) (ap handlers (sym ((==_iff k c).0 t)) ∙ e) v

    IsDelivering-moves :
        (old new : HandlerPc)
        → handlers k ≡ old
        → ((tail : List AcEvent) → Owes old tail → Owes new tail)
        → IsDelivering (handlers c) l g
        → IsDelivering (put handlers k new c) l g
    IsDelivering-moves old new e step v = elim (Bool-cases (k == c)) [
      | inl t ↦
          let w = own e t v in
          rw (t) (record { tail = w.tail; whole = w.whole; owes = step w.tail w.owes })
      | inr t ↦ rw (t) v
    ]

    IsDelivering-accepts :
        (ev : AcEvent)
        → handlers k ≡ reading
        → IsDelivering (handlers c) l g
        → IsDelivering (put handlers k (sending ev) c) (l ++ (k, ev) ∷ []) g
    IsDelivering-accepts ev e v = elim (Bool-cases (k == c)) [
      | inl t ↦
          let w = own e t v in
          rw (t) (record {
            tail = ev ∷ [];
            whole =
                of_conn-own l k ev t
                ∙ ap (λ q. q ++ ev ∷ [])
                    (w.whole ∙ (ap (λ q. of_conn g ++ q) w.owes ∙ append-nil (of_conn g)));
            owes = refl;
          })
      | inr t ↦
          rw (t) (record { tail = v.tail; whole = of_conn-other l k ev t ∙ v.whole; owes = v.owes })
    ]

    IsDelivering-sends :
        (ev : AcEvent)
        → handlers k ≡ sending ev
        → IsDelivering (handlers c) l g
        → IsDelivering (put handlers k reading c) l (g ++ (k, ev) ∷ [])
    IsDelivering-sends ev e v = elim (Bool-cases (k == c)) [
      | inl t ↦
          let w = own e t v in
          rw (t) (record {
            tail = [];
            whole =
                w.whole
                ∙ (ap (λ q. of_conn g ++ q) w.owes
                    ∙ (sym (of_conn-own g k ev t) ∙ sym (append-nil _)));
            owes = refl;
          })
      | inr t ↦ rw (t) (record {
        tail = v.tail;
        whole = v.whole ∙ ap (λ q. q ++ v.tail) (sym (of_conn-other g k ev t));
        owes = v.owes;
      })
    ]

  none_owed : (tail : List AcEvent) → tail ≡ [] → length tail ≤ 1
  none_owed tail e = rw e (omega arith)

  one_owed : (ev : AcEvent) (tail : List AcEvent) → tail ≡ ev ∷ [] → length tail ≤ 1
  one_owed ev tail e = rw e (omega arith)

  Step-IsDelivering :
      {s t : Server} (st : Step s t) (l g : List (ℕ × AcEvent))
      → IsDelivering (s.handlers c) l g
      → IsDelivering (t.handlers c) (taken_by st l) (given_by st g)
  Step-IsDelivering {s} (upgrades k e) l g v =
      IsDelivering-moves s.handlers k absent registering e (λ q o. o) v
  Step-IsDelivering {s} (locks_to_register k e m) l g v =
      IsDelivering-moves s.handlers k registering registering_locked e (λ q o. o) v
  Step-IsDelivering {s} (registers k e) l g v =
      IsDelivering-moves s.handlers k registering_locked reading e (λ q o. o) v
  Step-IsDelivering {s} (accepts k mt msg ev e f) l g v = IsDelivering-accepts s.handlers k ev e v
  Step-IsDelivering {s} (read_fails k e) l g v =
      IsDelivering-moves s.handlers k reading leaving e none_owed v
  Step-IsDelivering {s} (sends k ev e f r) l g v = IsDelivering-sends s.handlers k ev e v
  Step-IsDelivering {s} (gives_up k ev e f) l g v =
      IsDelivering-moves s.handlers k (sending ev) leaving e (one_owed ev) v
  Step-IsDelivering {s} (locks_to_leave k e m) l g v =
      IsDelivering-moves s.handlers k leaving leaving_locked e (λ q o. o) v
  Step-IsDelivering {s} (leaves k e) l g v =
      IsDelivering-moves s.handlers k leaving_locked gone e (λ q o. o) v
  Step-IsDelivering mv l g v = v

  Reach-IsDelivering :
      {buf : ℕ} {s : Server} (r : Reach buf s) → IsDelivering (s.handlers c) (taken r) (given r)
  Reach-IsDelivering start = record { tail = []; whole = refl; owes = refl }
  Reach-IsDelivering (later r st) = Step-IsDelivering st (taken r) (given r) (Reach-IsDelivering r)

  Owes-short : (h : HandlerPc) (tail : List AcEvent) → Owes h tail → length tail ≤ 1
  Owes-short absent tail o = none_owed tail o
  Owes-short registering tail o = none_owed tail o
  Owes-short registering_locked tail o = none_owed tail o
  Owes-short reading tail o = none_owed tail o
  Owes-short (sending e) tail o = one_owed e tail o
  Owes-short leaving tail o = o
  Owes-short leaving_locked tail o = o
  Owes-short gone tail o = o

Reach-given : {buf : ℕ} {s : Server} (r : Reach buf s) → map event_of (given r) ≡ s.sent
Reach-given start = refl
Reach-given (later r st) = Step-given st (given r) (Reach-given r)

-- In every state that the server can reach, the consumer has got, and then `Recv` holds, the events
-- that the handlers have put there, in that order, and for each connection these are, in order, the
-- events that its handler has taken from messages, but for one at most, the last.
pub Reach-delivers :
    {buf : ℕ} {s : Server} (r : Reach buf s)
    → (map event_of (given r) ≡ s.consumed ++ s.recv)
      × ((c : ℕ)
          → (tail : List AcEvent) × (of_conn c (taken r) ≡ of_conn c (given r) ++ tail)
            × (length tail ≤ 1))
Reach-delivers {s = s} r = (
  Reach-given r ∙ (Reach-in_order r).0,
  λ c.
      let v = Reach-IsDelivering c r in
      (v.tail, v.whole, Owes-short c (s.handlers c) v.tail v.owes),
)
