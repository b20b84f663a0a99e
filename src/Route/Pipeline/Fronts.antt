-- ===== src/Route/Pipeline/Fronts.antt =====
-- The frames of HydraWS of MedusaUserlandAgent/WebSocketWorker.go that handleWS of
-- MedusaBackend/WSServer.go has read.
use open_anti_cheat.Common.{
  ℕ, ◌≡◌, refl, sym, ap, subst, ◌∙◌, Bool-cases, ==_iff, inl, inr, none, some, List, [], ◌∷◌, ◌++◌,
  append-nil, append_assoc, ◌==◌,
}
use open_anti_cheat.Event.{AcEvent}
use open_anti_cheat.Agent.Client.Frame.{WsFrame}
use open_anti_cheat.Agent.Client.Session
use open_anti_cheat.Agent.Client.Session.{Client, writer_writes}
use open_anti_cheat.Agent.Client.Session.Frames.{on, on-append, on-snoc, on-snoc_other}
use open_anti_cheat.Backend.Server
use open_anti_cheat.Backend.Server.{skips, accepts, accept}
use open_anti_cheat.Backend.Server.Delivery
use open_anti_cheat.Backend.Server.Delivery.{
  of_conn, of_conn-own, of_conn-other, taken, given, event_of, Reach-delivers,
}
use open_anti_cheat.Route.Pipeline.{
  Joint, begins, client_moves, server_moves, server_run, read_by, IsNext, Arrives, event_list,
  events_in,
}

-- A step of the client writes a frame behind the others, or none.
Step-written :
    {a b : Client}
    → Session.Step a b
    → (more : List (ℕ × WsFrame)) × (b.written ≡ a.written ++ more)
Step-written (writer_writes before after c f e o) = ((c, f) ∷ [], refl)
Step-written {a} mv = ([], sym (append-nil a.written))

pub events_in-append : (fs gs : List WsFrame) → events_in (fs ++ gs) ≡ events_in fs ++ events_in gs
events_in-append [] gs = refl
events_in-append (f ∷ fs) gs =
    ap (λ es. event_list (accept f.mt f.payload) ++ es) (events_in-append fs gs)
    ∙ sym (append_assoc (event_list (accept f.mt f.payload)) (events_in fs) (events_in gs))

module _ (c : ℕ) where
  -- What the handler of the connection has read is the front of what was written on it.
  abbrev pub IsFront : List (ℕ × WsFrame) → List (ℕ × WsFrame) → Type 0
  IsFront written l = (rest : List WsFrame) × (on c written ≡ on c l ++ rest)

  IsFront-write :
      (written more l : List (ℕ × WsFrame)) → IsFront written l → IsFront (written ++ more) l
  IsFront-write written more l (rest, e) = (
    rest ++ on c more,
    on-append c written more
        ∙ (ap (λ fs. fs ++ on c more) e ∙ append_assoc (on c l) rest (on c more)),
  )

  IsFront-read :
      (written l : List (ℕ × WsFrame)) (k : ℕ) (f : WsFrame)
      → IsNext written l k f
      → IsFront written l
      → IsFront written (l ++ (k, f) ∷ [])
  IsFront-read written l k f (rest, e) (old, e') = elim (Bool-cases (k == c)) [
    | inl t ↦ (
      rest,
      subst (λ m. on m written ≡ on m l ++ f ∷ rest) ((==_iff k c).0 t) e
          ∙ (sym (append_assoc (on c l) (f ∷ []) rest)
              ∙ ap (λ fs. fs ++ rest) (sym (on-snoc c l k f t))),
    )
    | inr t ↦ (old, e' ∙ ap (λ fs. fs ++ old) (sym (on-snoc_other c l k f t)))
  ]

  Step-IsFront :
      {s t : Server.Server} (st : Server.Step s t) (written l : List (ℕ × WsFrame))
      → Arrives st written l
      → IsFront written l
      → IsFront written (read_by st l)
  Step-IsFront (skips k mt msg e f) written l h v = IsFront-read written l k _ h v
  Step-IsFront (accepts k mt msg ev e f) written l h v = IsFront-read written l k _ h v
  Step-IsFront mv written l h v = v

  -- The handler has taken just the events of what it has read.
  abbrev pub IsRead : List (ℕ × AcEvent) → List (ℕ × WsFrame) → Type 0
  IsRead es l = of_conn c es ≡ events_in (on c l)

  IsRead-skip :
      (es : List (ℕ × AcEvent)) (l : List (ℕ × WsFrame)) (k : ℕ) (f : WsFrame)
      → accept f.mt f.payload ≡ none
      → IsRead es l
      → IsRead es (l ++ (k, f) ∷ [])
  IsRead-skip es l k f o v = elim (Bool-cases (k == c)) [
    | inl t ↦
        v
        ∙ (sym (append-nil (events_in (on c l)))
            ∙ (ap (λ x. events_in (on c l) ++ (event_list x ++ [])) (sym o)
                ∙ (sym (events_in-append (on c l) (f ∷ []))
                    ∙ ap events_in (sym (on-snoc c l k f t)))))
    | inr t ↦ v ∙ ap events_in (sym (on-snoc_other c l k f t))
  ]

  IsRead-accept :
      (es : List (ℕ × AcEvent)) (l : List (ℕ × WsFrame)) (k : ℕ) (f : WsFrame) (ev : AcEvent)
      → accept f.mt f.payload ≡ some ev
      → IsRead es l
      → IsRead (es ++ (k, ev) ∷ []) (l ++ (k, f) ∷ [])
  IsRead-accept es l k f ev o v = elim (Bool-cases (k == c)) [
    | inl t ↦
        of_conn-own c es k ev t
        ∙ (ap (λ q. q ++ ev ∷ []) v
            ∙ (ap (λ x. events_in (on c l) ++ (event_list x ++ [])) (sym o)
                ∙ (sym (events_in-append (on c l) (f ∷ []))
                    ∙ ap events_in (sym (on-snoc c l k f t)))))
    | inr t ↦ of_conn-other c es k ev t ∙ (v ∙ ap events_in (sym (on-snoc_other c l k f t)))
  ]

  Step-IsRead :
      {s t : Server.Server} (st : Server.Step s t) (es : List (ℕ × AcEvent))
      (l : List (ℕ × WsFrame))
      → IsRead es l
      → IsRead (Delivery.taken_by st es) (read_by st l)
  Step-IsRead (skips k mt msg e f) es l v = IsRead-skip es l k _ f v
  Step-IsRead (accepts k mt msg ev e f) es l v = IsRead-accept es l k _ ev f v
  Step-IsRead mv es l v = v

  module _ {buf : ℕ} where
    pub Joint-IsFront :
        {a : Client} {s : Server.Server} {l : List (ℕ × WsFrame)}
        → Joint buf a s l
        → IsFront a.written l
    Joint-IsFront begins = ([], refl)
    Joint-IsFront (client_moves {a} {b} {s} {l} j st) =
        let (more, e) = Step-written st in
        subst (λ w. IsFront w l) (sym e) (IsFront-write a.written more l (Joint-IsFront j))
    Joint-IsFront (server_moves {a} {s} {t} {l} j st h) =
        Step-IsFront st a.written l h (Joint-IsFront j)

    pub Joint-IsRead :
        {a : Client} {s : Server.Server} {l : List (ℕ × WsFrame)} (j : Joint buf a s l)
        → IsRead (taken (server_run j)) l
    Joint-IsRead begins = refl
    Joint-IsRead (client_moves j st) = Joint-IsRead j
    Joint-IsRead (server_moves {a} {s} {t} {l} j st h) =
        Step-IsRead st (taken (server_run j)) l (Joint-IsRead j)
