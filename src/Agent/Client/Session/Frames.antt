-- ===== src/Agent/Client/Session/Frames.antt =====
-- The frames and the writers of one connection among those of all.
use open_anti_cheat.Common.{
  ℕ, suc, ◌+◌, ◌≤◌, ◌≡◌, refl, sym, ap, ◌∙◌, true, false, Bool-cases, inl, inr, Option, none, some,
  List, [], ◌∷◌, ◌++◌, append-nil, append_assoc, ◌==◌, if◌then◌else◌, arith,
}
use open_anti_cheat.Agent.Client.Session.{Writer}
use open_anti_cheat.Agent.Client.Frame.{WsFrame}

abbrev pub in_hand : Option WsFrame → List WsFrame
in_hand none = []
in_hand (some f) = f ∷ []

module _ (c : ℕ) where
  -- The frames of the connection.
  abbrev pub on : List (ℕ × WsFrame) → List WsFrame
  on [] = []
  on ((k, f) ∷ ps) = if k == c then f ∷ on ps else on ps

  -- The writers of the connection.
  abbrev pub count : List Writer → ℕ
  count [] = 0
  count (w ∷ ws) = if w.conn == c then suc (count ws) else count ws

  -- What they hold.
  abbrev pub held : List Writer → List WsFrame
  held [] = []
  held (w ∷ ws) = if w.conn == c then in_hand w.held ++ held ws else held ws

  pub on-append : (p q : List (ℕ × WsFrame)) → on (p ++ q) ≡ on p ++ on q
  on-append [] q = refl
  on-append ((k, f) ∷ p) q = elim (Bool-cases (k == c)) [
    | inl t ↦ rw (t) (ap (◌∷◌ f) (on-append p q))
    | inr t ↦ rw (t) (on-append p q)
  ]

  pub on-snoc :
      (ps : List (ℕ × WsFrame)) (k : ℕ) (f : WsFrame)
      → (k == c) ≡ true
      → on (ps ++ (k, f) ∷ []) ≡ on ps ++ f ∷ []
  on-snoc ps k f t = rw (on-append ps ((k, f) ∷ []), t) refl

  pub on-snoc_other :
      (ps : List (ℕ × WsFrame)) (k : ℕ) (f : WsFrame)
      → (k == c) ≡ false
      → on (ps ++ (k, f) ∷ []) ≡ on ps
  on-snoc_other ps k f t = rw (on-append ps ((k, f) ∷ []), t) (append-nil (on ps))

  count-append : (a b : List Writer) → count (a ++ b) ≡ count a + count b
  count-append [] b = omega arith
  count-append (w ∷ a) b = elim (Bool-cases (w.conn == c)) [
    | inl t ↦ rw (t) (omega (arith, count-append a b))
    | inr t ↦ rw (t) (count-append a b)
  ]

  held-append : (a b : List Writer) → held (a ++ b) ≡ held a ++ held b
  held-append [] b = refl
  held-append (w ∷ a) b = elim (Bool-cases (w.conn == c)) [
    | inl t ↦ rw (t) (
        ap (λ h. in_hand w.held ++ h) (held-append a b)
        ∙ sym (append_assoc (in_hand w.held) (held a) (held b)))
    | inr t ↦ rw (t) (held-append a b)
  ]

  pub held-none : (ws : List Writer) → count ws ≡ 0 → held ws ≡ []
  held-none [] h = refl
  held-none (w ∷ ws) h = ground (arith, held-none ws)

  -- A writer in its place.
  module _ (before after : List Writer) (w : Writer) where
    pub count-own :
        (w.conn == c) ≡ true → count (before ++ (w ∷ after)) ≡ suc (count (before ++ after))
    count-own t = rw (count-append before (w ∷ after), t) omega (arith, count-append before after)

    pub count-other :
        (w.conn == c) ≡ false → count (before ++ (w ∷ after)) ≡ count (before ++ after)
    count-other t = rw (count-append before (w ∷ after), t) (sym (count-append before after))

    pub held-other : (w.conn == c) ≡ false → held (before ++ (w ∷ after)) ≡ held (before ++ after)
    held-other t = rw (held-append before (w ∷ after), t) (sym (held-append before after))

    pub held-own :
        (w.conn == c) ≡ true
        → count (before ++ (w ∷ after)) ≤ 1
        → held (before ++ (w ∷ after)) ≡ in_hand w.held
    held-own t h =
        rw
          (held-append before (w ∷ after), t, held-none before (fewer.0), held-none after (fewer.1))
          (append-nil (in_hand w.held))
      where
        fewer : (count before ≡ 0) × (count after ≡ 0)
        fewer = (
          omega (arith, count-own t, count-append before after),
          omega (arith, count-own t, count-append before after),
        )
