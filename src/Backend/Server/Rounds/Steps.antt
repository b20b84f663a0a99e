-- ===== src/Backend/Server/Rounds/Steps.antt =====
-- HydraWSServer of MedusaBackend/WSServer.go: a round of the broadcaster while connections come and
-- go.
use open_anti_cheat.Common.{
  ℕ, ◌≡◌, refl, sym, ap, ◌∙◌, Bool, true, false, Bool-cases, ==_iff, inl, inr, none, some-injective,
  List, ◌∷◌, ◌==◌,
}
use open_anti_cheat.Backend.Server.{
  HandlerPc, registering_locked, reading, Round, BroadcastPc, writing, put,
}
use open_anti_cheat.Backend.Server.Rounds.{skip, active, is_past, is_dropped, IsRounds}

module _ (c : ℕ) where
  pub put-hit : {A : Type 0} (f : ℕ → A) (k : ℕ) (x : A) → (k == c) ≡ true → put f k x c ≡ x
  put-hit f k x t = rw (t) refl

  pub put-miss : {A : Type 0} (f : ℕ → A) (k : ℕ) (x : A) → (k == c) ≡ false → put f k x c ≡ f c
  put-miss f k x t = rw (t) refl

  IsRounds-past :
      (handlers : ℕ → HandlerPc) (k : ℕ) (old new : HandlerPc)
      → handlers k ≡ old
      → (is_past old ≡ true → is_past new ≡ true)
      → is_past (handlers c) ≡ true
      → is_past (put handlers k new c) ≡ true
  IsRounds-past handlers k old new e step p = elim (Bool-cases (k == c)) [
    | inl t ↦ rw (t) (step (ap is_past (sym e ∙ ap handlers ((==_iff k c).0 t)) ∙ p))
    | inr t ↦ rw (t) p
  ]

  module _ {d g b : List (List ℕ)} where
    module _ (handlers : ℕ → HandlerPc) (k : ℕ) where
      -- The handler of a connection goes on.
      pub IsRounds-handler :
          {pc : BroadcastPc} {present : Bool} (old new : HandlerPc)
          → handlers k ≡ old
          → (is_past old ≡ true → is_past new ≡ true)
          → IsRounds c pc present (handlers c) d g b
          → IsRounds c pc present (put handlers k new c) d g b
      IsRounds-handler old new e step v = record {
        due_got = v.due_got;
        got_begun = v.got_begun;
        during = λ r a.
            let w = v.during r a in
            record {
              before = w.before;
              latest = w.latest;
              unseen = w.unseen;
              past = λ s. IsRounds-past handlers k old new e step (w.past s);
              reached = w.reached;
            };
      }

      -- A connection that registers has not been seen.
      pub IsRounds-registers :
          {pc : BroadcastPc} (conns : ℕ → Bool)
          → handlers k ≡ registering_locked
          → IsRounds c pc (conns c) (handlers c) d g b
          → IsRounds c pc (put conns k true c) (put handlers k reading c) d g b
      IsRounds-registers conns e v = record {
        due_got = v.due_got;
        got_begun = v.got_begun;
        during = λ r a.
            let w = v.during r a in
            record {
              before = w.before;
              latest = w.latest;
              unseen = w.unseen;
              past =
                  λ s. IsRounds-past handlers k registering_locked reading e (λ q. refl) (w.past s);
              reached = λ s p f. elim (Bool-cases (k == c)) [
                | inl t ↦ absurd (cc (w.past s, ap is_past e, ap handlers ((==_iff k c).0 t)))
                | inr t ↦ w.reached s (sym (put-miss conns k true t) ∙ p) f
              ];
            };
      }

    -- A connection that is deleted owes nothing.
    pub IsRounds-drop :
        {pc pc' : BroadcastPc} {h : HandlerPc} (conns : ℕ → Bool) (k : ℕ)
        → active pc' ≡ active pc
        → ((k == c) ≡ false → is_dropped c pc' ≡ false → is_dropped c pc ≡ false)
        → IsRounds c pc (conns c) h d g b
        → IsRounds c pc' (put conns k false c) h d g b
    IsRounds-drop conns k ea ed v = record {
      due_got = v.due_got;
      got_begun = v.got_begun;
      during = λ r a.
          let w = v.during r (sym ea ∙ a) in
          record {
            before = w.before;
            latest = w.latest;
            unseen = w.unseen;
            past = w.past;
            reached = λ s p f. elim (Bool-cases (k == c)) [
              | inl t ↦ absurd (cc (put-hit conns k false t, p))
              | inr t ↦ w.reached s (sym (put-miss conns k false t) ∙ p) (ed t f)
            ];
          };
    }

    -- No round is on.
    pub IsRounds-idle :
        {pc pc' : BroadcastPc} {present : Bool} {h : HandlerPc}
        → active pc' ≡ none
        → IsRounds c pc present h d g b
        → IsRounds c pc' present h d g b
    IsRounds-idle e v = record {
      due_got = v.due_got;
      got_begun = v.got_begun;
      during = λ r a. absurd (cc (e, a));
    }

    -- The round goes on at another place.
    pub IsRounds-moves :
        {pc pc' : BroadcastPc} {present : Bool} {h : HandlerPc}
        → active pc' ≡ active pc
        → (is_dropped c pc' ≡ false → is_dropped c pc ≡ false)
        → IsRounds c pc present h d g b
        → IsRounds c pc' present h d g b
    IsRounds-moves ea ed v = record {
      due_got = v.due_got;
      got_begun = v.got_begun;
      during = λ r a.
          let w = v.during r (sym ea ∙ a) in
          record {
            before = w.before;
            latest = w.latest;
            unseen = w.unseen;
            past = w.past;
            reached = λ s p f. w.reached s p (ed f);
          };
    }

    pub IsRounds-begins :
        {pc : BroadcastPc} {present : Bool} {h : HandlerPc} (cmd : List ℕ) (conns : ℕ → Bool)
        → IsRounds c pc present h d g b
        → IsRounds c
            (writing (record { cmd = cmd; at_start = conns; seen = λ k. false }))
            present
            h
            d
            g
            (cmd ∷ b)
    IsRounds-begins cmd conns v = record {
      due_got = v.due_got;
      got_begun = skip v.got_begun;
      during = λ r a.
          let new = ap (λ (q : Round). q.seen c) (some-injective _ _ a) in
          record {
            before = b;
            latest = ap (λ (q : Round). q.cmd ∷ b) (some-injective _ _ a);
            unseen = λ s. v.got_begun;
            past = λ s. absurd (cc (new, s));
            reached = λ s p f. absurd (cc (new, s));
          };
    }
