-- ===== src/Backend/Server/Rounds/Visits.antt =====
-- HydraWSServer of MedusaBackend/WSServer.go: a round of the broadcaster that comes to a
-- connection, and its end.
use open_anti_cheat.Common.{
  ℕ, ◌≡◌, refl, sym, ap, ◌∙◌, subst, Bool, true, false, Bool-cases, ==_iff, ◌&&◌, inl, inr,
  some-injective, List, ◌∷◌, ◌==◌, if◌then◌else◌, arith,
}
use open_anti_cheat.Backend.Server.{HandlerPc, Round, waiting, writing, dropping, visit}
use open_anti_cheat.Backend.Server.Rounds.{Sub, keep, skip, is_past, InRound, IsRounds}
use open_anti_cheat.Backend.Server.Rounds.Steps.{put-hit, put-miss, IsRounds-idle}

module _ (c : ℕ) where
  module _ {d g b : List (List ℕ)} where
    -- The round ends.
    pub IsRounds-ends :
        {present : Bool} {h : HandlerPc} (r : Round)
        → (r.at_start c ≡ true → present ≡ true → r.seen c ≡ true)
        → IsRounds c (writing r) present h d g b
        → IsRounds c waiting present h (if r.at_start c && present then r.cmd ∷ d else d) g b
    IsRounds-ends {present} r a v = elim (Bool-cases (r.at_start c && present)) [
      | inl t ↦ rw (t) (record {
        due_got =
            (v.during r refl).reached (a (and_left _ _ t) (and_right _ _ t)) (and_right _ _ t) refl;
        got_begun = v.got_begun;
        during = λ q e. absurd (cc e);
      })
      | inr t ↦ rw (t) (IsRounds-idle c refl v)
    ]
      where
        and_left : (x y : Bool) → (x && y) ≡ true → x ≡ true
        and_left x y h = ground arith

        and_right : (x y : Bool) → (x && y) ≡ true → y ≡ true
        and_right x y h = ground arith

    -- The round comes to a connection.
    module _ {present : Bool} {h : HandlerPc} (r : Round) (k : ℕ)
        (v : IsRounds c (writing r) present h d g b) where
      visit-miss :
          (dropped : Bool) → (k == c) ≡ false → InRound c (visit r k) dropped present h d g b
      visit-miss dropped t =
          let w = v.during r refl in
          record {
            before = w.before;
            latest = w.latest;
            unseen = λ s. w.unseen (sym (put-miss c r.seen k true t) ∙ s);
            past = λ s. w.past (sym (put-miss c r.seen k true t) ∙ s);
            reached = λ s p f. w.reached (sym (put-miss c r.seen k true t) ∙ s) p refl;
          }

      visit-hit :
          (dropped : Bool) (g' : List (List ℕ))
          → (k == c) ≡ true
          → is_past h ≡ true
          → (dropped ≡ false → Sub (r.cmd ∷ d) g')
          → InRound c (visit r k) dropped present h d g' b
      visit-hit dropped g' t p sub =
          let w = v.during r refl in
          record {
            before = w.before;
            latest = w.latest;
            unseen = λ s. absurd (cc (put-hit c r.seen k true t, s));
            past = λ s. p;
            reached = λ s q f. sub f;
          }

      pub IsRounds-writes :
          r.seen k ≡ false
          → ((k == c) ≡ true → is_past h ≡ true)
          → IsRounds c (writing (visit r k)) present h d (if k == c then r.cmd ∷ g else g) b
      IsRounds-writes n past = elim (Bool-cases (k == c)) [
        | inl t ↦ rw (t) (record {
          due_got = skip v.due_got;
          got_begun = written t;
          during = λ q e.
              subst (λ q. InRound c q false present h d (r.cmd ∷ g) b) (some-injective _ _ e)
                (visit-hit false (r.cmd ∷ g) t (past t) (λ f. keep v.due_got));
        })
        | inr t ↦ rw (t) (record {
          due_got = v.due_got;
          got_begun = v.got_begun;
          during = λ q e.
              subst (λ q. InRound c q false present h d g b) (some-injective _ _ e)
                (visit-miss false t);
        })
      ]
        where
          written : (k == c) ≡ true → Sub (r.cmd ∷ g) b
          written t =
              let w = v.during r refl in
              subst (Sub (r.cmd ∷ g)) (sym w.latest)
                (keep (w.unseen (ap r.seen (sym ((==_iff k c).0 t)) ∙ n)))

      pub IsRounds-fails :
          ((k == c) ≡ true → is_past h ≡ true) → IsRounds c (dropping k (visit r k)) present h d g b
      IsRounds-fails past = record {
        due_got = v.due_got;
        got_begun = v.got_begun;
        during = λ q e.
            subst (λ q. InRound c q (k == c) present h d g b) (some-injective _ _ e)
              (elim (Bool-cases (k == c)) [
                | inl t ↦ visit-hit (k == c) g t (past t) (λ f. absurd (cc (t, f)))
                | inr t ↦ visit-miss (k == c) t
              ]);
      }
