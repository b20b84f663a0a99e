-- ===== src/Agent/Client/Session/Starting.antt =====
-- HydraWS of MedusaUserlandAgent/WebSocketWorker.go: the frames that one connection has taken and
-- written, where a session begins or ends.
use open_anti_cheat.Common.{
  subst, ℕ, suc, ◌≡◌, refl, sym, ap, ◌∙◌, false, Bool-cases, ==_iff, inl, inr, Option, none, some,
  some-injective, List, [], ◌∷◌, ◌++◌, append-nil, ◌==◌, arith,
}
use open_anti_cheat.Agent.Client.Session.{Writer, idle}
use open_anti_cheat.Agent.Client.Frame.{WsFrame}
use open_anti_cheat.Agent.Client.Session.Frames.{on, held-none}
use open_anti_cheat.Agent.Client.Session.Serving.{IsOrdered, IsOrdered-same}

front-nil : (xs ys : List WsFrame) → xs ++ ys ≡ [] → xs ≡ []
front-nil [] ys e = refl
front-nil (x ∷ xs) ys e = cc

module _ (c : ℕ) where
  module _ {conn : Option ℕ} {next starting : ℕ} where
    pub IsOrdered-writers :
        {written taken : List (ℕ × WsFrame)} {ws ws' : List Writer}
        → ws ≡ ws'
        → IsOrdered c conn next starting ws written taken
        → IsOrdered c conn next starting ws' written taken
    IsOrdered-writers {written} {taken} e =
        subst (λ ws. IsOrdered c conn next starting ws written taken) e

    IsOrdered-start_other :
        {ws : List Writer} {written taken : List (ℕ × WsFrame)} {k : ℕ}
        → (k == c) ≡ false
        → IsOrdered c conn next starting ws written taken
        → IsOrdered c conn next starting (idle k ∷ ws) written taken
    IsOrdered-start_other t v = IsOrdered-same c (rw (t) refl) (rw (t) refl) refl refl v

    module _ {ws : List Writer} {written taken : List (ℕ × WsFrame)} where
      pub IsOrdered-dial :
          starting ≡ 0
          → IsOrdered c conn next starting ws written taken
          → IsOrdered c (some next) (suc next) (suc starting) ws written taken
      IsOrdered-dial z v = record {
        last = λ k e. ap suc (sym (some-injective _ _ e));
        starting_once = omega arith;
        single = v.single;
        fresh = λ h. v.fresh (omega arith);
        tail = v.tail;
        whole = v.whole;
        short = v.short;
        in_hands = v.in_hands;
      }

      pub IsOrdered-close :
          IsOrdered c conn next starting ws written taken
          → IsOrdered c none next starting ws written taken
      IsOrdered-close v = record {
        last = λ k e. cc;
        starting_once = v.starting_once;
        single = v.single;
        fresh = v.fresh;
        tail = v.tail;
        whole = v.whole;
        short = v.short;
        in_hands = v.in_hands;
      }

      pub IsOrdered-none :
          (n : ℕ)
          → starting ≡ suc n
          → IsOrdered c conn next starting ws written taken
          → IsOrdered c conn next n ws written taken
      IsOrdered-none n e v = record {
        last = v.last;
        starting_once = omega (arith, v.starting_once);
        single = v.single;
        fresh = λ h. v.fresh (omega arith);
        tail = v.tail;
        whole = v.whole;
        short = v.short;
        in_hands = v.in_hands;
      }

  -- The connection that a writer finds is the last one, for which no frame was taken.
  pub IsOrdered-start :
      {conn : Option ℕ} {next starting : ℕ} {ws : List Writer} {written taken : List (ℕ × WsFrame)}
      (n k : ℕ)
      → starting ≡ suc n
      → conn ≡ some k
      → IsOrdered c conn next starting ws written taken
      → IsOrdered c conn next n (idle k ∷ ws) written taken
  IsOrdered-start {written = written} n k e o v = elim (Bool-cases (k == c)) [
    | inl t ↦
        let own = (==_iff k c).0 t in
        let old = v.fresh (omega (arith, v.last k o)) in
        record {
          last = v.last;
          starting_once = omega (arith, v.starting_once);
          single = rw (t) (omega (arith, old.0));
          fresh = λ h. absurd (omega (arith, v.last k o, v.starting_once));
          tail = [];
          whole =
              old.1
              ∙ sym (
                  append-nil (on c written)
                  ∙ front-nil (on c written) v.tail (sym v.whole ∙ old.1));
          short = omega arith;
          in_hands = λ h. rw (t) (sym (held-none c _ old.0));
        }
    | inr t ↦ IsOrdered-none n e (IsOrdered-start_other t v)
  ]
