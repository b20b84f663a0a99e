-- ===== src/Agent/Client/Session/Serving.antt =====
-- HydraWS of MedusaUserlandAgent/WebSocketWorker.go: the frames that one connection has taken and
-- written, step by step.
use open_anti_cheat.Common.{
  ℕ, suc, ◌+◌, ◌≤◌, ◌<◌, ◌≡◌, refl, sym, ap, ◌∙◌, true, Bool-cases, inl, inr, Option, none, some,
  List, [], ◌∷◌, ◌++◌, append-nil, length, ◌==◌, arith,
}
use open_anti_cheat.Agent.Client.Session.{Writer, idle, holder}
use open_anti_cheat.Agent.Client.Frame.{WsFrame}
use open_anti_cheat.Agent.Client.Session.Frames.{
  in_hand, on, count, held, on-snoc, on-snoc_other, count-own, count-other, held-own, held-other,
}

module _ (c : ℕ) where
  -- The invariant of a connection: one writer at most serves the connection, the frames taken for
  -- it are those written on it and a tail of one at most, which is what the writer holds; and a
  -- connection that is still to come has none.
  pub record IsOrdered (conn : Option ℕ) (next starting : ℕ) (writers : List Writer)
      (written taken : List (ℕ × WsFrame)) : Type 0 where
    pub last : (k : ℕ) → conn ≡ some k → suc k ≡ next
    pub starting_once : starting ≤ 1
    pub single : count c writers ≤ 1
    pub fresh : next ≤ c + starting → (count c writers ≡ 0) × (on c taken ≡ [])
    pub tail : List WsFrame
    pub whole : on c taken ≡ on c written ++ tail
    pub short : length tail ≤ 1
    pub in_hands : 0 < count c writers → tail ≡ held c writers

  module _ {conn : Option ℕ} {next starting : ℕ} where
    -- The invariant reads of the lists what concerns the connection.
    pub IsOrdered-same :
        {ws ws' : List Writer} {written written' taken taken' : List (ℕ × WsFrame)}
        → count c ws' ≡ count c ws
        → held c ws' ≡ held c ws
        → on c written' ≡ on c written
        → on c taken' ≡ on c taken
        → IsOrdered conn next starting ws written taken
        → IsOrdered conn next starting ws' written' taken'
    IsOrdered-same ec eh ew et v = record {
      last = v.last;
      starting_once = v.starting_once;
      single = omega (arith, v.single, ec);
      fresh = λ h. (ec ∙ (v.fresh h).0, et ∙ (v.fresh h).1);
      tail = v.tail;
      whole = et ∙ (v.whole ∙ ap (λ w. w ++ v.tail) (sym ew));
      short = v.short;
      in_hands = λ h. v.in_hands (omega (arith, ec)) ∙ sym eh;
    }

    module _ (written taken : List (ℕ × WsFrame)) (before after : List Writer) (k : ℕ) where
      -- The tail of a connection that has a writer.
      tail-own :
          (w : Writer)
          → (w.conn == c) ≡ true
          → (v : IsOrdered conn next starting (before ++ (w ∷ after)) written taken)
          → v.tail ≡ in_hand w.held
      tail-own w t v =
          v.in_hands (omega (arith, count-own c before after w t))
          ∙ held-own c before after w t v.single

      -- Another writer of the same connection in the place of one.
      IsOrdered-own :
          (w w' : Writer) (written' taken' : List (ℕ × WsFrame))
          → (w.conn == c) ≡ true
          → (w'.conn == c) ≡ true
          → on c taken' ≡ on c written' ++ in_hand w'.held
          → IsOrdered conn next starting (before ++ (w ∷ after)) written taken
          → IsOrdered conn next starting (before ++ (w' ∷ after)) written' taken'
      IsOrdered-own w w' written' taken' t t' e v = record {
        last = v.last;
        starting_once = v.starting_once;
        single = one;
        fresh = λ h. absurd (omega (arith, (v.fresh h).0, count-own c before after w t));
        tail = in_hand w'.held;
        whole = e;
        short = length-in_hand w'.held;
        in_hands = λ h. sym (held-own c before after w' t' one);
      }
        where
          one : count c (before ++ (w' ∷ after)) ≤ 1
          one =
              omega (arith, v.single, count-own c before after w t, count-own c before after w' t')

          length-in_hand : (h : Option WsFrame) → length (in_hand h) ≤ 1
          length-in_hand none = omega arith
          length-in_hand (some f) = omega arith

      pub IsOrdered-take :
          (f : WsFrame)
          → IsOrdered conn next starting (before ++ (idle k ∷ after)) written taken
          → IsOrdered conn next starting
              (before ++ (holder k f ∷ after))
              written
              (taken ++ (k, f) ∷ [])
      IsOrdered-take f v = elim (Bool-cases (k == c)) [
        | inl t ↦
            IsOrdered-own (idle k) (holder k f) written (taken ++ (k, f) ∷ []) t t
              (on-snoc c taken k f t
                ∙ ap (λ p. p ++ f ∷ [])
                    (v.whole
                      ∙ (ap (λ l. on c written ++ l) (tail-own (idle k) t v)
                          ∙ append-nil (on c written))))
              v
        | inr t ↦
            IsOrdered-same
              (count-other c before after (holder k f) t
                ∙ sym (count-other c before after (idle k) t))
              (held-other c before after (holder k f) t
                ∙ sym (held-other c before after (idle k) t))
              refl (on-snoc_other c taken k f t) v
      ]

      pub IsOrdered-write :
          (f : WsFrame)
          → IsOrdered conn next starting (before ++ (holder k f ∷ after)) written taken
          → IsOrdered conn next starting (before ++ (idle k ∷ after)) (written ++ (k, f) ∷ []) taken
      IsOrdered-write f v = elim (Bool-cases (k == c)) [
        | inl t ↦
            IsOrdered-own (holder k f) (idle k) (written ++ (k, f) ∷ []) taken t t
              (v.whole
                ∙ (ap (λ l. on c written ++ l) (tail-own (holder k f) t v)
                    ∙ (sym (on-snoc c written k f t)
                        ∙ sym (append-nil (on c (written ++ (k, f) ∷ []))))))
              v
        | inr t ↦
            IsOrdered-same
              (count-other c before after (idle k) t
                ∙ sym (count-other c before after (holder k f) t))
              (held-other c before after (idle k) t
                ∙ sym (held-other c before after (holder k f) t))
              (on-snoc_other c written k f t) refl v
      ]

      -- A writer that returns.
      pub IsOrdered-leave :
          (h : Option WsFrame)
          → IsOrdered conn next starting
              (before ++ (record { conn = k; held = h } ∷ after))
              written
              taken
          → IsOrdered conn next starting (before ++ after) written taken
      IsOrdered-leave h v = elim (Bool-cases (k == c)) [
        | inl t ↦ record {
          last = v.last;
          starting_once = v.starting_once;
          single = omega (arith, v.single, count-own c before after _ t);
          fresh = λ l. absurd (
              omega
                (arith, (v.fresh l).0, count-own c before after (record { conn = k; held = h }) t));
          tail = v.tail;
          whole = v.whole;
          short = v.short;
          in_hands = λ l.
              absurd (
                omega
                  (arith, v.single, count-own c before after (record { conn = k; held = h }) t));
        }
        | inr t ↦
            IsOrdered-same (sym (count-other c before after (record { conn = k; held = h }) t))
              (sym (held-other c before after (record { conn = k; held = h }) t)) refl refl v
      ]
