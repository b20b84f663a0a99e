-- ===== src/Agent/Pipe/Early.antt =====
-- `readLoop` of MedusaUserlandAgent/IPC.go, whose reads may report too early that they are
-- complete.
use open_anti_cheat.Common.{
  ℕ, zero, suc, ◌≤◌, ◌≡◌, refl, ap, sym, ◌∙◌, Bool, true, Bool-cases, ◌⊎◌, inl, inr, Option, some,
  List, [], ◌∷◌, ◌++◌, length, All, arith, ℕ_discrete, append_assoc, append-nil,
}
use open_anti_cheat.Event.{AcEvent, event_size, event_of_bytes}
use open_anti_cheat.Agent.Pipe.{ReadFile, read_loop}
use open_anti_cheat.Agent.Pipe.Delivery.{
  MessageMode, events_of, reads, reads_pos, events_of_empty, events_of_event, events_of_other,
  round_empty, round_event, round_short, closed_round, early_round,
}

-- No longer than an event.
abbrev pub IsShort : List ℕ → Type 0
IsShort m = length m ≤ event_size

module _ (sys : ReadFile) (pending : sys.Handle → List (List ℕ)) (early : sys.Handle → ℕ → Bool)
    (mode : MessageMode sys pending early) where
  open sys use {Handle}

  -- The loop has sent all events, or a read has reported too early where the rest was pending.
  abbrev pub IsCut : List AcEvent → Type 0
  IsCut rest =
      (rest ≡ []) ⊎ ((h : Handle) × (early h event_size ≡ true) × (events_of (pending h) ≡ rest))

  -- The loop returns with a front part of the events behind what it had sent.
  abbrev pub Front : List (List ℕ) → List AcEvent → Option (List AcEvent) → Type 0
  Front ms sent out =
      (front : List AcEvent) × (rest : List AcEvent) × (out ≡ some (sent ++ front))
      × (events_of ms ≡ front ++ rest)
      × IsCut rest

  Front-nothing :
      (ms : List (List ℕ)) (sent rest : List AcEvent) (out : Option (List AcEvent))
      → out ≡ some sent
      → events_of ms ≡ rest
      → IsCut rest
      → Front ms sent out
  Front-nothing ms sent rest out o e cut = ([], rest, o ∙ ap some (sym (append-nil sent)), e, cut)

  Front-next :
      (m : List ℕ) (ms : List (List ℕ)) (sent : List AcEvent) (out out' : Option (List AcEvent))
      (ev : AcEvent)
      → out ≡ out'
      → events_of (m ∷ ms) ≡ ev ∷ events_of ms
      → Front ms (sent ++ ev ∷ []) out'
      → Front (m ∷ ms) sent out
  Front-next m ms sent out out' ev o e (front, rest, o', e', cut) = (
    ev ∷ front,
    rest,
    o ∙ (o' ∙ ap some (append_assoc sent (ev ∷ []) front)),
    e ∙ ap (◌∷◌ ev) e',
    cut,
  )

  Front-other :
      (m : List ℕ) (ms : List (List ℕ)) (sent : List AcEvent) (out out' : Option (List AcEvent))
      → out ≡ out'
      → events_of (m ∷ ms) ≡ events_of ms
      → Front ms sent out'
      → Front (m ∷ ms) sent out
  Front-other m ms sent out out' o e (front, rest, o', e', cut) = (front, rest, o ∙ o', e ∙ e', cut)

  -- Of messages that are no longer than an event, `readLoop`, with fuel for every read, returns and
  -- has sent, in order, the events of the messages, all of them or those before a read that reports
  -- too early.
  pub read_loop-Front :
      (ms : List (List ℕ)) (fuel : ℕ) (h : Handle) (buf : List ℕ) (sent : List AcEvent)
      → All IsShort ms
      → pending h ≡ ms
      → reads ms ≤ fuel
      → Front ms sent (read_loop sys fuel h buf sent)
  unfolding events_of
  read_loop-Front ms zero h buf sent short e enough = absurd (omega (arith, reads_pos ms))
  read_loop-Front [] (suc fuel) h buf sent short e enough = elim (Bool-cases (early h event_size)) [
    | inl soon ↦
        Front-nothing [] sent [] _ (early_round sys pending early mode fuel h buf sent soon) refl
          (inl refl)
    | inr later ↦
        ([], [], closed_round sys pending early mode fuel h buf sent later e, refl, inl refl)
  ]
  read_loop-Front (m ∷ ms) (suc fuel) h buf sent (small, short) e enough =
      elim (Bool-cases (early h event_size)) [
        | inl soon ↦
            Front-nothing (m ∷ ms) sent (events_of (m ∷ ms)) _
              (early_round sys pending early mode fuel h buf sent soon) refl
              (inr (h, soon, ap events_of e))
        | inr later ↦
            let (result, rest) = mode.whole h event_size m ms later e small in
            elim (ℕ_discrete (length m) event_size) [
              | yes full ↦
                  Front-next m ms sent _ _ (event_of_bytes m)
                    (round_event sys pending early mode fuel h buf sent m ms later e full)
                    (events_of_event m ms full)
                    (read_loop-Front ms fuel _ _ _ short rest (omega arith))
              | no other ↦ elim (ℕ_discrete (length m) 0) [
                | yes empty ↦
                    Front-nothing (m ∷ ms) sent [] _
                      (round_empty sys pending early mode fuel h buf sent m ms later e empty)
                      (events_of_empty m ms empty) (inl refl)
                | no something ↦
                    Front-other m ms sent _ _
                      (round_short sys pending early mode fuel h buf sent m ms later e (omega arith)
                        (omega arith))
                      (events_of_other m ms something other)
                      (read_loop-Front ms fuel _ _ sent short rest (omega arith))
              ]
            ]
      ]
