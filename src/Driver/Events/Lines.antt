-- ===== src/Driver/Events/Lines.antt =====
-- The way of the driver's events, from the routines of MedusaKernelDriver over the agent and the
-- backend to the lines of main of MedusaBackend/Main.go.
use open_anti_cheat.Common.{
  ℕ, ◌≡◌, refl, sym, ap, ◌∙◌, inl, inr, Bool-cases, subst, if◌then◌else◌, some, List, [], ◌∷◌, ◌++◌,
  map, All, All-append, length, length-map,
}
use open_anti_cheat.Text.Json.Objects.{Member}
use open_anti_cheat.Event.{AcEvent, Padding, IsPadding}
use open_anti_cheat.Event.Json.Reading.{said}
use open_anti_cheat.Agent.Receiver.{loop}
use open_anti_cheat.Agent.Receiver.Messages.{
  Incoming, message, failure, IsIncoming, replies, received, loop-received,
}
use open_anti_cheat.Backend.Json.{shown}
use open_anti_cheat.Backend.Main.{read_lines}
use open_anti_cheat.Route.{received-IsEvent}
use open_anti_cheat.Route.Lines.{console, read_lines-console}
use open_anti_cheat.Driver.Notify.{Outcome}
use open_anti_cheat.Driver.Events.{Occurrence, IsOccurrence, outcome, message_of, messages}
use open_anti_cheat.Driver.Events.Reports.{report, tells, told, on_notice_lem}
use open_anti_cheat.Driver.Events.Said.{
  report_line, IsReport, reported-IsEvent, said-reported, report-IsReport,
}

-- The lines of the notices that the driver tells of.
abbrev line_of : Occurrence → List (List Member)
line_of o =
    if tells o.pids o.notice then report_line o.current (report o.current o.notice) ∷ [] else []

abbrev pub lines : List Occurrence → List (List Member)
lines [] = []
lines (o ∷ os) = line_of o ++ lines os

-- What a list of messages says.
abbrev says : List Incoming → List (List Member)
says is = map (λ e. said (shown e) e) (received is)

Agrees : Occurrence → Outcome → Type 0
Agrees o out = All IsIncoming (message_of o out) × (says (message_of o out) ≡ line_of o)

told-Agrees : (o : Occurrence) → IsOccurrence o → Agrees o (told o.pids o.current o.notice)
unfolding Agrees
told-Agrees o ok = elim (Bool-cases (tells o.pids o.notice)) [
  | inl t ↦ rw (t) (
    ((ok.header, reported-IsEvent o.current _ good, ok.padding), tt),
    ap (λ l. l ∷ []) (said-reported o.current _ good),
  )
  | inr t ↦ rw (t) (tt, refl)
]
  where
    good : IsReport (report o.current o.notice)
    good = report-IsReport o.current o.notice ok.notice

outcome-Agrees : (o : Occurrence) → IsOccurrence o → Agrees o (outcome o)
outcome-Agrees o ok =
    subst (Agrees o) (sym (on_notice_lem o.pids o.current o.notice ok.notice)) (told-Agrees o ok)

says-append : (is js : List Incoming) → says (is ++ js) ≡ says is ++ says js
says-append [] js = refl
says-append (message h gap e p ∷ is) js = ap (◌∷◌ (said (shown e) e)) (says-append is js)
says-append (failure ret bytes ∷ is) js = says-append is js

messages-IsIncoming : (os : List Occurrence) → All IsOccurrence os → All IsIncoming (messages os)
unfolding Agrees
messages-IsIncoming [] h = tt
messages-IsIncoming (o ∷ os) (ok, h) =
    All-append IsIncoming _ _ (outcome-Agrees o ok).0 (messages-IsIncoming os h)

says-messages : (os : List Occurrence) → All IsOccurrence os → says (messages os) ≡ lines os
unfolding Agrees
says-messages [] h = refl
says-messages (o ∷ os) (ok, h) =
    says-append (message_of o (outcome o)) (messages os)
    ∙ (ap (λ ls. ls ++ says (messages os)) (outcome-Agrees o ok).1
        ∙ ap (λ ls. line_of o ++ ls) (says-messages os h))

-- For notices of the system to the driver, in any circumstances, whose texts are UTF-16 and whose
-- base addresses are 64 bits wide, where a process with a name has a command line, and where none
-- of the messages is lost: the backend prints a line of each process's creation and end, of each
-- image's loading, and of the new threads and the handles from user mode of the protected process,
-- in order, and it says of the notice the caller and the process, the thread, the source 0, whether
-- it creates something, the base and the size, and, up to the room of their arrays, the type and
-- the command line; of the image's name, up to the room, it says every other UTF-16 unit only.
pub notices-lines :
    (os : List Occurrence) (buf : List ℕ) (pad : AcEvent → Padding)
    → All IsOccurrence os
    → ((e : AcEvent) → IsPadding (pad e))
    → read_lines (length (lines os)) (console pad (loop (replies (messages os)) buf))
      ≡ some (lines os, [])
notices-lines os buf pad h hp =
    ap (λ es. read_lines (length (lines os)) (console pad es))
      (loop-received (messages os) buf incoming)
    ∙ (ap (λ (n : ℕ). read_lines n (console pad (received (messages os)))) count
        ∙ (read_lines-console (received (messages os)) pad (received-IsEvent (messages os) incoming)
              hp
            ∙ ap (λ ls. some (ls, [])) (says-messages os h)))
  where
    incoming : All IsIncoming (messages os)
    incoming = messages-IsIncoming os h

    count : length (lines os) ≡ length (received (messages os))
    count = ap length (sym (says-messages os h)) ∙ length-map _ (received (messages os))
