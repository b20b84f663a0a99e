-- ===== src/Dll/Lines.antt =====
-- A call of the hook of MedusaUserDLL/MedusaDLL/MedusaDLL/dllmain.cpp, over the pipe of IPC.c, the
-- agent and the backend, to the line of main of MedusaBackend/Main.go.
pub mod Told
use open_anti_cheat.Common.{
  zero, suc, ◌≢◌, ◌⊎◌, inl, inr, Bool, true, ◌++◌, ℕ, ◌≤◌, ◌≡◌, refl, ap, ◌∙◌, Option, none, some,
  List, [], ◌∷◌, All, All-replicate, arith, length, length-replicate, take, take-all, pos,
  int32_value, replicate,
}
use open_anti_cheat.Text.Ascii.{codes}
use open_anti_cheat.Text.Utf8.{encode_utf8, encode_rune}
use open_anti_cheat.Text.Utf16.{IsUnit, until_nul, decode_with}
use open_anti_cheat.Text.Narrow.{narrowed}
use open_anti_cheat.Text.Json.Objects.{text, number, Member}
use open_anti_cheat.Memory.Words.{Fits}
use open_anti_cheat.Event.{AcEvent, IsEvent, Padding, IsPadding, event_size, ev_to_bytes}
use open_anti_cheat.Event.Wire.{length-ev_to_bytes}
use open_anti_cheat.Event.Json.Reading.{said}
use open_anti_cheat.Agent.Pipe.{ReadFile, read_loop}
use open_anti_cheat.Agent.Pipe.Delivery.{MessageMode, events_of, reads}
use open_anti_cheat.Agent.Pipe.RoundTrip.{event, read_loop-written}
use open_anti_cheat.Backend.Strings.{utf16_buf_to_string, utf16_to_string, int32_to_string}
use open_anti_cheat.Backend.Json.{shown}
use open_anti_cheat.Backend.Main.{read_lines}
use open_anti_cheat.Route.Lines.{console, read_lines-console}
use open_anti_cheat.Driver.Strings.Stored.{length-wcsncpy_s, wcsncpy_s-IsUnit}
use open_anti_cheat.Driver.Strings.Shown.{utf16_to_string-wcsncpy_s}
use open_anti_cheat.Dll.{
  HookCall, thread_of, thread_id, is_create, hook_event, wrote, send_ipc_message_raw,
}
use open_anti_cheat.Dll.Lines.Told.{IsCall, hook_line, hook_event-IsEvent, said-hook_event}

-- The thread that a call tells of: the one that the real function stores, or else that of its
-- handle, or else 0.
pub data IsThread (call : HookCall) : ℕ → Type 0 where
  stored : (t : ℕ) → call.tid ≡ some t → t ≢ 0 → IsThread call t
  of_handle :
      (t : ℕ) → (call.tid ≡ none) ⊎ (call.tid ≡ some 0) → call.created ≡ some t → IsThread call t
  no_thread : (call.tid ≡ none) ⊎ (call.tid ≡ some 0) → call.created ≡ none → IsThread call 0

-- 1 for a call that gave a handle.
pub data IsMade (call : HookCall) : ℕ → Type 0 where
  made : (t : ℕ) → call.created ≡ some t → IsMade call 1
  not_made : call.created ≡ none → IsMade call 0

kept : (t : ℕ) (created : Option ℕ) → thread_id (some (suc t)) created ≡ suc t
kept t created = ground arith

module _ (call : HookCall) where
  thread_id-IsThread : IsThread call (thread_id call.tid call.created)
  thread_id-IsThread = by_cases call.tid call.created refl refl
    where
      by_cases :
          (tid created : Option ℕ)
          → call.tid ≡ tid
          → call.created ≡ created
          → IsThread call (thread_id tid created)
      by_cases none none et ec = no_thread (inl et) ec
      by_cases none (some t) et ec = of_handle t (inl et) ec
      by_cases (some zero) none et ec = no_thread (inr et) ec
      by_cases (some zero) (some t) et ec = of_handle t (inr et) ec
      by_cases (some (suc t)) created et ec = rw (kept t created) (stored (suc t) et (omega arith))

  is_create-IsMade : IsMade call (is_create call.created)
  is_create-IsMade = by_cases call.created refl
    where
      by_cases : (created : Option ℕ) → call.created ≡ created → IsMade call (is_create created)
      by_cases none e = not_made e
      by_cases (some t) e = made t e

-- A list of one is in front or behind.
one_of :
    (front rest : List AcEvent) (e : AcEvent)
    → e ∷ [] ≡ front ++ rest
    → ((front ≡ []) × (rest ≢ [])) ⊎ (front ≡ e ∷ [])
one_of [] rest e h = inl (refl, λ nothing. cc (h, nothing))
one_of (f ∷ []) rest e h = inr (cc h)
one_of (f ∷ g ∷ fs) rest e h = absurd (omega (arith, ap length h))

module _ (call : HookCall) (ok : IsCall call) where
  module _ (p : Padding) (hp : IsPadding p) where
    -- What the DLL writes.
    abbrev sent : List (List ℕ)
    sent = (send_ipc_message_raw (wrote event_size) (ev_to_bytes (hook_event call) p)).1

    sent_lem : sent ≡ ev_to_bytes (hook_event call) p ∷ []
    unfolding send_ipc_message_raw
    sent_lem =
        ap (λ m. m ∷ [])
          (take-all event_size _
            (omega (arith, length-ev_to_bytes (hook_event call) p (hook_event-IsEvent call ok) hp)))

    -- A call of the hooked function, whose numbers are in range and whose event is written to the
    -- pipe at a stroke, makes the agent's reader of that pipe send one event, of which the backend
    -- prints one line that tells the caller, the target, the thread, the start address and whether
    -- a handle was given; or a read of the size of an event reports too early, and the reader sends
    -- none.
    pub hook-line :
        (sys : ReadFile) (pending : sys.Handle → List (List ℕ)) (early : sys.Handle → ℕ → Bool)
        → MessageMode sys pending early
        → (fuel : ℕ) (h : sys.Handle) (buf : List ℕ) (pad : AcEvent → Padding)
        → ((e : AcEvent) → IsPadding (pad e))
        → pending h ≡ sent
        → reads sent ≤ fuel
        → ((read_loop sys fuel h buf [] ≡ some [])
            × ((h' : sys.Handle) × (early h' event_size ≡ true)))
          ⊎ ((e : AcEvent) × (tid : ℕ) × (create : ℕ) × (read_loop sys fuel h buf []
                ≡ some (e ∷ []))
              × IsThread call tid
              × IsMade call create
              × (read_lines 1 (console pad (e ∷ [])) ≡ some (hook_line call tid create ∷ [], [])))
    hook-line sys pending early mode fuel h buf pad hpad e enough =
        let (front, rest, out, all, cut) =
          read_loop-written sys pending early mode (event (hook_event call) p ∷ []) fuel h buf
            ((hook_event-IsEvent call ok, hp), tt) (e ∙ sent_lem)
            (omega (arith, enough, ap reads sent_lem)) in
        elim (one_of front rest _ all) [
          | inl (none_sent, left) ↦ inl (out ∙ ap some none_sent, cut_early rest left cut)
          | inr one ↦ inr (
            hook_event call,
            thread_id call.tid call.created,
            is_create call.created,
            out ∙ ap some one,
            thread_id-IsThread call,
            is_create-IsMade call,
            read_lines-console (hook_event call ∷ []) pad (hook_event-IsEvent call ok, tt) hpad
                ∙ ap (λ l. some (l ∷ [], [])) (said-hook_event call ok),
          )
        ]
      where
        cut_early :
            (rest : List AcEvent)
            → rest ≢ []
            → (rest ≡ [])
              ⊎ ((h' : sys.Handle) × (early h' event_size ≡ true) × (events_of (pending h') ≡ rest))
            → (h' : sys.Handle) × (early h' event_size ≡ true)
        cut_early rest left (inl nothing) = absurd (left nothing)
        cut_early rest left (inr (h', soon, more)) = (h', soon)
