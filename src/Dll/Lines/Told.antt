-- ===== src/Dll/Lines/Told.antt =====
-- The event of the hook of MedusaUserDLL/MedusaDLL/MedusaDLL/dllmain.cpp, and what the backend's
-- ToJSON shows of it.
use open_anti_cheat.Common.{
  ℕ, ◌≡◌, refl, ap, ◌∙◌, Option, none, some, List, [], ◌∷◌, All, All-replicate, arith,
  length-replicate, take, pos, int32_value, replicate,
}
use open_anti_cheat.Text.Ascii.{codes}
use open_anti_cheat.Text.Utf8.{encode_utf8, encode_rune}
use open_anti_cheat.Text.Utf16.{IsUnit, until_nul, decode_with}
use open_anti_cheat.Text.Narrow.{narrowed}
use open_anti_cheat.Text.Json.Objects.{text, number, Member}
use open_anti_cheat.Memory.Words.{Fits}
use open_anti_cheat.Event.{IsEvent}
use open_anti_cheat.Event.Json.Reading.{said}
use open_anti_cheat.Backend.Strings.{utf16_buf_to_string, utf16_to_string, int32_to_string}
use open_anti_cheat.Backend.Json.{shown}
use open_anti_cheat.Driver.Strings.Stored.{length-wcsncpy_s, wcsncpy_s-IsUnit}
use open_anti_cheat.Driver.Strings.Shown.{utf16_to_string-wcsncpy_s}
use open_anti_cheat.Dll.{HookCall, thread_of, thread_id, is_create, hook_event}

abbrev IsId : Option ℕ → Type 0
IsId none = Unit {0}
IsId (some t) = Fits 4 t

-- The numbers are in the ranges of their types.
pub record IsCall (call : HookCall) : Type 0 where
  pub caller : Fits 4 call.caller
  pub target : Fits 4 call.target
  pub tid : IsId call.tid
  pub created : IsId call.created
  pub start : Fits 8 call.start

thread_of-Fits : (created : Option ℕ) → IsId created → Fits 4 (thread_of created)
thread_of-Fits none h = omega arith
thread_of-Fits (some t) h = h

thread_id-Fits : (tid created : Option ℕ) → IsId tid → IsId created → Fits 4 (thread_id tid created)
thread_id-Fits none created ht hc = thread_of-Fits created hc
thread_id-Fits (some t) created ht hc = ground (arith, thread_of-Fits created hc)

is_create-Fits : (created : Option ℕ) → Fits 4 (is_create created)
is_create-Fits none = omega arith
is_create-Fits (some t) = omega arith

abbrev hook_name : List ℕ
hook_name = codes "CreateRemoteThreadEx"

hook_name-IsUnit : All IsUnit hook_name
hook_name-IsUnit = ground arith

-- The line of a call, with its thread and whether it was made.
abbrev pub hook_line : HookCall → ℕ → ℕ → List Member
hook_line call tid create =
    (codes "CallerPID", number (int32_value call.caller))
    ∷ (codes "CommandLine", text [])
    ∷ (codes "EventType", text (codes "CreateRemoteThreadEx"))
    ∷ (codes "ImageBase", number (pos call.start))
    ∷ (codes "ImageFileName", text [])
    ∷ (codes "ImageSize", number (pos 0))
    ∷ (codes "IsCreate", number (int32_value create))
    ∷ (codes "Src", number (pos 2))
    ∷ (codes "TargetPID", number (int32_value call.target))
    ∷ (codes "ThreadID", number (int32_value tid))
    ∷ []

blank_line : utf16_to_string (replicate 1024 0) ≡ []
unfolding utf16_to_string utf16_buf_to_string until_nul decode_with encode_utf8 replicate
blank_line = refl

blank_name : int32_to_string (replicate 260 0) ≡ []
unfolding int32_to_string utf16_buf_to_string narrowed decode_with encode_utf8 replicate
blank_name = refl

whole_name : utf16_buf_to_string (take 259 (until_nul hook_name)) ≡ hook_name
unfolding utf16_buf_to_string until_nul decode_with encode_utf8 encode_rune take
whole_name = refl

module _ (call : HookCall) (ok : IsCall call) where
  pub hook_event-IsEvent : IsEvent (hook_event call)
  unfolding hook_event
  hook_event-IsEvent = record {
    src = omega arith;
    event_type = (
      length-wcsncpy_s (replicate 260 0) hook_name (omega (arith, length-replicate {A = ℕ} 260 0))
          ∙ length-replicate {A = ℕ} 260 0,
      wcsncpy_s-IsUnit (replicate 260 0) hook_name (All-replicate IsUnit 260 0 (omega arith))
          hook_name-IsUnit,
    );
    caller_pid = ok.caller;
    target_pid = ok.target;
    thread_id = thread_id-Fits call.tid call.created ok.tid ok.created;
    image_file_name = (length-replicate {A = ℕ} 260 0, All-replicate (Fits 4) 260 0 (omega arith));
    command_line = (length-replicate {A = ℕ} 1024 0, All-replicate (Fits 2) 1024 0 (omega arith));
    is_create = is_create-Fits call.created;
    image_base = ok.start;
    image_size = omega arith;
  }

  hook_shown :
      shown (hook_event call)
      ≡ record { event_type = hook_name; image_file_name = []; command_line = [] }
  unfolding hook_event
  hook_shown = λ i. record {
    event_type = (utf16_to_string-wcsncpy_s 260 hook_name hook_name-IsUnit ∙ whole_name) i;
    image_file_name = blank_name i;
    command_line = blank_line i;
  }

  pub said-hook_event :
      said (shown (hook_event call)) (hook_event call)
      ≡ hook_line call (thread_id call.tid call.created) (is_create call.created)
  said-hook_event = ap (λ s. said s (hook_event call)) hook_shown ∙ line
    where
      line :
          said
            (record { event_type = hook_name; image_file_name = []; command_line = [] })
            (hook_event call)
          ≡ hook_line call (thread_id call.tid call.created) (is_create call.created)
      line = unfold hook_event in refl
