-- ===== src/Driver/Notify.antt =====
-- The notify routines of MedusaKernelDriver/NotifyRoutine.c: what each sends to the agent.
use open_anti_cheat.Common.{
  ℕ, ◌%◌, ◌^◌, Option, none, some, List, [], replicate, Bool, not, ◌==◌, if◌then◌else◌,
}
use open_anti_cheat.Event.{AcEvent, km}
use open_anti_cheat.Text.Ascii.{codes}
use open_anti_cheat.Driver.Strings.{wcsncpy_s, wcsncpy_s_ints}

-- `ToProtectPID` and `AgentPID`, as the bits of their LONGs.
pub record Pids : Type 0 where
  pub to_protect_pid : ℕ
  pub agent_pid : ℕ

abbrev pub no_pid : ℕ
no_pid = 99133799

abbrev pub initial : Pids
initial = record { to_protect_pid = no_pid; agent_pid = no_pid }

-- What PsGetCurrentProcessId and PsGetCurrentThreadId answer: 64 bits each.
pub record Current : Type 0 where
  pub process : ℕ
  pub thread : ℕ

-- A routine reads through a null pointer, sends nothing, or gives the event to FpSendRaw.
pub data Outcome : Type 0 where
  faults ignores : Outcome
  sends : AcEvent → Outcome

-- `ACEvent event = { 0 }`
abbrev pub zero_event : AcEvent
zero_event = record {
  src = 0;
  event_type = replicate 260 0;
  caller_pid = 0;
  target_pid = 0;
  thread_id = 0;
  image_file_name = replicate 260 0;
  command_line = replicate 1024 0;
  is_create = 0;
  image_base = 0;
  image_size = 0;
}

-- The fields that every routine sets alike: the source, the type, the caller and the target. An int
-- takes the lower half of a handle.
abbrev pub event_of : List ℕ → Current → ℕ → AcEvent
event_of type current pid = record zero_event {
  src = km;
  event_type = wcsncpy_s (replicate 260 0) type;
  caller_pid = current.process % 2 ^ 32;
  target_pid = pid % 2 ^ 32;
}

abbrev pub no_base : ℕ
no_base = 0xffffffffffff

-- `PS_CREATE_NOTIFY_INFO`: both strings are optional, and each is given by the units of its buffer.
pub record CreateInfo : Type 0 where
  pub image_file_name : Option (List ℕ)
  pub command_line : Option (List ℕ)

-- `IMAGE_INFO`
pub record ImageInfo : Type 0 where
  pub image_base : ℕ
  pub image_size : ℕ

-- `wcsncpy_s(event.ImageFileName, 260, src, _TRUNCATE)`, and the same for the command line's 1024
-- wchar_ts.
abbrev pub named : List ℕ → AcEvent → AcEvent
named src e = record e { image_file_name = wcsncpy_s_ints e.image_file_name 260 src }

abbrev pub lined : List ℕ → AcEvent → AcEvent
lined src e = record e { command_line = wcsncpy_s e.command_line src }

-- From `if (CreateInfo)` on. The arrays are clear already, so that the NULs written to their fronts
-- change nothing.
abbrev describe : AcEvent → Option CreateInfo → Outcome
describe e none = sends (named (codes "Terminated") e)
describe e (some info) = elim info.image_file_name [
  | none ↦ sends (lined (codes "Unknown") (named (codes "Unknown") e))
  | some name ↦ elim info.command_line [
    | none ↦ faults
    | some line ↦ sends (lined line (named name e))
  ]
]

abbrev is_some {ℓ} : {A : Type ℓ} → Option A → ℕ
is_some none = 0
is_some (some a) = 1

unfoldable pub create_process_notify_routine_ex : Current → ℕ → Option CreateInfo → Outcome
create_process_notify_routine_ex current pid info =
    describe
      (record (event_of (codes "CreateProcess") current pid) {
        thread_id = current.thread % 2 ^ 32;
        is_create = is_some info;
        image_base = no_base;
        image_size = 0xffff;
      })
      info

unfoldable pub create_thread_notify_routine : Pids → Current → ℕ → ℕ → Bool → Outcome
create_thread_notify_routine pids current pid thread create =
    if not create
    then ignores
    else if pids.to_protect_pid == no_pid
    then ignores
    else if not (pid % 2 ^ 32 == pids.to_protect_pid)
    then ignores
    else sends (
        lined [] (
          named [] (record (event_of (codes "CreateThread") current pid) {
            thread_id = thread % 2 ^ 32;
            is_create = if create then 1 else 0;
            image_base = no_base;
            image_size = 0xffff;
          })))

abbrev pub full_name : Option (List ℕ) → List ℕ
full_name none = codes "Unknown"
full_name (some units) = units

-- `ImageSize` is a SIZE_T, and the event's field a ULONG.
unfoldable pub load_image_notify_routine : Current → Option (List ℕ) → ℕ → ImageInfo → Outcome
load_image_notify_routine current name pid info = sends (
    named (full_name name) (
      lined [] (record (event_of (codes "LoadImage") current pid) {
        thread_id = current.thread % 2 ^ 32;
        is_create = 1;
        image_base = info.image_base;
        image_size = info.image_size % 2 ^ 32;
      })))
