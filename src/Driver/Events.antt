-- ===== src/Driver/Events.antt =====
-- The events that the routines of MedusaKernelDriver send, for each of the system's notices to the
-- driver, and the messages that they arrive in at the agent.
pub mod Shape
pub mod Reports
pub mod Said
pub mod Lines
use open_anti_cheat.Common.{ℕ, Bool, Option, none, some, List, [], ◌∷◌, ◌++◌, All}
use open_anti_cheat.Text.Utf16.{IsUnit}
use open_anti_cheat.Memory.Words.{Fits}
use open_anti_cheat.Event.{AcEvent, Padding, IsPadding}
use open_anti_cheat.Agent.Receiver.{FilterMessageHeader}
use open_anti_cheat.Agent.Receiver.Messages.{IsHeader, Incoming, message}
use open_anti_cheat.Driver.Notify.{
  Pids, Current, Outcome, faults, ignores, sends, CreateInfo, ImageInfo,
  create_process_notify_routine_ex, create_thread_notify_routine, load_image_notify_routine,
}
use open_anti_cheat.Driver.Callback.{Operation, create_callback}

-- What the system tells the driver, by the registrations of `registerNotifyRoutine` and
-- `createRegistration`.
pub data Notice : Type 0 where
  process : ℕ → Option CreateInfo → Notice
  thread : ℕ → ℕ → Bool → Notice
  image : Option (List ℕ) → ℕ → ImageInfo → Notice
  handle : Operation → Notice

unfoldable pub on_notice : Pids → Current → Notice → Outcome
on_notice pids current (process pid info) = create_process_notify_routine_ex current pid info
on_notice pids current (thread pid tid create) =
    create_thread_notify_routine pids current pid tid create
on_notice pids current (image name pid info) = load_image_notify_routine current name pid info
on_notice pids current (handle op) = (create_callback pids current op).1

-- A notice in its circumstances, with the header and the padding of the message that it may lead
-- to.
pub record Occurrence : Type 0 where
  pub pids : Pids
  pub current : Current
  pub notice : Notice
  pub header : FilterMessageHeader
  pub gap : List ℕ
  pub padding : Padding

abbrev pub outcome : Occurrence → Outcome
outcome o = on_notice o.pids o.current o.notice

-- The messages of a run, none of which is lost.
abbrev pub message_of : Occurrence → Outcome → List Incoming
message_of o (sends e) = message o.header o.gap e o.padding ∷ []
message_of o faults = []
message_of o ignores = []

abbrev pub messages : List Occurrence → List Incoming
messages [] = []
messages (o ∷ os) = message_of o (outcome o) ++ messages os

-- The texts are UTF-16, and the base address is 64 bits wide.
abbrev pub IsText : Option (List ℕ) → Type 0
IsText none = Unit {0}
IsText (some us) = All IsUnit us

-- A process that has a name has a command line too.
abbrev pub IsDescribed : Option (List ℕ) → Option (List ℕ) → Type 0
IsDescribed (some name) none = ⊥
IsDescribed _ _ = Unit {0}

abbrev pub IsNotice : Notice → Type 0
IsNotice (process pid none) = Unit {0}
IsNotice (process pid (some info)) =
    IsText info.image_file_name
    × IsText info.command_line
    × IsDescribed info.image_file_name info.command_line
IsNotice (thread pid tid create) = Unit {0}
IsNotice (image name pid info) = IsText name × Fits 8 info.image_base
IsNotice (handle op) = Unit {0}

pub record IsOccurrence (o : Occurrence) : Type 0 where
  pub notice : IsNotice o.notice
  pub header : IsHeader o.header o.gap
  pub padding : IsPadding o.padding
