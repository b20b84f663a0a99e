-- ===== src/Driver/Events/Reports.antt =====
-- What the events of the routines of MedusaKernelDriver report, field by field.
use open_anti_cheat.Common.{
  ℕ, ◌%◌, ◌^◌, ◌≡◌, refl, sym, ap, Bool, true, false, not, ◌&&◌, ◌==◌, if◌then◌else◌, Option, none,
  some, List, [], arith, replicate, take, drop,
}
use open_anti_cheat.Text.Ascii.{codes}
use open_anti_cheat.Text.Utf16.{until_nul}
use open_anti_cheat.Event.{AcEvent}
use open_anti_cheat.Driver.Strings.{wcsncpy_s}
use open_anti_cheat.Driver.Notify.{
  Pids, Current, Outcome, ignores, sends, CreateInfo, no_pid, no_base, named, lined,
  create_process_notify_routine_ex, create_thread_notify_routine, load_image_notify_routine,
  full_name,
}
use open_anti_cheat.Driver.Callback.{create_callback}
use open_anti_cheat.Driver.Events.{
  Notice, process, thread, image, handle, on_notice, IsNotice, IsDescribed,
}
use open_anti_cheat.Driver.Events.Shape.{built}

pub record Report : Type 0 where
  pub type : List ℕ
  pub name : List ℕ
  pub line : List ℕ
  pub pid : ℕ
  pub tid : ℕ
  pub create : ℕ
  pub base : ℕ
  pub size : ℕ

abbrev pub reported : Current → Report → AcEvent
reported current r =
    named r.name (lined r.line (built r.type current r.pid r.tid r.create r.base r.size))

-- The texts of a new process: "Unknown" for both if it has no name.
abbrev process_name : CreateInfo → List ℕ
process_name info = full_name info.image_file_name

abbrev process_line : CreateInfo → List ℕ
process_line info = elim info.image_file_name [
  | none ↦ codes "Unknown"
  | some name ↦ elim info.command_line [ none ↦ [] | some line ↦ line ]
]

abbrev pub report : Current → Notice → Report
report current (process pid none) = record {
  type = codes "CreateProcess";
  name = codes "Terminated";
  line = [];
  pid = pid;
  tid = current.thread;
  create = 0;
  base = no_base;
  size = 0xffff;
}
report current (process pid (some info)) = record {
  type = codes "CreateProcess";
  name = process_name info;
  line = process_line info;
  pid = pid;
  tid = current.thread;
  create = 1;
  base = no_base;
  size = 0xffff;
}
report current (thread pid tid create) = record {
  type = codes "CreateThread";
  name = [];
  line = [];
  pid = pid;
  tid = tid;
  create = 1;
  base = no_base;
  size = 0xffff;
}
report current (image name pid info) = record {
  type = codes "LoadImage";
  name = full_name name;
  line = [];
  pid = pid;
  tid = current.thread;
  create = 1;
  base = info.image_base;
  size = info.image_size % 2 ^ 32;
}
report current (handle op) = record {
  type = codes "HandleOperation";
  name = [];
  line = [];
  pid = op.pid;
  tid = current.thread;
  create = 1;
  base = no_base;
  size = 0xffff;
}

-- There is a protected process, and it is this one.
abbrev protects : Pids → ℕ → Bool
protects pids pid = not (pids.to_protect_pid == no_pid) && pid % 2 ^ 32 == pids.to_protect_pid

-- Whether the driver tells of the notice.
abbrev pub tells : Pids → Notice → Bool
tells pids (process pid info) = true
tells pids (thread pid tid create) = create && protects pids pid
tells pids (image name pid info) = true
tells pids (handle op) = not op.kernel_handle && (op.is_process && protects pids op.pid)

abbrev pub told : Pids → Current → Notice → Outcome
told pids current n = if tells pids n then sends (reported current (report current n)) else ignores

cleared : wcsncpy_s (replicate 1024 0) [] ≡ replicate 1024 0
unfolding wcsncpy_s until_nul take drop replicate
cleared = refl

created_lem :
    (pids : Pids) (current : Current) (pid : ℕ) (name line : Option (List ℕ))
    → IsDescribed name line
    → let n = process pid (some (record { image_file_name = name; command_line = line })) in
      on_notice pids current n ≡ told pids current n
unfolding on_notice create_process_notify_routine_ex
created_lem pids current pid none line h = refl
created_lem pids current pid (some name) none h = absurd h
created_lem pids current pid (some name) (some line) h = refl

-- The routines tell of the creation and the end of every process and of the loading of every image,
-- and of the new threads and the handles from user mode of the protected process.
pub on_notice_lem :
    (pids : Pids) (current : Current) (n : Notice)
    → IsNotice n
    → on_notice pids current n ≡ told pids current n
unfolding on_notice create_process_notify_routine_ex create_thread_notify_routine
    load_image_notify_routine create_callback
on_notice_lem pids current (process pid none) h =
    ap
      (λ line.
        sends
          (record (reported current (report current (process pid none))) { command_line = line }))
      (sym cleared)
on_notice_lem pids current (process pid (some info)) h =
    created_lem pids current pid info.image_file_name info.command_line h.2
on_notice_lem pids current (thread pid tid true) h = ground arith
on_notice_lem pids current (thread pid tid false) h = refl
on_notice_lem pids current (image name pid info) h = refl
on_notice_lem pids current (handle op) h = ground arith
