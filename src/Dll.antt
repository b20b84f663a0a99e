-- ===== src/Dll.antt =====
-- The monitoring DLL: the hook of dllmain.cpp and `SendIPCMessageRaw` of IPC.c in
-- MedusaUserDLL/MedusaDLL/MedusaDLL.
pub mod Lines
use open_anti_cheat.Common.{
  ℕ, ◌%◌, ◌^◌, Option, none, some, List, [], ◌∷◌, replicate, length, take, ◌==◌, if◌then◌else◌,
}
use open_anti_cheat.Event.{AcEvent, dll}
use open_anti_cheat.Text.Ascii.{codes}
use open_anti_cheat.Driver.Strings.{wcsncpy_s}
use open_anti_cheat.Driver.Notify.{zero_event}

-- One call of the hook: GetCurrentProcessId, GetProcessId of the target, `*tid` after the real
-- function where `tid` is given, the thread of its result, `none` for a null handle, and `start`.
pub record HookCall : Type 0 where
  pub caller : ℕ
  pub target : ℕ
  pub tid : Option ℕ
  pub created : Option ℕ
  pub start : ℕ

-- `h ? (int)GetThreadId(h) : 0`
abbrev pub thread_of : Option ℕ → ℕ
thread_of none = 0
thread_of (some t) = t

abbrev pub thread_id : Option ℕ → Option ℕ → ℕ
thread_id none created = thread_of created
thread_id (some t) created = if t == 0 then thread_of created else t

abbrev pub is_create : Option ℕ → ℕ
is_create none = 0
is_create (some t) = 1

-- The event of `HookCreateRemoteThreadEx`.
unfoldable pub hook_event : HookCall → AcEvent
hook_event call = record zero_event {
  src = dll;
  event_type = wcsncpy_s (replicate 260 0) (codes "CreateRemoteThreadEx");
  caller_pid = call.caller;
  target_pid = call.target;
  thread_id = thread_id call.tid call.created;
  is_create = is_create call.created;
  image_base = call.start;
  image_size = 0;
}

-- The event of `SendTestEvent`, in a process and one of its threads.
unfoldable pub test_event : ℕ → ℕ → AcEvent
test_event pid tid = record zero_event {
  src = dll;
  event_type = wcsncpy_s (replicate 260 0) (codes "TestEvent");
  caller_pid = pid;
  target_pid = pid;
  thread_id = tid;
  command_line = wcsncpy_s (replicate 1024 0) (codes "echo hello world");
  is_create = 1;
  image_base = 0xDEADBEEF;
  image_size = 1234;
}

-- How CreateFileW and WriteFile go: no handle, a failed write, or the number of bytes written.
pub data Pipe : Type 0 where
  no_pipe write_failed : Pipe
  wrote : ℕ → Pipe

-- `SendIPCMessageRaw`: its result, and the messages that stand in the pipe when it is closed.
unfoldable pub send_ipc_message_raw : Pipe → List ℕ → ℕ × List (List ℕ)
send_ipc_message_raw no_pipe bytes = (0, [])
send_ipc_message_raw write_failed bytes = (0, [])
send_ipc_message_raw (wrote n) bytes = (if n == length bytes then 1 else 0, take n bytes ∷ [])
