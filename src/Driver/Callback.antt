-- ===== src/Driver/Callback.antt =====
-- `CreateCallback` of MedusaKernelDriver/Callback.c, which the system calls before it opens or
-- duplicates a handle, and the connection of the agent in Coms.c, which sets the PIDs that it goes
-- by.
use Prim.Native.Nat.{bit_and}
use open_anti_cheat.Common.{
  ℕ, ◌+◌, ◌-◌, ◌%◌, ◌^◌, Option, none, some, List, [], length, take, drop, Bool, not, ◌||◌, ltb,
  ◌==◌, if◌then◌else◌,
}
use open_anti_cheat.Text.Ascii.{codes}
use open_anti_cheat.Memory.Words.{le_value}
use open_anti_cheat.Driver.Notify.{
  Pids, no_pid, Current, Outcome, ignores, sends, event_of, named, lined, no_base,
}

-- `Operation` with `DesiredAccess` of the parameters that go with it.
pub data Request : Type 0 where
  creates duplicates : ℕ → Request

-- `OB_PRE_OPERATION_INFORMATION`; `pid` is what PsGetProcessId says of the object.
pub record Operation : Type 0 where
  pub kernel_handle : Bool
  pub is_process : Bool
  pub pid : ℕ
  pub request : Request

-- `PROCESS_QUERY_LIMITED_INFORMATION | SYNCHRONIZE`
abbrev pub minimal_allow : ℕ
minimal_allow = 0x101000

abbrev pub limited : Request → Request
limited (creates access) = creates (bit_and access minimal_allow)
limited (duplicates access) = duplicates (bit_and access minimal_allow)

-- A LONG as it is compared with a HANDLE: with its sign.
abbrev pub sign_extended : ℕ → ℕ
sign_extended v = if ltb v (2 ^ 31) then v else v + 2 ^ 64 - 2 ^ 32

-- The operation's parameters as the callback leaves them, and the event.
unfoldable pub create_callback : Pids → Current → Operation → Request × Outcome
create_callback pids current op =
    if op.kernel_handle || not op.is_process
    then (op.request, ignores)
    else if pids.to_protect_pid == no_pid
    then (op.request, ignores)
    else if not (op.pid % 2 ^ 32 == pids.to_protect_pid)
    then (op.request, ignores)
    else (
      if current.process == sign_extended pids.agent_pid then op.request else limited op.request,
      sends (
          lined [] (
            named [] (record (event_of (codes "HandleOperation") current op.pid) {
              thread_id = current.thread % 2 ^ 32;
              is_create = 1;
              image_base = no_base;
              image_size = 0xffff;
            }))),
    )

-- `MinifltPortNotifyRoutine`, with the bytes of the context, if there is one. `none`: it reads
-- behind them; it never looks at their number.
unfoldable pub miniflt_port_notify_routine : Pids → Option (List ℕ) → Option Pids
miniflt_port_notify_routine pids none = some pids
miniflt_port_notify_routine pids (some bytes) =
    if ltb (length bytes) 4
    then none
    else if not (le_value (take 4 bytes) == 1)
    then some pids
    else if ltb (length bytes) 12
    then none
    else some (record {
      to_protect_pid = le_value (take 4 (drop 4 bytes));
      agent_pid = le_value (take 4 (drop 8 bytes));
    })
