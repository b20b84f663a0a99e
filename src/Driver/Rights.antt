-- ===== src/Driver/Rights.antt =====
-- The rights that a handle of the protected process is left with, from the connection of
-- MedusaUserlandAgent/structs.go on.
pub mod Masks
use open_anti_cheat.Common.{
  ℕ, zero, suc, ◌+◌, ◌*◌, ◌/◌, ◌%◌, ◌^◌, ◌≤◌, ◌≡◌, ◌≢◌, refl, ap, ◌∙◌, min, some, List, length,
  take, drop, true, false, ◌==◌, ==_self, arith,
}
use open_anti_cheat.Memory.Words.{Fits, le_bytes, le_value, write_words, le_value-le_bytes}
use open_anti_cheat.Memory.Layout.{encode}
use open_anti_cheat.Agent.Receiver.Port.{ctx_bytes}
use open_anti_cheat.Event.{AcEvent}
use open_anti_cheat.Driver.Rights.Masks.{allowed, bit_and-minimal_allow}
use open_anti_cheat.Driver.Notify.{Pids, no_pid, Current, Outcome, sends}
use open_anti_cheat.Driver.Callback.{
  Request, creates, duplicates, Operation, minimal_allow, sign_extended, limited, create_callback,
  miniflt_port_notify_routine,
}

module _ (pid agent : ℕ) (fits_pid : Fits 4 pid) (fits_agent : Fits 4 agent) where
  abbrev bytes : List ℕ
  bytes = ctx_bytes (record { version = 1; to_protect_pid = pid; agent_pid = agent })

  length-bytes : length bytes ≡ 12
  unfolding ctx_bytes encode write_words le_bytes
  length-bytes = refl

  version_word : le_value (take 4 bytes) ≡ 1
  unfolding ctx_bytes encode write_words le_bytes take
  version_word = le_value-le_bytes 4 1 (omega arith)

  pid_word : le_value (take 4 (drop 4 bytes)) ≡ pid
  unfolding ctx_bytes encode write_words le_bytes take drop
  pid_word = le_value-le_bytes 4 pid fits_pid

  agent_word : le_value (take 4 (drop 8 bytes)) ≡ agent
  unfolding ctx_bytes encode write_words le_bytes take drop
  agent_word = le_value-le_bytes 4 agent fits_agent

  connects :
      (pids : Pids)
      → miniflt_port_notify_routine pids (some bytes)
        ≡ some (record { to_protect_pid = pid; agent_pid = agent })
  unfolding miniflt_port_notify_routine
  connects pids = rw (length-bytes, version_word, pid_word, agent_word) refl

abbrev access_of : Request → ℕ
access_of (creates access) = access
access_of (duplicates access) = access

abbrev with_access : Request → ℕ → Request
with_access (creates access) n = creates n
with_access (duplicates access) n = duplicates n

-- The operation opens a handle of the process from user mode.
abbrev pub Opens : ℕ → Operation → Type 0
Opens pid op = (op.kernel_handle ≡ false) × (op.is_process ≡ true) × (op.pid % 2 ^ 32 ≡ pid)

limited_lem : (r : Request) → limited r ≡ with_access r (allowed (access_of r))
limited_lem (creates access) = ap creates (bit_and-minimal_allow access)
limited_lem (duplicates access) = ap duplicates (bit_and-minimal_allow access)

ne→== : (a b : ℕ) → a ≢ b → (a == b) ≡ false
ne→== a b h = ground arith

-- The event that tells of the caller and the process.
abbrev pub Tells : Current → ℕ → Outcome → Type 0
Tells current pid o =
    (e : AcEvent) × (o ≡ sends e) × (e.caller_pid ≡ current.process % 2 ^ 32) × (e.target_pid ≡ pid)

module _ (pid agent : ℕ) (current : Current) (op : Operation) where
  abbrev protected : Pids
  protected = record { to_protect_pid = pid; agent_pid = agent }

  create_callback_lem :
      pid ≢ no_pid
      → Opens pid op
      → current.process ≢ sign_extended agent
      → ((create_callback protected current op).0
          ≡ with_access op.request (allowed (access_of op.request)))
        × Tells current pid (create_callback protected current op).1
  unfolding create_callback
  create_callback_lem set (user, process, same) other =
      rw
        (
          user,
          process,
          ne→== pid no_pid set,
          same,
          ==_self pid,
          ne→== current.process (sign_extended agent) other,
        )
        (limited_lem op.request, (_, refl, refl, refl))

  -- Once the agent's Connect has reached the driver with a PID other than 99133799, an operation
  -- that opens or duplicates a handle of a process with that PID from user mode, by another process
  -- than the agent, is left with the rights 0x1000 and 0x100000 only, as far as it asks for them,
  -- and an event is sent that tells of the caller and the process.
  pub create_callback-connected :
      (pids : Pids)
      → Fits 4 pid
      → Fits 4 agent
      → pid ≢ no_pid
      → Opens pid op
      → current.process ≢ sign_extended agent
      → (after : Pids) × (miniflt_port_notify_routine pids
            (some (ctx_bytes (record { version = 1; to_protect_pid = pid; agent_pid = agent })))
          ≡ some after)
        × ((create_callback after current op).0
            ≡ with_access op.request (allowed (access_of op.request)))
        × Tells current pid (create_callback after current op).1
  create_callback-connected pids fits_pid fits_agent set opens other = (
    protected,
    connects pid agent fits_pid fits_agent pids,
    (create_callback_lem set opens other).0,
    (create_callback_lem set opens other).1,
  )
