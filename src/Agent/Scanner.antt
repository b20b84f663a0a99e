-- ===== src/Agent/Scanner.antt =====
-- MedusaUserlandAgent/DLLScanner.go: the modules of a process by a toolhelp snapshot, and the
-- events that report them.
pub mod Walk
pub mod Reported
use open_anti_cheat.Common.{
  ℕ, zero, suc, ◌+◌, ◌%◌, ◌^◌, ◌≡◌, Option, none, some, List, [], ◌∷◌, ◌++◌, map, length,
}
use open_anti_cheat.Memory.Layout.{Slot, scalar, array, layout}
use open_anti_cheat.Text.Utf16.{utf16_to_string_win}
use open_anti_cheat.Agent.Buffers.{string_z_260_u16, string_z_260_i32, string_z_1024_u16}
use open_anti_cheat.Event.{AcEvent}

-- `ModuleInfo`
pub record ModuleInfo : Type 0 where
  pub name : List ℕ
  pub path : List ℕ
  pub base : ℕ
  pub size : ℕ

-- `moduleEntry32W`
pub record ModuleEntry : Type 0 where
  pub size : ℕ
  pub module_id : ℕ
  pub process_id : ℕ
  pub glblcnt_usage : ℕ
  pub proccnt_usage : ℕ
  pub mod_base_addr : ℕ
  pub mod_base_size : ℕ
  pub h_module : ℕ
  pub sz_module : List ℕ
  pub sz_exe_path : List ℕ

abbrev pub entry_slots : List Slot
entry_slots = layout (
    scalar 4
    ∷ scalar 4
    ∷ scalar 4
    ∷ scalar 4
    ∷ scalar 4
    ∷ scalar 8
    ∷ scalar 4
    ∷ scalar 8
    ∷ array 2 256
    ∷ array 2 260
    ∷ [])

-- `unsafe.Sizeof(me)`
abbrev pub entry_size : ℕ
entry_size = 1080

-- The toolhelp calls. `Snapshot` stands for where the walk through the snapshot is.
pub record Toolhelp : Type 1 where
  pub Snapshot : Type 0
  pub create : ℕ → Option Snapshot
  pub first : Snapshot → ModuleEntry → Option (ModuleEntry × Snapshot)
  pub next : Snapshot → ModuleEntry → Option (ModuleEntry × Snapshot)

pub data Modules : Type 0 where
  snapshot_failed first_failed : Modules
  modules : List ModuleInfo → Modules

-- A result with the number of snapshot handles that were closed on the way to it.
pub record Closing : Type 0 where
  pub result : Modules
  pub closed : ℕ

unfoldable pub module_info : ModuleEntry → ModuleInfo
module_info me = record {
  name = utf16_to_string_win me.sz_module;
  path = utf16_to_string_win me.sz_exe_path;
  base = me.mod_base_addr;
  size = me.mod_base_size;
}

abbrev pub no_entry : ModuleEntry
no_entry = record {
  size = entry_size;
  module_id = 0;
  process_id = 0;
  glblcnt_usage = 0;
  proccnt_usage = 0;
  mod_base_addr = 0;
  mod_base_size = 0;
  h_module = 0;
  sz_module = [];
  sz_exe_path = [];
}

module _ (api : Toolhelp) where
  open api use {Snapshot, create, first, next}

  -- The loop over the entries; `none`: the fuel ran out.
  unfoldable pub walk : ℕ → Snapshot → ModuleEntry → List ModuleInfo → Option (List ModuleInfo)
  walk zero s me out = none
  walk (suc fuel) s me out =
      let out' = out ++ module_info me ∷ [] in
      elim (next s (record me { size = entry_size })) [
        | none ↦ some out'
        | some (me', s') ↦ walk fuel s' me' out'
      ]

  unfoldable pub get_process_modules : ℕ → ℕ → Option Closing
  get_process_modules fuel pid = elim (create pid) [
    | none ↦ some (record { result = snapshot_failed; closed = 0 })
    | some s ↦ elim (first s no_entry) [
      | none ↦ some (record { result = first_failed; closed = 1 })
      | some (me, s') ↦ elim (walk fuel s' me []) [
        | none ↦ none
        | some out ↦ some (record { result = modules out; closed = 1 })
      ]
    ]
  ]

-- "DLLScan"
abbrev pub dll_scan : List ℕ
dll_scan = b'D' ∷ b'L' ∷ b'L' ∷ b'S' ∷ b'c' ∷ b'a' ∷ b'n' ∷ []

unfoldable pub dll_event : ModuleInfo → AcEvent
dll_event m = record {
  src = 1;
  event_type = string_z_260_u16 dll_scan;
  caller_pid = 0;
  target_pid = 0;
  thread_id = 0;
  image_file_name = string_z_260_i32 m.path;
  command_line = string_z_1024_u16 [];
  is_create = 0;
  image_base = m.base;
  image_size = m.size;
}

-- The modules that the scan goes through: none where the enumeration failed.
unfoldable pub found : Modules → List ModuleInfo
found snapshot_failed = []
found first_failed = []
found (modules ms) = ms

-- The events that `executeDLLScan` sends to EventChannel; the int32 is read as a uint32.
unfoldable pub execute_dll_scan : (api : Toolhelp) → ℕ → ℕ → Option (List AcEvent)
execute_dll_scan api fuel pid = elim (get_process_modules api fuel (pid % 2 ^ 32)) [
  | none ↦ none
  | some c ↦ some (map dll_event (found c.result))
]
