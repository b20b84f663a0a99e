-- ===== src/Agent/Scanner/Reported.antt =====
-- What the backend shows of a module that the agent's scan has found.
use open_anti_cheat.Common.{
  ℕ, ◌-◌, ◌≡◌, refl, sym, ap, subst, ◌∙◌, List, [], length, arith, take, replicate,
  length-replicate, All, All-map,
}
use open_anti_cheat.Memory.Words.{Fits}
use open_anti_cheat.Text.Utf8.{encode_utf8, encode_rune, IsScalar}
use open_anti_cheat.Text.Utf16.{
  IsBmp, until_nul, utf16_to_string_win, encode_utf16, encode_unit, decode_bmp, encode_wtf8-scalar,
}
use open_anti_cheat.Agent.Buffers.{
  int32, uint16, string_z_into, string_z_260_u16, string_z_260_i32, string_z_1024_u16,
}
use open_anti_cheat.Agent.Buffers.Shape.{IsBuffer, string_z_into-IsBuffer}
use open_anti_cheat.Agent.Scanner.{ModuleInfo, ModuleEntry, module_info, dll_scan, dll_event}
use open_anti_cheat.Event.{AcEvent, IsEvent, Padding, IsPadding, ev_to_bytes, event_of_bytes}
use open_anti_cheat.Event.Wire.{event_of_bytes-ev_to_bytes}
use open_anti_cheat.Backend.Strings
use open_anti_cheat.Backend.Json.{shown}
use open_anti_cheat.Backend.Stored.{utf16_round_trip, int32_round_trip}

-- A module as the snapshot reports it: its numbers are in range.
pub record IsModule (m : ModuleInfo) : Type 0 where
  pub base : Fits 8 m.base
  pub size : Fits 4 m.size

blank : (n : ℕ) → length (replicate {A = ℕ} n 0) ≡ n
blank n = length-replicate n 0

string_z_260_u16-IsBuffer : (s : List ℕ) → IsBuffer uint16 260 (string_z_260_u16 s)
unfolding string_z_260_u16
string_z_260_u16-IsBuffer s =
    subst (λ n. IsBuffer uint16 n (string_z_into uint16 (replicate 260 0) s)) (blank 260)
      (string_z_into-IsBuffer uint16 (replicate 260 0) s)

string_z_260_i32-IsBuffer : (s : List ℕ) → IsBuffer int32 260 (string_z_260_i32 s)
unfolding string_z_260_i32
string_z_260_i32-IsBuffer s =
    subst (λ n. IsBuffer int32 n (string_z_into int32 (replicate 260 0) s)) (blank 260)
      (string_z_into-IsBuffer int32 (replicate 260 0) s)

string_z_1024_u16-IsBuffer : (s : List ℕ) → IsBuffer uint16 1024 (string_z_1024_u16 s)
unfolding string_z_1024_u16
string_z_1024_u16-IsBuffer s =
    subst (λ n. IsBuffer uint16 n (string_z_into uint16 (replicate 1024 0) s)) (blank 1024)
      (string_z_into-IsBuffer uint16 (replicate 1024 0) s)

pub dll_event-IsEvent : (m : ModuleInfo) → IsModule m → IsEvent (dll_event m)
unfolding dll_event
dll_event-IsEvent m ok = record {
  src = omega arith;
  event_type = ((string_z_260_u16-IsBuffer _).full, (string_z_260_u16-IsBuffer _).fits);
  caller_pid = omega arith;
  target_pid = omega arith;
  thread_id = omega arith;
  image_file_name =
      ((string_z_260_i32-IsBuffer m.path).full, (string_z_260_i32-IsBuffer m.path).fits);
  command_line = ((string_z_1024_u16-IsBuffer []).full, (string_z_1024_u16-IsBuffer []).fits);
  is_create = omega arith;
  image_base = ok.base;
  image_size = ok.size;
}

shown_type : Strings.utf16_to_string (string_z_260_u16 dll_scan) ≡ dll_scan
unfolding string_z_260_u16 encode_utf8 encode_rune encode_utf16 encode_unit
shown_type =
    (utf16_round_trip (replicate 260 0) dll_scan (rw (blank 260) (omega arith)) (ground arith)
      (ground arith) (rw (blank 260) (omega arith))).0

shown_nothing : Strings.utf16_to_string (string_z_1024_u16 []) ≡ []
unfolding string_z_1024_u16 encode_utf8 encode_utf16
shown_nothing =
    (utf16_round_trip (replicate 1024 0) [] (rw (blank 1024) (omega arith)) tt tt
      (rw (blank 1024) (omega arith))).0

shown_path :
    (rs : List ℕ)
    → All IsBmp rs
    → Strings.int32_to_string (string_z_260_i32 (encode_utf8 rs)) ≡ encode_utf8 (take 259 rs)
unfolding string_z_260_i32
shown_path rs h =
    int32_round_trip (replicate 260 0) rs (rw (blank 260) (omega arith)) h
    ∙ ap (λ (n : ℕ). encode_utf8 (take (n - 1) rs)) (blank 260)

-- A path in UTF-16 with no surrogate is the UTF-8 of its code units.
path_text :
    (us : List ℕ) → All IsBmp (until_nul us) → utf16_to_string_win us ≡ encode_utf8 (until_nul us)
unfolding utf16_to_string_win
path_text us h =
    rw (decode_bmp (λ u. u) (until_nul us) h)
      (encode_wtf8-scalar _ (All-map IsBmp IsScalar bmp_scalar _ h))
  where
    bmp_scalar : (r : ℕ) → IsBmp r → IsScalar r
    bmp_scalar r h = ground arith

-- An entry whose numbers are in range, and whose path holds no surrogate.
pub record IsReportable (me : ModuleEntry) : Type 0 where
  pub base : Fits 8 me.mod_base_addr
  pub size : Fits 4 me.mod_base_size
  pub path : All IsBmp (until_nul me.sz_exe_path)

-- What an event reports of a module: the text "DLLScan", the module's path, cut to 259 characters,
-- no command line, and the base address and the size of the module.
abbrev pub Reports : ModuleEntry → AcEvent → Type 0
Reports me e =
    (shown e ≡ record {
      event_type = dll_scan;
      image_file_name = encode_utf8 (take 259 (until_nul me.sz_exe_path));
      command_line = [];
    })
    × (e.image_base ≡ me.mod_base_addr)
    × (e.image_size ≡ me.mod_base_size)

pub shown_module :
    (me : ModuleEntry)
    → IsReportable me
    → shown (dll_event (module_info me)) ≡ record {
      event_type = dll_scan;
      image_file_name = encode_utf8 (take 259 (until_nul me.sz_exe_path));
      command_line = [];
    }
unfolding dll_event module_info
shown_module me ok i = record {
  event_type = shown_type i;
  image_file_name =
      (ap (λ s. Strings.int32_to_string (string_z_260_i32 s)) (path_text me.sz_exe_path ok.path)
          ∙ shown_path (until_nul me.sz_exe_path) ok.path)
        i;
  command_line = shown_nothing i;
}

dll_event-Reports : (me : ModuleEntry) → IsReportable me → Reports me (dll_event (module_info me))
unfolding dll_event module_info
dll_event-Reports me ok = (shown_module me ok, refl, refl)

module_info-IsModule : (me : ModuleEntry) → IsReportable me → IsModule (module_info me)
unfolding module_info
module_info-IsModule me ok = record { base = ok.base; size = ok.size }

pub module-IsEvent : (me : ModuleEntry) → IsReportable me → IsEvent (dll_event (module_info me))
module-IsEvent me ok = dll_event-IsEvent (module_info me) (module_info-IsModule me ok)

-- The event of a scanned module crosses the wire, whatever its padding, and the backend shows of it
-- the text "DLLScan", the module's path, cut to 259 characters, no command line, and the module's
-- base address and size.
pub scanned_module-Reports :
    (me : ModuleEntry) (p : Padding)
    → IsReportable me
    → IsPadding p
    → Reports me (event_of_bytes (ev_to_bytes (dll_event (module_info me)) p))
scanned_module-Reports me p ok hp =
    subst (Reports me)
      (sym (event_of_bytes-ev_to_bytes (dll_event (module_info me)) p (module-IsEvent me ok) hp))
      (dll_event-Reports me ok)
