-- ===== src/Driver/Events/Shape.antt =====
-- The events of the routines of MedusaKernelDriver are such as a Go variable can hold.
use open_anti_cheat.Common.{
  ℕ, ◌%◌, ◌^◌, ◌∙◌, List, All, All-replicate, arith, replicate, length-replicate,
}
use open_anti_cheat.Text.Utf16.{IsUnit}
use open_anti_cheat.Memory.Words.{Fits}
use open_anti_cheat.Event.{AcEvent, IsEvent}
use open_anti_cheat.Driver.Strings.Stored.{
  length-wcsncpy_s, wcsncpy_s-IsUnit, wcsncpy_s_ints-Fits, length-wcsncpy_s_ints,
}
use open_anti_cheat.Driver.Notify.{Current, event_of, named, lined}

-- The event of a routine, with the fields that differ.
abbrev pub built : List ℕ → Current → ℕ → ℕ → ℕ → ℕ → ℕ → AcEvent
built type current pid tid create base size = record (event_of type current pid) {
  thread_id = tid % 2 ^ 32;
  is_create = create;
  image_base = base;
  image_size = size;
}

pub named-IsEvent :
    (src : List ℕ) (e : AcEvent) → All IsUnit src → IsEvent e → IsEvent (named src e)
named-IsEvent src e h ok = record {
  src = ok.src;
  event_type = ok.event_type;
  caller_pid = ok.caller_pid;
  target_pid = ok.target_pid;
  thread_id = ok.thread_id;
  image_file_name = (
    length-wcsncpy_s_ints e.image_file_name src 260 (omega arith)
          (omega (arith, ok.image_file_name.0))
        ∙ ok.image_file_name.0,
    wcsncpy_s_ints-Fits e.image_file_name src 260 ok.image_file_name.1 h,
  );
  command_line = ok.command_line;
  is_create = ok.is_create;
  image_base = ok.image_base;
  image_size = ok.image_size;
}

pub lined-IsEvent :
    (src : List ℕ) (e : AcEvent) → All IsUnit src → IsEvent e → IsEvent (lined src e)
lined-IsEvent src e h ok = record {
  src = ok.src;
  event_type = ok.event_type;
  caller_pid = ok.caller_pid;
  target_pid = ok.target_pid;
  thread_id = ok.thread_id;
  image_file_name = ok.image_file_name;
  command_line = (
    length-wcsncpy_s e.command_line src (omega (arith, ok.command_line.0)) ∙ ok.command_line.0,
    wcsncpy_s-IsUnit e.command_line src ok.command_line.1 h,
  );
  is_create = ok.is_create;
  image_base = ok.image_base;
  image_size = ok.image_size;
}

pub built-IsEvent :
    (type : List ℕ) (current : Current) (pid tid create base size : ℕ)
    → All IsUnit type
    → Fits 4 create
    → Fits 8 base
    → Fits 4 size
    → IsEvent (built type current pid tid create base size)
built-IsEvent type current pid tid create base size ht hc hb hs = record {
  src = omega arith;
  event_type = (
    length-wcsncpy_s (replicate 260 0) type (omega (arith, length-replicate {A = ℕ} 260 0))
        ∙ length-replicate {A = ℕ} 260 0,
    wcsncpy_s-IsUnit (replicate 260 0) type (All-replicate IsUnit 260 0 (omega arith)) ht,
  );
  caller_pid = omega arith;
  target_pid = omega arith;
  thread_id = omega arith;
  image_file_name = (length-replicate {A = ℕ} 260 0, All-replicate (Fits 4) 260 0 (omega arith));
  command_line = (length-replicate {A = ℕ} 1024 0, All-replicate IsUnit 1024 0 (omega arith));
  is_create = hc;
  image_base = hb;
  image_size = hs;
}
