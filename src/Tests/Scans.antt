-- ===== src/Tests/Scans.antt =====
-- MedusaUserlandAgent/DLLScanner.go: a snapshot that is a list of entries.
use open_anti_cheat.Common.{
  ◌≡◌, refl, Option, none, some, List, [], ◌∷◌, map, ◌==◌, if◌then◌else◌, arith,
}
use open_anti_cheat.Text.Utf16.{until_nul}
use open_anti_cheat.Agent.Scanner.{
  ModuleEntry, Toolhelp, entry_size, no_entry, modules, module_info, get_process_modules,
}
use open_anti_cheat.Agent.Scanner.Walk.{SameModule, Walks, get_process_modules_lem}
use open_anti_cheat.Agent.Scanner.Reported.{IsReportable}

-- A call on an entry of the wrong size fails, and one that succeeds spoils the size.
pub list_next : List ModuleEntry → ModuleEntry → Option (ModuleEntry × List ModuleEntry)
list_next [] me = none
list_next (m ∷ ms) me = if me.size == entry_size then some (record m { size = 0 }, ms) else none

-- "K" and "GO", in a buffer with something behind the NUL.
abbrev pub kernel : ModuleEntry
kernel = record no_entry {
  mod_base_addr = 0x7ff8_0000_0000;
  mod_base_size = 0x1000;
  sz_exe_path = b'K' ∷ 0 ∷ 0xD800 ∷ [];
}

abbrev pub game : ModuleEntry
game = record no_entry {
  mod_base_addr = 0x1_4000_0000;
  mod_base_size = 0x2000;
  sz_exe_path = b'G' ∷ b'O' ∷ 0 ∷ [];
}

abbrev pub listed : Toolhelp
listed = record {
  Snapshot = List ModuleEntry;
  create = λ pid. some (kernel ∷ game ∷ []);
  first = list_next;
  next = list_next;
}

list_next-some :
    (s : List ModuleEntry) (me m : ModuleEntry) (ms : List ModuleEntry)
    → s ≡ m ∷ ms
    → me.size ≡ entry_size
    → (me' : ModuleEntry) × (s' : List ModuleEntry) × (list_next s me ≡ some (me', s'))
      × SameModule me' m
      × (s' ≡ ms)
unfolding list_next
list_next-some s me m ms e size =
    (record m { size = 0 }, ms, rw (e, list_next) (rw size), refl, refl)

list_next-none : (s : List ModuleEntry) (me : ModuleEntry) → s ≡ [] → list_next s me ≡ none
unfolding list_next
list_next-none s me e = rw e

pub listed-Walks : Walks listed (λ s. s)
listed-Walks = record {
  first_some = list_next-some;
  next_some = list_next-some;
  next_none = list_next-none;
}

get_process_modules_lem_example :
    get_process_modules listed 5 77
    ≡ some (record { result = modules (map module_info (kernel ∷ game ∷ [])); closed = 1 })
get_process_modules_lem_example =
    get_process_modules_lem listed (λ s. s) listed-Walks 5 77 (kernel ∷ game ∷ []) kernel
      (game ∷ []) refl refl (omega arith)

pub kernel-IsReportable : IsReportable kernel
unfolding until_nul
kernel-IsReportable = record { base = omega arith; size = omega arith; path = ground arith }

pub game-IsReportable : IsReportable game
unfolding until_nul
game-IsReportable = record { base = omega arith; size = omega arith; path = ground arith }
