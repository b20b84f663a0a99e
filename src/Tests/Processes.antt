-- ===== src/Tests/Processes.antt =====
-- MedusaUserlandAgent/Injector.go, ETWConsumer.go and DLLScanner.go: calls of Windows at concrete
-- answers.
use open_anti_cheat.Common.{ℕ, ◌≡◌, refl, inr, none, some, List, [], ◌∷◌, ◌++◌}
use open_anti_cheat.Agent.Windows.Handles.{IsNeat}
use open_anti_cheat.Agent.Windows.Injector.{
  Kernel, inject_dll_into_pid, effect, check_exit, with_thread, write_path, into_process,
  with_process,
}
use open_anti_cheat.Agent.Windows.Injector.Closing.{inject_dll_into_pid-IsNeat}
use open_anti_cheat.Agent.Windows.Injector.Loaded.{Loads, inject_dll_into_pid-Loads}
use open_anti_cheat.Agent.Windows.Etw.{
  ensure_etw_enabled, SetsOrKeeps, ensure_etw_enabled-SetsOrKeeps,
}

-- All calls succeed.
abbrev kernel : Kernel
kernel = record {
  opened = λ pid. inr 64;
  utf16_from_string = λ s. inr (s ++ 0 ∷ []);
  allocated = λ h size. (4096, 0);
  written = λ h addr bytes. none;
  load_library = inr 77;
  created = λ h start arg. (68, 0);
  exit_code = λ th. (1, 5);
}

abbrev path : List ℕ
path = 97 ∷ 46 ∷ 100 ∷ []

loaded : (inject_dll_into_pid kernel 12 path).1 ≡ none
unfolding inject_dll_into_pid with_process into_process write_path with_thread check_exit
loaded = refl

inject_dll_into_pid-IsNeat_example : IsNeat effect [] (inject_dll_into_pid kernel 12 path)
inject_dll_into_pid-IsNeat_example = inject_dll_into_pid-IsNeat kernel 12 path

inject_dll_into_pid-Loads_example : Loads kernel 12 path (inject_dll_into_pid kernel 12 path).0
inject_dll_into_pid-Loads_example = inject_dll_into_pid-Loads kernel 12 path loaded

ensure_etw_enabled-SetsOrKeeps_example :
    SetsOrKeeps (some 0) (ensure_etw_enabled path path (inr 3) none (some 0))
ensure_etw_enabled-SetsOrKeeps_example =
    ensure_etw_enabled-SetsOrKeeps path path (inr 3) none (some 0)
