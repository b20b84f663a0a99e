-- ===== src/Route/Lines.antt =====
-- The answer to a command, from main of MedusaBackend/Main.go to the agent's callback and its scan,
-- and back over the wire to the lines of main's consumer.
use open_anti_cheat.Common.{
  suc, none, length-map, ℕ, ◌%◌, ◌^◌, ◌<◌, ◌≡◌, refl, sym, ap, ◌∙◌, Option, some, List, [], ◌∷◌,
  map, length, All, take, pos,
}
use open_anti_cheat.Text.Utf8.{encode_utf8}
use open_anti_cheat.Text.Utf16.{until_nul}
use open_anti_cheat.Text.Ascii.{codes}
use open_anti_cheat.Text.Json.Objects.{text, number, Member}
use open_anti_cheat.Event.{AcEvent, IsEvent, Padding, IsPadding}
use open_anti_cheat.Event.Json.{Shown}
use open_anti_cheat.Event.Json.Reading.{said}
use open_anti_cheat.Agent.Scanner.{
  dll_scan, modules, found, ModuleEntry, ModuleInfo, Toolhelp, module_info, dll_event,
  execute_dll_scan, get_process_modules,
}
use open_anti_cheat.Agent.Scanner.Walk.{Walks, get_process_modules_lem}
use open_anti_cheat.Agent.Scanner.Reported.{IsReportable, shown_module, module-IsEvent}
use open_anti_cheat.Agent.Main.{on_message}
use open_anti_cheat.Backend.Json.{shown}
use open_anti_cheat.Backend.Main.{output, read_lines, read_lines-output}
use open_anti_cheat.Route.{delivered, delivered_lem}
use open_anti_cheat.Backend.Server.{scan_dll}

abbrev somes : List (Option AcEvent) → List AcEvent
somes [] = []
somes (none ∷ os) = somes os
somes (some e ∷ os) = e ∷ somes os

-- What the backend prints of events that the agent sends, each with padding of its own.
abbrev pub console : (AcEvent → Padding) → List AcEvent → List ℕ
console pad es = output (somes (delivered pad es))

somes-map : (es : List AcEvent) → somes (map (λ e. some e) es) ≡ es
somes-map [] = refl
somes-map (e ∷ es) = ap (◌∷◌ e) (somes-map es)

-- Of events that a Go variable can hold, sent by the agent with any padding, the backend prints a
-- line each, in order, from which a reader of JSON takes the ten members by their keys: the numbers
-- of the event, with the int32 fields as signed numbers, and its texts as the backend's conversions
-- make them.
pub read_lines-console :
    (es : List AcEvent) (pad : AcEvent → Padding)
    → All IsEvent es
    → ((e : AcEvent) → IsPadding (pad e))
    → read_lines (length es) (console pad es) ≡ some (map (λ e. said (shown e) e) es, [])
read_lines-console es pad h hp =
    ap (λ os. read_lines (length es) (output (somes os))) (delivered_lem es pad h hp)
    ∙ (ap (λ es'. read_lines (length es) (output es')) (somes-map es) ∙ read_lines-output es h)

-- The line of a module.
abbrev pub module_line : ModuleEntry → List Member
module_line me =
    (codes "CallerPID", number (pos 0))
    ∷ (codes "CommandLine", text [])
    ∷ (codes "EventType", text (codes "DLLScan"))
    ∷ (codes "ImageBase", number (pos me.mod_base_addr))
    ∷ (codes "ImageFileName", text (encode_utf8 (take 259 (until_nul me.sz_exe_path))))
    ∷ (codes "ImageSize", number (pos me.mod_base_size))
    ∷ (codes "IsCreate", number (pos 0))
    ∷ (codes "Src", number (pos 1))
    ∷ (codes "TargetPID", number (pos 0))
    ∷ (codes "ThreadID", number (pos 0))
    ∷ []

abbrev module_shown : ModuleEntry → Shown
module_shown me = record {
  event_type = dll_scan;
  image_file_name = encode_utf8 (take 259 (until_nul me.sz_exe_path));
  command_line = [];
}

said-dll_event :
    (me : ModuleEntry) → said (module_shown me) (dll_event (module_info me)) ≡ module_line me
unfolding dll_event module_info
said-dll_event me = refl

abbrev scan_events : List ModuleEntry → List AcEvent
scan_events ms = map dll_event (map module_info ms)

said-scan_events :
    (ms : List ModuleEntry)
    → All IsReportable ms
    → map (λ e. said (shown e) e) (scan_events ms) ≡ map module_line ms
said-scan_events [] h = refl
said-scan_events (me ∷ ms) (ok, h) = λ i.
    (ap (λ s. said s (dll_event (module_info me))) (shown_module me ok) ∙ said-dll_event me) i
    ∷ said-scan_events ms h i

scan_events-IsEvent : (ms : List ModuleEntry) → All IsReportable ms → All IsEvent (scan_events ms)
scan_events-IsEvent [] h = tt
scan_events-IsEvent (me ∷ ms) (ok, h) = (module-IsEvent me ok, scan_events-IsEvent ms h)

length-scan_events : (ms : List ModuleEntry) → length (scan_events ms) ≡ length ms
length-scan_events ms = length-map dll_event (map module_info ms) ∙ length-map module_info ms

scan-console :
    (ms : List ModuleEntry) (pad : AcEvent → Padding)
    → All IsReportable ms
    → ((e : AcEvent) → IsPadding (pad e))
    → read_lines (length ms) (console pad (scan_events ms)) ≡ some (map module_line ms, [])
scan-console ms pad ok hp =
    ap (λ (n : ℕ). read_lines n (console pad (scan_events ms))) (sym (length-scan_events ms))
    ∙ (read_lines-console (scan_events ms) pad (scan_events-IsEvent ms ok) hp
        ∙ ap (λ ls. some (ls, [])) (said-scan_events ms ok))

on_message-scan_dll :
    (api : Toolhelp) (fuel pid : ℕ) (ms : List ModuleInfo) (n : ℕ)
    → get_process_modules api fuel (pid % 2 ^ 32)
      ≡ some (record { result = modules ms; closed = n })
    → on_message api fuel pid scan_dll ≡ some (map dll_event ms)
unfolding on_message execute_dll_scan found
on_message-scan_dll api fuel pid ms n e = rw (on_message, execute_dll_scan, e) refl

-- The command that the backend sends makes the agent send an event for each module of the protected
-- process, in order, and what the backend prints of them is a line for each, in order, that says of
-- its module the path, cut to 259 characters, the base address and the size, with the source 1, the
-- text "DLLScan", no command line and zeros. The snapshot yields its modules, one at least, with
-- numbers in range and paths without surrogates, and the fuel counts them.
pub on_message-lines :
    (api : Toolhelp) (pending : api.Snapshot → List ModuleEntry)
    → Walks api pending
    → (fuel pid : ℕ) (s : api.Snapshot) (m : ModuleEntry) (ms : List ModuleEntry)
      (pad : AcEvent → Padding)
    → api.create (pid % 2 ^ 32) ≡ some s
    → pending s ≡ m ∷ ms
    → length ms < fuel
    → All IsReportable (m ∷ ms)
    → ((e : AcEvent) → IsPadding (pad e))
    → (es : List AcEvent) × (on_message api fuel pid scan_dll ≡ some es)
      × (read_lines (suc (length ms)) (console pad es) ≡ some (map module_line (m ∷ ms), []))
on_message-lines api pending laws fuel pid s m ms pad made e enough ok hp = (
  scan_events (m ∷ ms),
  on_message-scan_dll api fuel pid _ _
      (get_process_modules_lem api pending laws fuel (pid % 2 ^ 32) s m ms made e enough),
  scan-console (m ∷ ms) pad ok hp,
)
