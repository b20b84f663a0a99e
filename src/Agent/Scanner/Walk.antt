-- ===== src/Agent/Scanner/Walk.antt =====
-- GetProcessModules of MedusaUserlandAgent/DLLScanner.go: its walk over the snapshot.
use open_anti_cheat.Common.{
  ℕ, zero, suc, ◌<◌, ◌≡◌, refl, ap, ◌∙◌, none, some, List, [], ◌∷◌, ◌++◌, map, length, arith,
  append_assoc,
}
use open_anti_cheat.Agent.Scanner.{
  ModuleInfo, ModuleEntry, entry_size, Toolhelp, modules, no_entry, module_info, walk,
  get_process_modules,
}

-- Two entries that name the same module; the call may change the size field of the entry.
abbrev pub SameModule : ModuleEntry → ModuleEntry → Type 0
SameModule a b = record a { size = entry_size } ≡ record b { size = entry_size }

-- The documented behaviour of the toolhelp calls: `pending` is what a snapshot has still to yield.
-- A call on an entry of the right size yields the next module, and fails behind the last.
pub record Walks (api : Toolhelp) (pending : api.Snapshot → List ModuleEntry) : Type 0 where
  pub first_some :
      (s : api.Snapshot) (me m : ModuleEntry) (ms : List ModuleEntry)
      → pending s ≡ m ∷ ms
      → me.size ≡ entry_size
      → (me' : ModuleEntry) × (s' : api.Snapshot) × (api.first s me ≡ some (me', s'))
        × SameModule me' m
        × (pending s' ≡ ms)
  pub next_some :
      (s : api.Snapshot) (me m : ModuleEntry) (ms : List ModuleEntry)
      → pending s ≡ m ∷ ms
      → me.size ≡ entry_size
      → (me' : ModuleEntry) × (s' : api.Snapshot) × (api.next s me ≡ some (me', s'))
        × SameModule me' m
        × (pending s' ≡ ms)
  pub next_none : (s : api.Snapshot) (me : ModuleEntry) → pending s ≡ [] → api.next s me ≡ none

module_info-SameModule : (a b : ModuleEntry) → SameModule a b → module_info a ≡ module_info b
unfolding module_info
module_info-SameModule a b e = ap module_info e

module _ (api : Toolhelp) (pending : api.Snapshot → List ModuleEntry)
    (laws : Walks api pending) where
  walk_lem :
      (ms : List ModuleEntry) (fuel : ℕ) (s : api.Snapshot) (me : ModuleEntry)
      (out : List ModuleInfo)
      → pending s ≡ ms
      → length ms < fuel
      → walk api fuel s me out ≡ some (out ++ map module_info (me ∷ ms))
  unfolding walk
  walk_lem ms zero s me out e enough = absurd (omega arith)
  walk_lem [] (suc fuel) s me out e enough =
      rw (laws.next_none s (record me { size = entry_size }) e, walk)
  walk_lem (m ∷ ms) (suc fuel) s me out e enough =
      let (me', s', step, same, rest) =
        laws.next_some s (record me { size = entry_size }) m ms e refl in
      rw (step, walk)
        (walk_lem ms fuel s' me' _ rest (omega arith)
          ∙ ap some (append_assoc out (module_info me ∷ []) (map module_info (me' ∷ ms)))
          ∙ ap (λ i. some (out ++ module_info me ∷ i ∷ map module_info ms))
              (module_info-SameModule me' m same))

  -- With fuel for every module, the enumeration returns all of the snapshot's modules in order, and
  -- gives the snapshot back.
  pub get_process_modules_lem :
      (fuel pid : ℕ) (s : api.Snapshot) (m : ModuleEntry) (ms : List ModuleEntry)
      → api.create pid ≡ some s
      → pending s ≡ m ∷ ms
      → length ms < fuel
      → get_process_modules api fuel pid
        ≡ some (record { result = modules (map module_info (m ∷ ms)); closed = 1 })
  unfolding get_process_modules
  get_process_modules_lem fuel pid s m ms made e enough =
      let (me', s', step, same, rest) = laws.first_some s no_entry m ms e refl in
      let done = walk_lem ms fuel s' me' [] rest enough in
      let first = module_info-SameModule me' m same in ground (arith, made, step, done, first)
