-- ===== src/Agent/Windows/Injector/Loaded.antt =====
-- injectDLLIntoPID of MedusaUserlandAgent/Injector.go: what a call without an error has done.
use open_anti_cheat.Common.{
  ℕ, zero, suc, ◌*◌, ◌%◌, ◌^◌, ◌≡◌, ◌≢◌, refl, ap, ◌∙◌, Bool, true, false, ◌||◌, ◌⊎◌, inl, inr,
  Option, none, some, List, [], ◌∷◌, ◌++◌, length, ◌==◌, if◌then◌else◌, arith,
}
use open_anti_cheat.Agent.Windows.Handles.{done, fail}
use open_anti_cheat.Memory.Words.{write_words}
use open_anti_cheat.Agent.Windows.Injector.{
  Call, open_process, virtual_alloc, write_process_memory, create_remote_thread,
  wait_for_single_object, get_exit_code_thread, close_handle, InjectError, Kernel, Injected,
  or_fail, unless, if_given, check_exit, with_thread, write_path, into_process, with_process,
  inject_dll_into_pid,
}

-- The thread of LoadLibraryW, in a process that is open, over the whole path, gave a module.
pub record Loads (w : Kernel) (pid : ℕ) (dll_path : List ℕ) (calls : List Call) : Type 0 where
  process : ℕ
  path_w : List ℕ
  buf : ℕ
  start : ℕ
  thread : ℕ
  is_opened : w.opened (pid % 2 ^ 32) ≡ inr process
  is_path : w.utf16_from_string dll_path ≡ inr path_w
  is_allocated : ((w.allocated process (length path_w * 2)).0 ≡ buf) × (buf ≢ 0)
  is_written : w.written process buf (write_words 2 path_w) ≡ none
  is_found : w.load_library ≡ inr start
  is_created : ((w.created process start buf).0 ≡ thread) × (thread ≢ 0)
  is_loaded : ((w.exit_code thread).0 ≢ 0) × ((w.exit_code thread).1 ≢ 0)
  is_called :
      calls
      ≡ open_process (pid % 2 ^ 32) (some process)
        ∷ virtual_alloc process (length path_w * 2)
        ∷ write_process_memory process buf (write_words 2 path_w)
        ∷ create_remote_thread process start buf (some thread)
        ∷ wait_for_single_object thread
        ∷ get_exit_code_thread thread
        ∷ close_handle thread
        ∷ close_handle process
        ∷ []

or_fail-none {ℓ} :
    {A : Type ℓ} (r : ℕ ⊎ A) (k : A → Injected)
    → (or_fail r k).1 ≡ none
    → (a : A) × (r ≡ inr a) × (or_fail r k ≡ k a)
or_fail-none (inl e) k h = absurd (cc h)
or_fail-none (inr a) k h = (a, refl, refl)

unless-none : (r : Option ℕ) (o : Injected) → (unless r o).1 ≡ none → (r ≡ none) × (unless r o ≡ o)
unless-none (some e) o h = absurd (cc h)
unless-none none o h = (refl, refl)

if_given-none :
    (r : ℕ × ℕ) (k : ℕ → Injected) → (if_given r k).1 ≡ none → (r.0 ≢ 0) × (if_given r k ≡ k r.0)
if_given-none (zero, e) k h = absurd (cc h)
if_given-none (suc n, e) k h = (λ d. omega (arith, d), refl)

if_fails :
    (b : Bool) (e : InjectError)
    → (if b then fail {C = Call} e else done).1 ≡ none
    → (b ≡ false) × ((if b then fail {C = Call} e else done).0 ≡ [])
if_fails true e h = absurd (cc h)
if_fails false e h = (refl, refl)

module _ (w : Kernel) where
  check_exit-none :
      (th : ℕ)
      → (check_exit w th).1 ≡ none
      → ((w.exit_code th).0 ≢ 0)
        × ((w.exit_code th).1 ≢ 0)
        × ((check_exit w th).0 ≡ wait_for_single_object th ∷ get_exit_code_thread th ∷ [])
  unfolding check_exit
  check_exit-none th h =
      let zeros = if_fails ((w.exit_code th).0 == 0 || (w.exit_code th).1 == 0) _ h in
      (
        ground arith,
        ground arith,
        ap (λ o. wait_for_single_object th ∷ get_exit_code_thread th ∷ o) zeros.1,
      )

  with_thread-none :
      (h start buf : ℕ) (r : ℕ × ℕ)
      → (with_thread w h start buf r).1 ≡ none
      → (r.0 ≢ 0)
        × ((w.exit_code r.0).0 ≢ 0)
        × ((w.exit_code r.0).1 ≢ 0)
        × ((with_thread w h start buf r).0
            ≡ create_remote_thread h start buf (some r.0)
              ∷ wait_for_single_object r.0
              ∷ get_exit_code_thread r.0
              ∷ close_handle r.0
              ∷ [])
  unfolding with_thread
  with_thread-none h start buf (zero, e) d = absurd (cc d)
  with_thread-none h start buf (suc n, e) d =
      let exit = check_exit-none (suc n) d in
      (
        (λ z. omega (arith, z)),
        exit.0,
        exit.1,
        ap
            (λ cs.
              create_remote_thread h start buf (some (suc n)) ∷ (cs ++ close_handle (suc n) ∷ []))
            exit.2,
      )

  write_path-none :
      (h : ℕ) (path_w : List ℕ) (buf : ℕ)
      → (write_path w h path_w buf).1 ≡ none
      → (w.written h buf (write_words 2 path_w) ≡ none)
        × (start : ℕ) × (w.load_library ≡ inr start)
        × ((with_thread w h start buf (w.created h start buf)).1 ≡ none)
        × ((write_path w h path_w buf).0
            ≡ write_process_memory h buf (write_words 2 path_w)
              ∷ (with_thread w h start buf (w.created h start buf)).0)
  unfolding write_path
  write_path-none h path_w buf d =
      let written = unless-none (w.written h buf (write_words 2 path_w)) _ d in
      let found =
        or_fail-none w.load_library (λ start. with_thread w h start buf (w.created h start buf))
          (cc (d, written.1)) in
      (
        written.0,
        found.0,
        found.1,
        cc (d, written.1, found.2),
        ap (λ o. write_process_memory h buf (write_words 2 path_w) ∷ o.0) (written.1 ∙ found.2),
      )

  into_process-none :
      (h : ℕ) (dll_path : List ℕ)
      → (into_process w h dll_path).1 ≡ none
      → (path_w : List ℕ) × (w.utf16_from_string dll_path ≡ inr path_w)
        × ((w.allocated h (length path_w * 2)).0 ≢ 0)
        × ((write_path w h path_w (w.allocated h (length path_w * 2)).0).1 ≡ none)
        × ((into_process w h dll_path).0
            ≡ virtual_alloc h (length path_w * 2)
              ∷ (write_path w h path_w (w.allocated h (length path_w * 2)).0).0)
  unfolding into_process
  into_process-none h dll_path d =
      let path = or_fail-none (w.utf16_from_string dll_path) _ d in
      let given =
        if_given-none (w.allocated h (length path.0 * 2)) (write_path w h path.0)
          (cc (d, path.2)) in
      (
        path.0,
        path.1,
        given.0,
        cc (d, path.2, given.1),
        ap (λ o. o.0) path.2 ∙ ap (λ o. virtual_alloc h (length path.0 * 2) ∷ o.0) given.1,
      )

  with_process-none :
      (pid : ℕ) (dll_path : List ℕ) (r : ℕ ⊎ ℕ)
      → (with_process w pid dll_path r).1 ≡ none
      → (h : ℕ) × (r ≡ inr h)
        × ((into_process w h dll_path).1 ≡ none)
        × ((with_process w pid dll_path r).0
            ≡ open_process pid (some h) ∷ ((into_process w h dll_path).0 ++ close_handle h ∷ []))
  unfolding with_process
  with_process-none pid dll_path (inl e) d = absurd (cc d)
  with_process-none pid dll_path (inr h) d = (h, refl, d, refl)

-- When the injector reports no error, the process of that number was opened, the UTF-16 form of the
-- path was written, whole, to memory that was given there, a thread that runs LoadLibraryW over
-- just that memory was created and waited for, and its exit code, as GetExitCodeThread told it, was
-- not 0; the calls were these eight, in this order, the two handles closed last.
pub inject_dll_into_pid-Loads :
    (w : Kernel) (pid : ℕ) (dll_path : List ℕ)
    → (inject_dll_into_pid w pid dll_path).1 ≡ none
    → Loads w pid dll_path (inject_dll_into_pid w pid dll_path).0
unfolding inject_dll_into_pid
inject_dll_into_pid-Loads w pid dll_path d =
    let opened = with_process-none w (pid % 2 ^ 32) dll_path (w.opened (pid % 2 ^ 32)) d in
    let path = into_process-none w opened.0 dll_path opened.2 in
    let size = length path.0 * 2 in
    let buf = (w.allocated opened.0 size).0 in
    let written = write_path-none w opened.0 path.0 buf path.3 in
    let ran =
      with_thread-none w opened.0 written.1 buf (w.created opened.0 written.1 buf) written.3 in
    record {
      process = opened.0;
      path_w = path.0;
      buf = buf;
      start = written.1;
      thread = (w.created opened.0 written.1 buf).0;
      is_opened = opened.1;
      is_path = path.1;
      is_allocated = (refl, path.2);
      is_written = written.0;
      is_found = written.2;
      is_created = (refl, ran.0);
      is_loaded = (ran.1, ran.2);
      is_called =
          opened.3
          ∙ ap
              (λ cs.
                open_process (pid % 2 ^ 32) (some opened.0) ∷ (cs ++ close_handle opened.0 ∷ []))
              (path.4
                ∙ ap (λ cs. virtual_alloc opened.0 size ∷ cs)
                    (written.4
                      ∙ ap (λ cs. write_process_memory opened.0 buf (write_words 2 path.0) ∷ cs)
                          ran.3));
    }
