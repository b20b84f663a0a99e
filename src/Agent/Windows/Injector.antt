-- ===== src/Agent/Windows/Injector.antt =====
-- injectDLLIntoPID of MedusaUserlandAgent/Injector.go. The answers of the kernel are a parameter;
-- each call is logged with what it asks for and the handle that it gives.
pub mod Closing
pub mod Loaded
use open_anti_cheat.Common.{
  ℕ, zero, suc, ◌*◌, ◌%◌, ◌^◌, ◌≡◌, ◌≢◌, refl, Bool, true, false, ◌||◌, ◌⊎◌, inl, inr, Option, none,
  some, List, [], ◌∷◌, ◌++◌, length, ◌==◌, if◌then◌else◌, arith,
}
use open_anti_cheat.Memory.Words.{write_words}
use open_anti_cheat.Agent.Windows.Handles.{
  Effect, opens, uses, closes, replay, Outcome, done, fail, call, defer,
}

pub data Call : Type 0 where
  open_process : ℕ → Option ℕ → Call
  virtual_alloc : ℕ → ℕ → Call
  write_process_memory : ℕ → ℕ → List ℕ → Call
  create_remote_thread : ℕ → ℕ → ℕ → Option ℕ → Call
  wait_for_single_object get_exit_code_thread close_handle : ℕ → Call

abbrev pub effect : Call → List Effect
effect (open_process pid none) = []
effect (open_process pid (some h)) = opens h ∷ []
effect (virtual_alloc h size) = uses h ∷ []
effect (write_process_memory h addr bytes) = uses h ∷ []
effect (create_remote_thread h start arg none) = uses h ∷ []
effect (create_remote_thread h start arg (some th)) = uses h ∷ opens th ∷ []
effect (wait_for_single_object th) = uses th ∷ []
effect (get_exit_code_thread th) = uses th ∷ []
effect (close_handle h) = closes h ∷ []

-- The `error` of the function.
pub data InjectError : Type 0 where
  call_failed load_failed : ℕ → InjectError

-- What the calls answer: an error on the left, else a result; `VirtualAllocEx`,
-- `CreateRemoteThread` and `GetExitCodeThread` return a number and, beside it, the last error or
-- the exit code.
pub record Kernel : Type 0 where
  pub opened : ℕ → ℕ ⊎ ℕ
  pub utf16_from_string : List ℕ → ℕ ⊎ List ℕ
  pub allocated : ℕ → ℕ → ℕ × ℕ
  pub written : ℕ → ℕ → List ℕ → Option ℕ
  pub load_library : ℕ ⊎ ℕ
  pub created : ℕ → ℕ → ℕ → ℕ × ℕ
  pub exit_code : ℕ → ℕ × ℕ

abbrev pub Injected : Type 0
Injected = Outcome Call InjectError

-- `if err != nil { return err }`
abbrev pub or_fail {ℓ} : {A : Type ℓ} → ℕ ⊎ A → (A → Injected) → Injected
or_fail (inl e) k = fail (call_failed e)
or_fail (inr a) k = k a

abbrev pub unless : Option ℕ → Injected → Injected
unless (some e) o = fail (call_failed e)
unless none o = o

-- `if r1 == 0 { return e }`
abbrev pub if_given : ℕ × ℕ → (ℕ → Injected) → Injected
if_given (zero, e) k = fail (call_failed e)
if_given (suc n, e) k = k (suc n)

module _ (w : Kernel) where
  unfoldable pub check_exit : ℕ → Injected
  check_exit th = call (wait_for_single_object th) (
      call (get_exit_code_thread th) (
        if (w.exit_code th).0 == 0 || (w.exit_code th).1 == 0
        then fail (load_failed (w.exit_code th).1)
        else done))

  -- The body after `CreateRemoteThread`.
  unfoldable pub with_thread : ℕ → ℕ → ℕ → ℕ × ℕ → Injected
  with_thread h start buf (zero, e) =
      call (create_remote_thread h start buf none) (fail (call_failed e))
  with_thread h start buf (suc n, e) =
      call (create_remote_thread h start buf (some (suc n)))
        (defer (close_handle (suc n)) (check_exit (suc n)))

  unfoldable pub write_path : ℕ → List ℕ → ℕ → Injected
  unfolding with_thread
  write_path h path_w buf = call (write_process_memory h buf (write_words 2 path_w)) (
      unless (w.written h buf (write_words 2 path_w))
        (or_fail w.load_library (λ start. with_thread h start buf (w.created h start buf))))

  unfoldable pub into_process : ℕ → List ℕ → Injected
  unfolding write_path
  into_process h dll_path = or_fail (w.utf16_from_string dll_path) (λ path_w.
      call (virtual_alloc h (length path_w * 2))
        (if_given (w.allocated h (length path_w * 2)) (λ buf. write_path h path_w buf)))

  -- The body after `OpenProcess`.
  unfoldable pub with_process : ℕ → List ℕ → ℕ ⊎ ℕ → Injected
  unfolding into_process
  with_process pid dll_path (inl e) = call (open_process pid none) (fail (call_failed e))
  with_process pid dll_path (inr h) =
      call (open_process pid (some h)) (defer (close_handle h) (into_process h dll_path))

  unfoldable pub inject_dll_into_pid : ℕ → List ℕ → Injected
  unfolding with_process
  inject_dll_into_pid pid dll_path = with_process (pid % 2 ^ 32) dll_path (w.opened (pid % 2 ^ 32))
