-- ===== src/Agent/Windows/Injector/Closing.antt =====
-- injectDLLIntoPID of MedusaUserlandAgent/Injector.go: the handles that it opens.
use open_anti_cheat.Common.{
  ℕ, zero, suc, ◌*◌, ◌%◌, ◌^◌, ◌≡◌, refl, Bool, true, false, ==_self, ◌||◌, ◌⊎◌, inl, inr, Option,
  none, some, List, [], ◌∷◌, length, ◌==◌, if◌then◌else◌,
}
use open_anti_cheat.Agent.Windows.Handles.{
  opens, uses, replay, fail, IsNeat, call-IsNeat, opened-IsNeat,
}
use open_anti_cheat.Memory.Words.{write_words}
use open_anti_cheat.Agent.Windows.Injector.{
  open_process, virtual_alloc, write_process_memory, create_remote_thread, wait_for_single_object,
  get_exit_code_thread, close_handle, effect, call_failed, Kernel, Injected, or_fail, unless,
  if_given, check_exit, with_thread, write_path, into_process, with_process, inject_dll_into_pid,
}

or_fail-IsNeat {ℓ} :
    {A : Type ℓ} {live : List ℕ} (r : ℕ ⊎ A) (k : A → Injected)
    → ((a : A) → IsNeat effect live (k a))
    → IsNeat effect live (or_fail r k)
or_fail-IsNeat (inl e) k h = record { replayed = refl }
or_fail-IsNeat (inr a) k h = h a

unless-IsNeat :
    {live : List ℕ} (r : Option ℕ) (o : Injected)
    → IsNeat effect live o
    → IsNeat effect live (unless r o)
unless-IsNeat (some e) o h = record { replayed = refl }
unless-IsNeat none o h = h

if_given-IsNeat :
    {live : List ℕ} (r : ℕ × ℕ) (k : ℕ → Injected)
    → ((n : ℕ) → IsNeat effect live (k n))
    → IsNeat effect live (if_given r k)
if_given-IsNeat (zero, e) k h = record { replayed = refl }
if_given-IsNeat (suc n, e) k h = h (suc n)

if-IsNeat :
    {live : List ℕ} (b : Bool) (o p : Injected)
    → IsNeat effect live o
    → IsNeat effect live p
    → IsNeat effect live (if b then o else p)
if-IsNeat true o p h k = h
if-IsNeat false o p h k = k

-- The handle on top may be used.
replay_use : (h : ℕ) (live : List ℕ) → replay (h ∷ live) (uses h ∷ []) ≡ some (h ∷ live)
replay_use h live = rw (==_self h)

replay_more : (h th : ℕ) → replay (h ∷ []) (uses h ∷ opens th ∷ []) ≡ some (th ∷ h ∷ [])
replay_more h th = rw (==_self h)

module _ (w : Kernel) where
  check_exit-IsNeat : (th h : ℕ) → IsNeat effect (th ∷ h ∷ []) (check_exit w th)
  unfolding check_exit
  check_exit-IsNeat th h =
      call-IsNeat effect (wait_for_single_object th) _ (replay_use th (h ∷ [])) (
        call-IsNeat effect (get_exit_code_thread th) _ (replay_use th (h ∷ [])) (
          if-IsNeat ((w.exit_code th).0 == 0 || (w.exit_code th).1 == 0) _ _
            (record { replayed = refl }) (record { replayed = refl })))

  with_thread-IsNeat :
      (h start buf : ℕ) (r : ℕ × ℕ) → IsNeat effect (h ∷ []) (with_thread w h start buf r)
  unfolding with_thread
  with_thread-IsNeat h start buf (zero, e) =
      call-IsNeat effect (create_remote_thread h start buf none) (fail (call_failed e))
        (replay_use h []) (record { replayed = refl })
  with_thread-IsNeat h start buf (suc n, e) =
      opened-IsNeat effect (create_remote_thread h start buf (some (suc n))) (close_handle (suc n))
        (check_exit w (suc n)) (replay_more h (suc n)) refl (check_exit-IsNeat (suc n) h)

  write_path-IsNeat :
      (h : ℕ) (path_w : List ℕ) (buf : ℕ) → IsNeat effect (h ∷ []) (write_path w h path_w buf)
  unfolding write_path
  write_path-IsNeat h path_w buf =
      call-IsNeat effect (write_process_memory h buf (write_words 2 path_w)) _ (replay_use h []) (
        unless-IsNeat (w.written h buf (write_words 2 path_w)) _ (
          or_fail-IsNeat w.load_library _
            (λ start. with_thread-IsNeat h start buf (w.created h start buf))))

  into_process-IsNeat :
      (h : ℕ) (dll_path : List ℕ) → IsNeat effect (h ∷ []) (into_process w h dll_path)
  unfolding into_process
  into_process-IsNeat h dll_path = or_fail-IsNeat (w.utf16_from_string dll_path) _ (λ path_w.
      call-IsNeat effect (virtual_alloc h (length path_w * 2)) _ (replay_use h [])
        (if_given-IsNeat (w.allocated h (length path_w * 2)) _ (write_path-IsNeat h path_w)))

  with_process-IsNeat :
      (pid : ℕ) (dll_path : List ℕ) (r : ℕ ⊎ ℕ) → IsNeat effect [] (with_process w pid dll_path r)
  unfolding with_process
  with_process-IsNeat pid dll_path (inl e) = record { replayed = refl }
  with_process-IsNeat pid dll_path (inr h) =
      opened-IsNeat effect (open_process pid (some h)) (close_handle h) (into_process w h dll_path)
        refl refl (into_process-IsNeat h dll_path)

-- On every path the injector uses a handle only while it is open, and all handles that it gets are
-- closed when it returns.
pub inject_dll_into_pid-IsNeat :
    (w : Kernel) (pid : ℕ) (dll_path : List ℕ)
    → IsNeat effect [] (inject_dll_into_pid w pid dll_path)
unfolding inject_dll_into_pid
inject_dll_into_pid-IsNeat w pid dll_path =
    with_process-IsNeat w (pid % 2 ^ 32) dll_path (w.opened (pid % 2 ^ 32))
