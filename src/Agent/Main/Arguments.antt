-- ===== src/Agent/Main/Arguments.antt =====
-- The arguments of the agent: the process to protect, the backend's URL and the path of the DLL.
use open_anti_cheat.Common.{
  ℕ, ◌^◌, ◌≡◌, ◌≢◌, ◌<◌, refl, ap, ◌∙◌, ◌⊎◌, ◌↔◌, inl, inr, Option, none, some, List, [], ◌∷◌,
  length, get_or, arith, ◌%◌, ◌==◌, ◌++◌, if◌then◌else◌,
}
use open_anti_cheat.Text.Utf8.{encode_utf8}
use open_anti_cheat.Text.Decimal.{decimal}
use open_anti_cheat.Agent.Receiver.Port.{
  Receiver, Windows, ConnectError, connect, connect_answered, refused,
}
use open_anti_cheat.Memory.Words.{le_bytes}
use open_anti_cheat.Agent.Main.{
  panics, no_driver, runs, new_receiver, port_name, after_connect, after_pid, main,
}
use open_anti_cheat.Agent.Main.Pid.{sscanf_d, sscanf_d-decimal}

-- Started with a PID in decimal, a URL and a path, when fltlib.dll loads and the port's name
-- converts, `main` asks the driver for a connection with the version 1, just that PID and its own.
-- When the driver answers 0, `main` runs with that PID, the URL, the path and the handle it was
-- given; otherwise it ends with the driver's code. Further arguments do not matter.
pub main-decimal :
    (w : Windows) (agent_pid : ℕ) (prog url dll : List ℕ) (more : List (List ℕ)) (n : ℕ)
    (u16 : List ℕ) (ret h : ℕ)
    → n < 2 ^ 32
    → w.load_error ≡ none
    → w.port_name port_name ≡ some u16
    → w.connect_port u16 (le_bytes 4 1 ++ le_bytes 4 n ++ le_bytes 4 agent_pid) ≡ (ret, h)
    → main w agent_pid (prog ∷ encode_utf8 (decimal n) ∷ url ∷ dll ∷ more) ≡ (
        if ret == 0
        then runs n url dll (record { h_port = h; name = port_name })
        else no_driver (refused (ret % 2 ^ 32)))
unfolding main after_pid
main-decimal w agent_pid prog url dll more n u16 ret h fits loaded named answer =
    ap (λ p. after_pid w agent_pid p (url ∷ dll ∷ more)) (sscanf_d-decimal n (omega arith))
    ∙ ap (λ pid. after_connect (connect w pid agent_pid (new_receiver port_name)) pid url dll)
        (omega arith)
    ∙ ap (λ c. after_connect c n url dll)
        (connect_answered w n agent_pid ret h u16 (new_receiver port_name) loaded named answer)
    ∙ ground arith

after_connect-panics :
    (c : Receiver × Option ConnectError) (pid : ℕ) (url dll : List ℕ)
    → after_connect c pid url dll ≢ panics
after_connect-panics (r, some e) pid url dll h = cc h
after_connect-panics (r, none) pid url dll h = cc h

after_pid-panics :
    (w : Windows) (agent_pid : ℕ) (p : Option ℕ) (rest : List (List ℕ))
    → (after_pid w agent_pid p rest ≡ panics) ↔ ((length rest < 2) × (p ≢ none))
unfolding after_pid
after_pid-panics w agent_pid none rest = ((λ h. absurd (cc h)), λ h. absurd (h.1 refl))
after_pid-panics w agent_pid (some pid) [] = ((λ h. (omega arith, λ e. cc e)), λ h. refl)
after_pid-panics w agent_pid (some pid) (url ∷ []) = ((λ h. (omega arith, λ e. cc e)), λ h. refl)
after_pid-panics w agent_pid (some pid) (url ∷ dll ∷ more) =
    ((λ h. absurd (after_connect-panics _ _ url dll h)), λ h. absurd (omega (arith, h.0)))

-- `main` panics exactly when it is started without a first argument, or with a first argument that
-- is a number but without a second or a third.
pub main-panics :
    (w : Windows) (agent_pid : ℕ) (args : List (List ℕ))
    → (main w agent_pid args ≡ panics)
      ↔ ((length args < 2) ⊎ ((length args < 4) × (sscanf_d (get_or args 1 []) ≢ none)))
unfolding main after_pid
main-panics w agent_pid [] = ((λ h. inl (omega arith)), λ h. refl)
main-panics w agent_pid (prog ∷ []) = ((λ h. inl (omega arith)), λ h. refl)
main-panics w agent_pid (prog ∷ pid ∷ rest) = (
  (λ h. inr (omega (arith, (rest_panics.0 h).0), (rest_panics.0 h).1)),
  λ h. rest_panics.1 (few h),
)
  where
    rest_panics :
        (after_pid w agent_pid (sscanf_d pid) rest ≡ panics)
        ↔ ((length rest < 2) × (sscanf_d pid ≢ none))
    rest_panics = after_pid-panics w agent_pid (sscanf_d pid) rest

    few :
        (length (prog ∷ pid ∷ rest) < 2)
          ⊎ ((length (prog ∷ pid ∷ rest) < 4) × (sscanf_d pid ≢ none))
        → (length rest < 2) × (sscanf_d pid ≢ none)
    few (inl l) = absurd (omega (arith, l))
    few (inr (l, p)) = (omega (arith, l), p)
