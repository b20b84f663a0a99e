-- ===== src/Agent/Windows/Privilege.antt =====
-- enableSeDebugPrivilege of MedusaUserlandAgent/DLLScanner.go. What the calls answer is a
-- parameter.
use open_anti_cheat.Common.{ℕ, refl, ==_self, ◌⊎◌, inl, inr, Option, none, some, List, [], ◌∷◌}
use open_anti_cheat.Agent.Windows.Handles.{
  Effect, opens, uses, closes, Outcome, fail, call, defer, IsNeat, opened-IsNeat,
}

-- A call with the token that it gives, uses or closes; `adjust_token_privileges` has the LUID and
-- the attributes of its one privilege.
pub data TokenCall : Type 0 where
  open_process_token : Option ℕ → TokenCall
  lookup_privilege_value : TokenCall
  adjust_token_privileges : ℕ → ℕ → ℕ → TokenCall
  close_token : ℕ → TokenCall

abbrev pub effect : TokenCall → List Effect
effect (open_process_token none) = []
effect (open_process_token (some t)) = opens t ∷ []
effect lookup_privilege_value = []
effect (adjust_token_privileges t luid attributes) = uses t ∷ []
effect (close_token t) = closes t ∷ []

-- `windows.SE_PRIVILEGE_ENABLED`
abbrev pub se_privilege_enabled : ℕ
se_privilege_enabled = 2

-- From `LookupPrivilegeValue`, with its answer and that of `AdjustTokenPrivileges`.
unfoldable pub adjust : ℕ → ℕ ⊎ ℕ → Option ℕ → Outcome TokenCall ℕ
adjust token (inl e) refused = call lookup_privilege_value (fail e)
adjust token (inr luid) refused =
    call lookup_privilege_value
      (call (adjust_token_privileges token luid se_privilege_enabled) ([], refused))

unfoldable pub enable_se_debug_privilege : ℕ ⊎ ℕ → ℕ ⊎ ℕ → Option ℕ → Outcome TokenCall ℕ
unfolding adjust
enable_se_debug_privilege (inl e) luid refused = call (open_process_token none) (fail e)
enable_se_debug_privilege (inr token) luid refused =
    call (open_process_token (some token)) (defer (close_token token) (adjust token luid refused))

adjust-IsNeat :
    (token : ℕ) (luid : ℕ ⊎ ℕ) (refused : Option ℕ)
    → IsNeat effect (token ∷ []) (adjust token luid refused)
unfolding adjust
adjust-IsNeat token (inl e) refused = record { replayed = refl }
adjust-IsNeat token (inr luid) refused = record { replayed = rw (==_self token) }

-- On every path enableSeDebugPrivilege uses the token only while it is open, and closes it if it
-- was opened.
pub enable_se_debug_privilege-IsNeat :
    (opened luid : ℕ ⊎ ℕ) (refused : Option ℕ)
    → IsNeat effect [] (enable_se_debug_privilege opened luid refused)
unfolding enable_se_debug_privilege
enable_se_debug_privilege-IsNeat (inl e) luid refused = record { replayed = refl }
enable_se_debug_privilege-IsNeat (inr token) luid refused =
    opened-IsNeat effect (open_process_token (some token)) (close_token token)
      (adjust token luid refused) refl refl (adjust-IsNeat token luid refused)
