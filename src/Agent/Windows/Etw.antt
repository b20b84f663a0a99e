-- ===== src/Agent/Windows/Etw.antt =====
-- ensureETWEnabled of MedusaUserlandAgent/ETWConsumer.go. The channel's key is its value `Enabled`,
-- if it has one; whether the key opens and whether a write is let through are parameters.
use open_anti_cheat.Common.{
  ℕ, ◌≡◌, ◌≢◌, refl, ap, ==_self, Bool, true, false, ◌⊎◌, inl, inr, Option, none, some, List, [],
  ◌∷◌, ◌++◌, ◌==◌, ==_iff,
}
use open_anti_cheat.Agent.Windows.Handles.{
  Effect, opens, uses, closes, Outcome, done, fail, call, defer, IsNeat, call-IsNeat, opened-IsNeat,
}

-- A call with the key that it gives, reads, writes or closes; a write has its number and the error
-- that it answers.
pub data KeyCall : Type 0 where
  create_key : List ℕ → Option ℕ → KeyCall
  get_integer_value : ℕ → KeyCall
  set_dword_value : ℕ → ℕ → Option ℕ → KeyCall
  close : ℕ → KeyCall

abbrev pub effect : KeyCall → List Effect
effect (create_key path none) = []
effect (create_key path (some k)) = opens k ∷ []
effect (get_integer_value k) = uses k ∷ []
effect (set_dword_value k v e) = uses k ∷ []
effect (close k) = closes k ∷ []

-- The value after the calls: a write that answers no error puts its number there.
abbrev pub value_after : Option ℕ → List KeyCall → Option ℕ
value_after enabled [] = enabled
value_after enabled (create_key path k ∷ cs) = value_after enabled cs
value_after enabled (get_integer_value k ∷ cs) = value_after enabled cs
value_after enabled (set_dword_value k v none ∷ cs) = value_after (some v) cs
value_after enabled (set_dword_value k v (some e) ∷ cs) = value_after enabled cs
value_after enabled (close k ∷ cs) = value_after enabled cs

pub data EtwError : Type 0 where
  open_failed set_failed : ℕ → EtwError

abbrev pub Etw : Type 0
Etw = Outcome KeyCall EtwError

-- `SetDWordValue`, with the error that it answers.
unfoldable pub set_enabled : ℕ → Option ℕ → Etw
set_enabled k refused =
    call (set_dword_value k 1 refused) (elim refused [ none ↦ done | some e ↦ fail (set_failed e) ])

-- What follows `GetIntegerValue`, with whether it reads 1.
unfoldable pub set_unless : ℕ → Option ℕ → Bool → Etw
unfolding set_enabled
set_unless k refused true = done
set_unless k refused false = set_enabled k refused

-- `err == nil && v == 1`
abbrev pub is_enabled : Option ℕ → Bool
is_enabled none = false
is_enabled (some v) = v == 1

-- With the value that the key has, if it has one.
unfoldable pub ensure_value : ℕ → Option ℕ → Option ℕ → Etw
unfolding set_unless
ensure_value k enabled refused =
    call (get_integer_value k) (set_unless k refused (is_enabled enabled))

-- The first argument is `SOFTWARE\Microsoft\Windows\CurrentVersion\WINEVT\Channels\`.
unfoldable pub ensure_etw_enabled : List ℕ → List ℕ → ℕ ⊎ ℕ → Option ℕ → Option ℕ → Etw
unfolding ensure_value
ensure_etw_enabled base channel (inl e) refused enabled =
    call (create_key (base ++ channel) none) (fail (open_failed e))
ensure_etw_enabled base channel (inr k) refused enabled =
    call (create_key (base ++ channel) (some k)) (defer (close k) (ensure_value k enabled refused))

set_enabled-IsNeat : (k : ℕ) (refused : Option ℕ) → IsNeat effect (k ∷ []) (set_enabled k refused)
unfolding set_enabled
set_enabled-IsNeat k (some e) = record { replayed = rw (==_self k) }
set_enabled-IsNeat k none = record { replayed = rw (==_self k) }

set_unless-IsNeat :
    (k : ℕ) (refused : Option ℕ) (b : Bool) → IsNeat effect (k ∷ []) (set_unless k refused b)
unfolding set_unless
set_unless-IsNeat k refused true = record { replayed = refl }
set_unless-IsNeat k refused false = set_enabled-IsNeat k refused

ensure_value-IsNeat :
    (k : ℕ) (enabled refused : Option ℕ) → IsNeat effect (k ∷ []) (ensure_value k enabled refused)
unfolding ensure_value
ensure_value-IsNeat k enabled refused =
    call-IsNeat effect (get_integer_value k) (set_unless k refused (is_enabled enabled))
      (rw (==_self k)) (set_unless-IsNeat k refused (is_enabled enabled))

-- On every path ensureETWEnabled uses the key only while it is open, and closes it if it was
-- opened.
ensure_etw_enabled-IsNeat :
    (base channel : List ℕ) (opened : ℕ ⊎ ℕ) (refused enabled : Option ℕ)
    → IsNeat effect [] (ensure_etw_enabled base channel opened refused enabled)
unfolding ensure_etw_enabled
ensure_etw_enabled-IsNeat base channel (inl e) refused enabled = record { replayed = refl }
ensure_etw_enabled-IsNeat base channel (inr k) refused enabled =
    opened-IsNeat effect (create_key (base ++ channel) (some k)) (close k)
      (ensure_value k enabled refused) refl refl (ensure_value-IsNeat k enabled refused)

is_enabled-some : (enabled : Option ℕ) → is_enabled enabled ≡ true → enabled ≡ some 1
is_enabled-some none h = absurd (cc h)
is_enabled-some (some v) h = ap some ((==_iff v 1).0 h)

value_after-close :
    (k : ℕ) (cs : List KeyCall) (enabled : Option ℕ)
    → value_after enabled (cs ++ close k ∷ []) ≡ value_after enabled cs
value_after-close k [] enabled = refl
value_after-close k (create_key path o ∷ cs) enabled = value_after-close k cs enabled
value_after-close k (get_integer_value o ∷ cs) enabled = value_after-close k cs enabled
value_after-close k (set_dword_value o v none ∷ cs) enabled = value_after-close k cs (some v)
value_after-close k (set_dword_value o v (some e) ∷ cs) enabled = value_after-close k cs enabled
value_after-close k (close o ∷ cs) enabled = value_after-close k cs enabled

-- No error and the value 1 after the calls, or an error and the value as it was.
abbrev pub SetsOrKeeps : Option ℕ → Etw → Type 0
SetsOrKeeps enabled (calls, e) =
    ((e ≡ none) × (value_after enabled calls ≡ some 1))
    ⊎ ((e ≢ none) × (value_after enabled calls ≡ enabled))

set_unless-SetsOrKeeps :
    (k : ℕ) (enabled refused : Option ℕ) (b : Bool)
    → (b ≡ true → enabled ≡ some 1)
    → SetsOrKeeps enabled (set_unless k refused b)
unfolding set_unless set_enabled
set_unless-SetsOrKeeps k enabled refused true h = inl (refl, h refl)
set_unless-SetsOrKeeps k enabled none false h = inl (refl, refl)
set_unless-SetsOrKeeps k enabled (some e) false h = inr ((λ d. absurd (cc d)), refl)

-- When ensureETWEnabled reports no error, its calls leave `Enabled` at 1; when it reports one, they
-- leave it as it was.
pub ensure_etw_enabled-SetsOrKeeps :
    (base channel : List ℕ) (opened : ℕ ⊎ ℕ) (refused enabled : Option ℕ)
    → SetsOrKeeps enabled (ensure_etw_enabled base channel opened refused enabled)
unfolding ensure_etw_enabled ensure_value
ensure_etw_enabled-SetsOrKeeps base channel (inl e) refused enabled =
    inr ((λ d. absurd (cc d)), refl)
ensure_etw_enabled-SetsOrKeeps base channel (inr k) refused enabled =
    let inner = set_unless k refused (is_enabled enabled) in
    rw (value_after-close k inner.0 enabled)
      (set_unless-SetsOrKeeps k enabled refused (is_enabled enabled) (is_enabled-some enabled))
