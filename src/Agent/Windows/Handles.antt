-- ===== src/Agent/Windows/Handles.antt =====
-- What a call of Windows does to the handles of the process, and the replay of a log of calls.
use open_anti_cheat.Common.{
  ℕ, ◌≡◌, refl, sym, ap, ◌∙◌, some-injective, append_assoc, ==_self, Bool-cases, inl, inr, Bool,
  false, ◌||◌, Option, none, some, List, [], ◌∷◌, ◌++◌, ◌==◌, if◌then◌else◌, arith,
}

pub data Effect : Type 0 where
  opens uses closes : ℕ → Effect
  leaves_alone : Effect

abbrev pub is_live : ℕ → List ℕ → Bool
is_live h [] = false
is_live h (k ∷ ks) = h == k || is_live h ks

abbrev pub without : ℕ → List ℕ → List ℕ
without h [] = []
without h (k ∷ ks) = let rest = without h ks in if h == k then ks else k ∷ rest

-- The handles that are open after the effects; none, when a handle is used or closed that is not
-- open.
abbrev pub replay : List ℕ → List Effect → Option (List ℕ)
replay live [] = some live
replay live (opens h ∷ es) = replay (h ∷ live) es
replay live (uses h ∷ es) = let rest = replay live es in if is_live h live then rest else none
replay live (closes h ∷ es) =
    let rest = replay (without h live) es in if is_live h live then rest else none
replay live (leaves_alone ∷ es) = replay live es

-- The calls that a function made, and its `error`.
abbrev pub Outcome : Type 0 → Type 0 → Type 0
Outcome C E = List C × Option E

abbrev pub done : {C E : Type 0} → Outcome C E
done = ([], none)

abbrev pub fail : {C E : Type 0} → E → Outcome C E
fail e = ([], some e)

abbrev pub call : {C E : Type 0} → C → Outcome C E → Outcome C E
call c o = (c ∷ o.0, o.1)

-- `defer c`
abbrev pub defer : {C E : Type 0} → C → Outcome C E → Outcome C E
defer c o = (o.0 ++ c ∷ [], o.1)

replay-append :
    (es fs : List Effect) (live : List ℕ) {mid : List ℕ}
    → replay live es ≡ some mid
    → replay live (es ++ fs) ≡ replay mid fs
replay-append [] fs live h = ap (λ l. replay l fs) (some-injective _ _ h)
replay-append (opens k ∷ es) fs live h = replay-append es fs (k ∷ live) h
replay-append (uses k ∷ es) fs live {mid} h = elim (Bool-cases (is_live k live)) [
  | inl t ↦ ground (arith, replay-append es fs live {mid = mid})
  | inr f ↦ ground arith
]
replay-append (closes k ∷ es) fs live {mid} h = elim (Bool-cases (is_live k live)) [
  | inl t ↦ ground (arith, replay-append es fs (without k live) {mid = mid})
  | inr f ↦ ground arith
]
replay-append (leaves_alone ∷ es) fs live h = replay-append es fs live h

close_top : (h : ℕ) (live : List ℕ) → replay (h ∷ live) (closes h ∷ []) ≡ some live
close_top h live = rw (==_self h)

module _ {C : Type 0} (effect : C → List Effect) where
  abbrev pub effects : List C → List Effect
  effects [] = []
  effects (c ∷ cs) = effect c ++ effects cs

  effects-append : (cs ds : List C) → effects (cs ++ ds) ≡ effects cs ++ effects ds
  effects-append [] ds = refl
  effects-append (c ∷ cs) ds =
      ap (λ es. effect c ++ es) (effects-append cs ds)
      ∙ sym (append_assoc (effect c) (effects cs) (effects ds))

  -- The function uses no handle that is not open, and leaves the handles as it found them.
  pub record IsNeat {E : Type 0} (live : List ℕ) (o : Outcome C E) : Type 0 where
    pub replayed : replay live (effects o.0) ≡ some live

  pub call-IsNeat :
      {E : Type 0} {live : List ℕ} (c : C) (o : Outcome C E)
      → replay live (effect c) ≡ some live
      → IsNeat live o
      → IsNeat live (call c o)
  call-IsNeat {live = live} c o h n = record {
    replayed = replay-append (effect c) (effects o.0) live h ∙ n.replayed;
  }

  defer-IsNeat :
      {E : Type 0} {live : List ℕ} {h : ℕ} (c : C) (o : Outcome C E)
      → effect c ≡ closes h ∷ []
      → IsNeat (h ∷ live) o
      → replay (h ∷ live) (effects (defer c o).0) ≡ some live
  defer-IsNeat {live = live} {h = h} c o e n =
      ap (replay (h ∷ live)) (effects-append o.0 (c ∷ []))
      ∙ (replay-append (effects o.0) _ (h ∷ live) n.replayed
          ∙ (ap (λ es. replay (h ∷ live) (es ++ [])) e ∙ close_top h live))

  pub opened-IsNeat :
      {E : Type 0} {live : List ℕ} {h : ℕ} (opener closer : C) (o : Outcome C E)
      → replay live (effect opener) ≡ some (h ∷ live)
      → effect closer ≡ closes h ∷ []
      → IsNeat (h ∷ live) o
      → IsNeat live (call opener (defer closer o))
  opened-IsNeat {live = live} opener closer o start e n = record {
    replayed =
        replay-append (effect opener) (effects (defer closer o).0) live start
        ∙ defer-IsNeat closer o e n;
  }
