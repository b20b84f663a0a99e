-- ===== src/Backend/Server/Rounds.antt =====
-- HydraWSServer of MedusaBackend/WSServer.go: the commands that a connection gets.
pub mod Steps
pub mod Visits
pub mod Broadcast
use open_anti_cheat.Common.{
  ℕ, ◌≡◌, refl, sym, ap, ◌∙◌, subst, Bool, true, false, Bool-cases, ==_iff, ◌&&◌, ◌⊎◌, inl, inr,
  Option, none, some, some-injective, List, [], ◌∷◌, ◌==◌, if◌then◌else◌, arith,
}
use open_anti_cheat.Backend.Server.Registry.{is_serving, Reach-registered}
use open_anti_cheat.Backend.Server.{
  HandlerPc, absent, registering, registering_locked, reading, sending, leaving, leaving_locked,
  gone, Round, BroadcastPc, waiting, stopped, writing, dropping, deleting, relocking, pinging, put,
  visit, Server, Step, Reach, start, later, upgrades, locks_to_register, registers, skips, accepts,
  read_fails, sends, send_panics, gives_up, locks_to_leave, leaves, commands, begins, writes,
  write_fails, locks_to_drop, deletes, relocks, ends_broadcast, begins_pings, ends_pings, stops,
  consumes, cancels, closes,
}

-- A list without some of the elements of another.
pub data Sub {ℓ} {A : Type ℓ} : List A → List A → Type ℓ where
  empty : Sub [] []
  keep : {x : A} {xs ys : List A} → Sub xs ys → Sub (x ∷ xs) (x ∷ ys)
  skip : {y : A} {xs ys : List A} → Sub xs ys → Sub xs (y ∷ ys)

-- The round that the broadcaster is in.
abbrev pub active : BroadcastPc → Option Round
active (writing r) = some r
active (dropping c r) = some r
active (deleting c r) = some r
active (relocking r) = some r
active _ = none

abbrev pub is_past : HandlerPc → Bool
is_past absent = false
is_past registering = false
is_past registering_locked = false
is_past _ = true

-- The commands whose rounds have begun, the latest first.
abbrev pub begun_by : {s t : Server} → Step s t → List (List ℕ) → List (List ℕ)
begun_by (begins cmd rest e f m) b = cmd ∷ b
begun_by _ b = b

abbrev pub begun : {buf : ℕ} {s : Server} → Reach buf s → List (List ℕ)
begun start = []
begun (later r st) = begun_by st (begun r)

module _ (c : ℕ) where
  -- Those that were written to the connection.
  abbrev pub got_by : {s t : Server} → Step s t → List (List ℕ) → List (List ℕ)
  got_by (writes k r e i n) g = if k == c then r.cmd ∷ g else g
  got_by _ g = g

  abbrev pub got : {buf : ℕ} {s : Server} → Reach buf s → List (List ℕ)
  got start = []
  got (later r st) = got_by st (got r)

  -- Those of the rounds at whose begin and end it was registered.
  abbrev pub due_by : {s t : Server} → Step s t → List (List ℕ) → List (List ℕ)
  due_by {s} (ends_broadcast r e a) d = if r.at_start c && s.conns c then r.cmd ∷ d else d
  due_by _ d = d

  abbrev pub due : {buf : ℕ} {s : Server} → Reach buf s → List (List ℕ)
  due start = []
  due (later r st) = due_by st (due r)

  abbrev pub is_dropped : BroadcastPc → Bool
  is_dropped (dropping k r) = k == c
  is_dropped (deleting k r) = k == c
  is_dropped _ = false

  -- What holds in a round, by whether it has come to the connection.
  pub record InRound (r : Round) (dropped present : Bool) (h : HandlerPc) (d g b : List (List ℕ))
      : Type 0 where
    pub before : List (List ℕ)
    pub latest : b ≡ r.cmd ∷ before
    pub unseen : r.seen c ≡ false → Sub g before
    pub past : r.seen c ≡ true → is_past h ≡ true
    pub reached : r.seen c ≡ true → present ≡ true → dropped ≡ false → Sub (r.cmd ∷ d) g

  pub record IsRounds (pc : BroadcastPc) (present : Bool) (h : HandlerPc) (d g b : List (List ℕ))
      : Type 0 where
    pub due_got : Sub d g
    pub got_begun : Sub g b
    pub during : (r : Round) → active pc ≡ some r → InRound r (is_dropped pc) present h d g b
