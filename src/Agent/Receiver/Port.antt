-- ===== src/Agent/Receiver/Port.antt =====
-- `Connect`, `Close` and `hresultText` of MedusaUserlandAgent/structs.go: the handle of the
-- driver's communication port.
use Prim.Native.Nat.{bit_and}
use open_anti_cheat.Common.{
  ℕ, zero, suc, ◌%◌, ◌^◌, ◌≡◌, ◌≢◌, refl, ◌∙◌, Option, none, some, ◌⊎◌, inl, inr, List, [], ◌∷◌,
  ◌++◌, arith, ◌==◌, if◌then◌else◌,
}
use open_anti_cheat.Text.Utf16.{utf16_to_string_win}
use open_anti_cheat.Memory.Words.{le_bytes, write_words}
use open_anti_cheat.Memory.Layout.{Slot, scalar, layout, encode}

-- `Receiver`; a handle of 0 is no handle.
pub record Receiver : Type 0 where
  pub h_port : ℕ
  pub name : List ℕ

-- `ConnectCtxV1`
pub record ConnectCtx : Type 0 where
  pub version : ℕ
  pub to_protect_pid : ℕ
  pub agent_pid : ℕ

abbrev pub ctx_slots : List Slot
ctx_slots = layout (scalar 4 ∷ scalar 4 ∷ scalar 4 ∷ [])

unfoldable pub ctx_bytes : ConnectCtx → List ℕ
ctx_bytes c =
    encode ctx_slots
      ([] ∷ (c.version ∷ []) ∷ [] ∷ (c.to_protect_pid ∷ []) ∷ [] ∷ (c.agent_pid ∷ []) ∷ [] ∷ [])

-- The outcomes that Windows decides: whether fltlib.dll loads, whether the name converts (a name
-- with a NUL does not), and what FilterConnectCommunicationPort returns for the context's bytes.
pub record Windows : Type 0 where
  pub load_error : Option ℕ
  pub port_name : List ℕ → Option (List ℕ)
  pub connect_port : List ℕ → List ℕ → ℕ × ℕ

pub data ConnectError : Type 0 where
  load_failed : ℕ → ConnectError
  bad_name : ConnectError
  refused : ℕ → ConnectError

unfoldable pub connect : Windows → ℕ → ℕ → Receiver → Receiver × Option ConnectError
connect w to_protect_pid agent_pid r = elim w.load_error [
  | some e ↦ (r, some (load_failed e))
  | none ↦ elim (w.port_name r.name) [
    | none ↦ (r, some bad_name)
    | some u16 ↦
        let ctx : ConnectCtx = record {
          version = 1;
          to_protect_pid = to_protect_pid;
          agent_pid = agent_pid;
        } in
        let (ret, h) = w.connect_port u16 (ctx_bytes ctx) in
        if ret == 0 then (record r { h_port = h }, none) else (r, some (refused (ret % 2 ^ 32)))
  ]
]

-- `Close`: the new receiver, and the handles that it closes.
unfoldable pub close : Receiver → Receiver × List ℕ
close r = if r.h_port == 0 then (r, []) else (record r { h_port = 0 }, r.h_port ∷ [])

-- Closing over and over.
unfoldable pub close_times : ℕ → Receiver → List ℕ
close_times zero r = []
close_times (suc n) r = let (r', closed) = close r in closed ++ close_times n r'

-- The error code that `hresultText` asks the system about.
unfoldable pub hresult_code : ℕ → ℕ
hresult_code hr =
    if bit_and hr 0xFFFF0000 == 0x80070000 then bit_and hr 0xFFFF % 2 ^ 32 else hr % 2 ^ 32

-- `hresultText`, over what FormatMessageW returns and leaves in the buffer for a code.
unfoldable pub hresult_text : (ℕ → ℕ × List ℕ) → ℕ → List ℕ
unfolding hresult_code
hresult_text format_message hr =
    let (r0, buf) = format_message (hresult_code hr) in
    if r0 == 0 then [] else utf16_to_string_win buf

close_idle : (n : ℕ) (r : Receiver) → r.h_port ≡ 0 → close_times n r ≡ []
unfolding close_times close
close_idle zero r e = refl
close_idle (suc n) r e = ground (arith, close_idle n r)

close_times_lem :
    (n : ℕ) (r : Receiver) → close_times (suc n) r ≡ (if r.h_port == 0 then [] else r.h_port ∷ [])
unfolding close_times close
close_times_lem n r = ground (arith, close_idle n r, close_idle n (record r { h_port = 0 }))

-- The system answers a connection for the receiver's name with a handle.
pub record Answered (w : Windows) (pid agent : ℕ) (r : Receiver) (h : ℕ) : Type 0 where
  pub u16 : List ℕ
  pub converted : w.port_name r.name ≡ some u16
  pub answer : w.connect_port u16 (le_bytes 4 1 ++ le_bytes 4 pid ++ le_bytes 4 agent) ≡ (0, h)

ctx_bytes_lem :
    (pid agent : ℕ)
    → ctx_bytes (record { version = 1; to_protect_pid = pid; agent_pid = agent })
      ≡ le_bytes 4 1 ++ le_bytes 4 pid ++ le_bytes 4 agent
unfolding ctx_bytes encode write_words le_bytes
ctx_bytes_lem pid agent = refl

connect_unloaded :
    (w : Windows) (pid agent e : ℕ) (r : Receiver)
    → w.load_error ≡ some e
    → connect w pid agent r ≡ (r, some (load_failed e))
unfolding connect
connect_unloaded w pid agent e r loaded = rw loaded refl

connect_unnamed :
    (w : Windows) (pid agent : ℕ) (r : Receiver)
    → w.load_error ≡ none
    → w.port_name r.name ≡ none
    → connect w pid agent r ≡ (r, some bad_name)
unfolding connect
connect_unnamed w pid agent r loaded named = rw (loaded, named) refl

-- Once the library is loaded and the name converts, what the driver answers decides.
pub connect_answered :
    (w : Windows) (pid agent ret h : ℕ) (u16 : List ℕ) (r : Receiver)
    → w.load_error ≡ none
    → w.port_name r.name ≡ some u16
    → w.connect_port u16 (le_bytes 4 1 ++ le_bytes 4 pid ++ le_bytes 4 agent) ≡ (ret, h)
    → connect w pid agent r
      ≡ (if ret == 0 then (record r { h_port = h }, none) else (r, some (refused (ret % 2 ^ 32))))
unfolding connect
connect_answered w pid agent ret h u16 r loaded named answer =
    rw (loaded, named, ctx_bytes_lem pid agent, answer) refl

not_zero : {A : Type 0} (c : ℕ) (a b : A) → (if suc c == 0 then a else b) ≡ b
not_zero c a b = ground arith

-- The two ways that a connection goes.
abbrev Connected : Windows → ℕ → ℕ → Receiver → Receiver × Option ConnectError → Type 0
Connected w pid agent r c =
    ((c.1 ≢ none) × (c.0 ≡ r))
    ⊎ ((h : ℕ) × Answered w pid agent r h × (c ≡ (record r { h_port = h }, none)))

connect-Connected :
    (w : Windows) (pid agent : ℕ) (r : Receiver) → Connected w pid agent r (connect w pid agent r)
connect-Connected w pid agent r = by_load w.load_error refl
  where
    by_code :
        (u16 : List ℕ) (ret h : ℕ)
        → w.load_error ≡ none
        → w.port_name r.name ≡ some u16
        → w.connect_port u16 (le_bytes 4 1 ++ le_bytes 4 pid ++ le_bytes 4 agent) ≡ (ret, h)
        → Connected w pid agent r (connect w pid agent r)
    by_code u16 zero h loaded named answer = inr (
      h,
      record { u16 = u16; converted = named; answer = answer },
      connect_answered w pid agent 0 h u16 r loaded named answer,
    )
    by_code u16 (suc c) h loaded named answer =
        rw (connect_answered w pid agent (suc c) h u16 r loaded named answer ∙ not_zero c _ _)
          (inl ((λ e. absurd (cc e)), refl))

    by_name :
        (name : Option (List ℕ))
        → w.load_error ≡ none
        → w.port_name r.name ≡ name
        → Connected w pid agent r (connect w pid agent r)
    by_name none loaded named =
        rw (connect_unnamed w pid agent r loaded named) (inl ((λ e. absurd (cc e)), refl))
    by_name (some u16) loaded named =
        let ans = w.connect_port u16 (le_bytes 4 1 ++ le_bytes 4 pid ++ le_bytes 4 agent) in
        by_code u16 ans.0 ans.1 loaded named refl

    by_load :
        (load : Option ℕ) → w.load_error ≡ load → Connected w pid agent r (connect w pid agent r)
    by_load none loaded = by_name (w.port_name r.name) loaded refl
    by_load (some e) loaded =
        rw (connect_unloaded w pid agent e r loaded) (inl ((λ d. absurd (cc d)), refl))

-- A connection fails and leaves the receiver as it was, with nothing to give back; or the driver
-- answers the version 1 and the two PIDs, as four bytes each and under the converted name, with the
-- code 0 and a handle, the receiver keeps that handle, and however often it is closed then, it
-- gives that handle back once, and never if it is 0.
pub connect-close :
    (w : Windows) (pid agent n : ℕ) (r : Receiver)
    → r.h_port ≡ 0
    → (((connect w pid agent r).1 ≢ none)
        × ((connect w pid agent r).0 ≡ r)
        × (close_times (suc n) (connect w pid agent r).0 ≡ []))
      ⊎ ((h : ℕ) × Answered w pid agent r h
          × (connect w pid agent r ≡ (record r { h_port = h }, none))
          × (close_times (suc n) (connect w pid agent r).0 ≡ (if h == 0 then [] else h ∷ [])))
connect-close w pid agent n r e = elim (connect-Connected w pid agent r) [
  | inl (failed, same) ↦ inl (failed, same, rw same (close_idle (suc n) r e))
  | inr (h, answered, worked) ↦
      inr (h, answered, worked, rw worked (close_times_lem n (record r { h_port = h })))
]
