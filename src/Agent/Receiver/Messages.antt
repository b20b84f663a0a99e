-- ===== src/Agent/Receiver/Messages.antt =====
-- What the receive loop makes of the driver's messages.
use open_anti_cheat.Common.{
  ℕ, ◌≡◌, ◌≢◌, refl, ap, ◌∙◌, List, [], ◌∷◌, ◌++◌, arith, length, drop, take-append_len,
  drop-append_len, append_assoc, All,
}
use open_anti_cheat.Memory.Words.{Fits, IsByte}
use open_anti_cheat.Memory.Layout.{size_of, encode, decode-encode, length-encode, Shaped}
use open_anti_cheat.Event.{AcEvent, Padding, ev_to_bytes, IsEvent, IsPadding}
use open_anti_cheat.Event.Wire.{length-ev_to_bytes, event_of_bytes-ev_to_bytes}
use open_anti_cheat.Agent.Receiver.{
  FilterMessageHeader, header_slots, header_size, header_of_bytes, Reply, s_ok, parse, loop,
}

pub record IsHeader (h : FilterMessageHeader) (filler : List ℕ) : Type 0 where
  pub reply_length : Fits 4 h.reply_length
  pub message_id : Fits 8 h.message_id
  pub gap : (length filler ≡ 4) × All IsByte filler

-- The bytes of FILTER_MESSAGE_HEADER, with its padding.
abbrev pub header_bytes : FilterMessageHeader → List ℕ → List ℕ
header_bytes h gap =
    encode header_slots ([] ∷ (h.reply_length ∷ []) ∷ gap ∷ (h.message_id ∷ []) ∷ [] ∷ [])

module _ (h : FilterMessageHeader) (gap : List ℕ) (ok : IsHeader h gap) where
  header-Shaped :
      Shaped header_slots ([] ∷ (h.reply_length ∷ []) ∷ gap ∷ (h.message_id ∷ []) ∷ [] ∷ [])
  header-Shaped = assumption (refl, tt)

  length-header_bytes : length (header_bytes h gap) ≡ header_size
  length-header_bytes = length-encode header_slots _ header-Shaped ∙ unfold size_of in refl

  header_of_bytes-header_bytes : header_of_bytes (header_bytes h gap) ≡ h
  unfolding header_of_bytes
  header_of_bytes-header_bytes = rw (decode-encode header_slots _ header-Shaped)

  -- A message as the filter manager hands it over: header, event, and whatever is behind.
  pub parse-message :
      (e : AcEvent) (p : Padding) (rest : List ℕ)
      → IsEvent e
      → IsPadding p
      → parse (header_bytes h gap ++ (ev_to_bytes e p ++ rest)) ≡ (h, e)
  unfolding parse
  parse-message e p rest he hp = rw (
    take-append_len (header_bytes h gap) (ev_to_bytes e p ++ rest) length-header_bytes,
    drop-append_len (header_bytes h gap) (ev_to_bytes e p ++ rest) length-header_bytes,
    take-append_len (ev_to_bytes e p) rest (length-ev_to_bytes e p he hp),
    header_of_bytes-header_bytes,
    event_of_bytes-ev_to_bytes e p he hp,
  )

-- What the driver's side does between two rounds: a message, or a failed call.
pub data Incoming : Type 0 where
  message : FilterMessageHeader → List ℕ → AcEvent → Padding → Incoming
  failure : ℕ → List ℕ → Incoming

abbrev pub IsIncoming : Incoming → Type 0
IsIncoming (message h gap e p) = IsHeader h gap × IsEvent e × IsPadding p
IsIncoming (failure ret bytes) = ret ≢ s_ok

abbrev pub reply : Incoming → Reply
reply (message h gap e p) = record { ret = s_ok; bytes = header_bytes h gap ++ ev_to_bytes e p }
reply (failure ret bytes) = record { ret = ret; bytes = bytes }

abbrev pub replies : List Incoming → List Reply
replies [] = []
replies (i ∷ is) = reply i ∷ replies is

abbrev pub received : List Incoming → List AcEvent
received [] = []
received (message h gap e p ∷ is) = e ∷ received is
received (failure ret bytes ∷ is) = received is

-- The shared buffer behind a message.
abbrev filled : FilterMessageHeader → List ℕ → AcEvent → Padding → List ℕ → List ℕ
filled hd gap e p buf =
    let bytes = header_bytes hd gap ++ ev_to_bytes e p in bytes ++ drop (length bytes) buf

loop_failure :
    (ret : ℕ) (bytes : List ℕ) (rs : List Reply) (buf : List ℕ)
    → ret ≢ s_ok
    → loop (record { ret = ret; bytes = bytes } ∷ rs) buf
      ≡ loop rs (bytes ++ drop (length bytes) buf)
unfolding loop
loop_failure ret bytes rs buf h = ground arith

loop-message :
    (hd : FilterMessageHeader) (gap : List ℕ) (e : AcEvent) (p : Padding) (rs : List Reply)
    (buf : List ℕ)
    → IsIncoming (message hd gap e p)
    → loop (reply (message hd gap e p) ∷ rs) buf ≡ e ∷ loop rs (filled hd gap e p buf)
unfolding loop
loop-message hd gap e p rs buf (hh, he, hp) =
    ap (λ r. r.1 ∷ loop rs (filled hd gap e p buf))
      (ap parse (append_assoc (header_bytes hd gap) (ev_to_bytes e p) _)
        ∙ parse-message hd gap hh e p _ he hp)

-- The loop sends exactly the events of the driver's messages, in order: a failed call is passed
-- over, whatever it left in the buffer that all rounds share.
pub loop-received :
    (is : List Incoming) (buf : List ℕ) → All IsIncoming is → loop (replies is) buf ≡ received is
loop-received [] buf h = unfold loop in refl
loop-received (failure ret bytes ∷ is) buf (failed, h) =
    loop_failure ret bytes (replies is) buf failed ∙ loop-received is _ h
loop-received (message hd gap e p ∷ is) buf (ok, h) =
    loop-message hd gap e p (replies is) buf ok ∙ ap (◌∷◌ e) (loop-received is _ h)
