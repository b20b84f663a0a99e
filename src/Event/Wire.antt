-- ===== src/Event/Wire.antt =====
-- The event and its bytes, as evToBytes of MedusaUserlandAgent/WebSocketWorker.go and the copies
-- back relate them.
use open_anti_cheat.Common.{ℕ, ◌≡◌, refl, sym, ap, ◌∙◌, List, [], ◌∷◌, arith, length, get_or, All}
use open_anti_cheat.Memory.Words.{IsByte, Fits}
use open_anti_cheat.Memory.Layout.{
  size_of, encode, decode, Shaped, length-encode, encode-IsByte, decode-encode, decode-Shaped,
  encode-decode,
}
use open_anti_cheat.Event.{
  AcEvent, Padding, event_slots, event_size, rows_of_event, event_of_rows, padding_of_bytes,
  ev_to_bytes, event_of_bytes, IsEvent, IsPadding,
}

pub size_of-event_slots : size_of event_slots ≡ event_size
unfolding size_of
size_of-event_slots = refl

rows_of_event-Shaped :
    (e : AcEvent) (p : Padding) → IsEvent e → IsPadding p → Shaped event_slots (rows_of_event e p)
unfolding rows_of_event
rows_of_event-Shaped e p he hp = assumption (refl, tt)

pub length-ev_to_bytes :
    (e : AcEvent) (p : Padding) → IsEvent e → IsPadding p → length (ev_to_bytes e p) ≡ event_size
unfolding ev_to_bytes
length-ev_to_bytes e p he hp =
    length-encode event_slots (rows_of_event e p) (rows_of_event-Shaped e p he hp)
    ∙ size_of-event_slots

pub ev_to_bytes-IsByte : (e : AcEvent) (p : Padding) → All IsByte (ev_to_bytes e p)
unfolding ev_to_bytes
ev_to_bytes-IsByte e p = encode-IsByte event_slots (rows_of_event e p)

event_of_rows-rows_of_event : (e : AcEvent) (p : Padding) → event_of_rows (rows_of_event e p) ≡ e
unfolding event_of_rows rows_of_event
event_of_rows-rows_of_event e p = refl

-- An event that Go can hold comes back from the bytes that `evToBytes` makes of it, whatever the
-- padding bytes of its struct are.
pub event_of_bytes-ev_to_bytes :
    (e : AcEvent) (p : Padding) → IsEvent e → IsPadding p → event_of_bytes (ev_to_bytes e p) ≡ e
unfolding event_of_bytes ev_to_bytes
event_of_bytes-ev_to_bytes e p he hp =
    ap event_of_rows (decode-encode event_slots _ (rows_of_event-Shaped e p he hp))
    ∙ event_of_rows-rows_of_event e p

first-Fits : (w : ℕ) (vs : List ℕ) → length vs ≡ 1 → All (Fits w) vs → Fits w (get_or vs 0 0)
first-Fits w [] len h = absurd (omega arith)
first-Fits w (v ∷ vs) len h = h.0

-- A row of one number, and of none.
single : (vs : List ℕ) → length vs ≡ 1 → get_or vs 0 0 ∷ [] ≡ vs
single [] len = absurd (omega arith)
single (v ∷ []) len = refl
single (v ∷ w ∷ vs) len = absurd (omega arith)

empty : (vs : List ℕ) → length vs ≡ 0 → [] ≡ vs
empty [] len = refl
empty (v ∷ vs) len = absurd (omega arith)

module _ (bs : List ℕ) (h : All IsByte bs) (len : length bs ≡ event_size) where
  shaped : Shaped event_slots (decode event_slots bs)
  shaped = decode-Shaped event_slots bs h (len ∙ sym size_of-event_slots)

  pub event_of_bytes-IsEvent : IsEvent (event_of_bytes bs)
  unfolding event_of_bytes event_of_rows decode
  event_of_bytes-IsEvent = record {
    src = first-Fits 4 _ shaped.2.0 shaped.2.1;
    event_type = (shaped.2.2.2.0, shaped.2.2.2.1);
    caller_pid = first-Fits 4 _ shaped.2.2.2.2.2.0 shaped.2.2.2.2.2.1;
    target_pid = first-Fits 4 _ shaped.2.2.2.2.2.2.2.0 shaped.2.2.2.2.2.2.2.1;
    thread_id = first-Fits 4 _ shaped.2.2.2.2.2.2.2.2.2.0 shaped.2.2.2.2.2.2.2.2.2.1;
    image_file_name = (shaped.2.2.2.2.2.2.2.2.2.2.2.0, shaped.2.2.2.2.2.2.2.2.2.2.2.1);
    command_line = (shaped.2.2.2.2.2.2.2.2.2.2.2.2.2.0, shaped.2.2.2.2.2.2.2.2.2.2.2.2.2.1);
    is_create =
        first-Fits 4 _ shaped.2.2.2.2.2.2.2.2.2.2.2.2.2.2.2.0
          shaped.2.2.2.2.2.2.2.2.2.2.2.2.2.2.2.1;
    image_base =
        first-Fits 8 _ shaped.2.2.2.2.2.2.2.2.2.2.2.2.2.2.2.2.2.0
          shaped.2.2.2.2.2.2.2.2.2.2.2.2.2.2.2.2.2.1;
    image_size =
        first-Fits 4 _ shaped.2.2.2.2.2.2.2.2.2.2.2.2.2.2.2.2.2.2.2.0
          shaped.2.2.2.2.2.2.2.2.2.2.2.2.2.2.2.2.2.2.2.1;
  }

  rows-lem : rows_of_event (event_of_bytes bs) (padding_of_bytes bs) ≡ decode event_slots bs
  unfolding event_of_bytes event_of_rows padding_of_bytes rows_of_event decode
  rows-lem = λ i.
      empty _ shaped.0 i
      ∷ single _ shaped.2.0 i
      ∷ empty _ shaped.2.2.0 i
      ∷ get_or (decode event_slots bs) 3 []
      ∷ empty _ shaped.2.2.2.2.0 i
      ∷ single _ shaped.2.2.2.2.2.0 i
      ∷ empty _ shaped.2.2.2.2.2.2.0 i
      ∷ single _ shaped.2.2.2.2.2.2.2.0 i
      ∷ empty _ shaped.2.2.2.2.2.2.2.2.0 i
      ∷ single _ shaped.2.2.2.2.2.2.2.2.2.0 i
      ∷ empty _ shaped.2.2.2.2.2.2.2.2.2.2.0 i
      ∷ get_or (decode event_slots bs) 11 []
      ∷ empty _ shaped.2.2.2.2.2.2.2.2.2.2.2.2.0 i
      ∷ get_or (decode event_slots bs) 13 []
      ∷ empty _ shaped.2.2.2.2.2.2.2.2.2.2.2.2.2.2.0 i
      ∷ single _ shaped.2.2.2.2.2.2.2.2.2.2.2.2.2.2.2.0 i
      ∷ get_or (decode event_slots bs) 16 []
      ∷ single _ shaped.2.2.2.2.2.2.2.2.2.2.2.2.2.2.2.2.2.0 i
      ∷ empty _ shaped.2.2.2.2.2.2.2.2.2.2.2.2.2.2.2.2.2.2.0 i
      ∷ single _ shaped.2.2.2.2.2.2.2.2.2.2.2.2.2.2.2.2.2.2.2.0 i
      ∷ get_or (decode event_slots bs) 20 []
      ∷ []

  -- Copying a message of the size of an event into an event, and that event with the padding that
  -- was copied back to bytes, gives the message.
  pub ev_to_bytes-event_of_bytes : ev_to_bytes (event_of_bytes bs) (padding_of_bytes bs) ≡ bs
  unfolding ev_to_bytes
  ev_to_bytes-event_of_bytes =
      ap (encode event_slots) rows-lem
      ∙ encode-decode event_slots bs h (len ∙ sym size_of-event_slots)
