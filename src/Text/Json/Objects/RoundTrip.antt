-- ===== src/Text/Json/Objects/RoundTrip.antt =====
-- An object that encoding/json has printed, read again.
use open_anti_cheat.Common.{
  ℕ, zero, suc, ◌+◌, ◌<◌, ◌≡◌, refl, ap, ◌∙◌, false, some, ◌>>=◌, List, [], ◌∷◌, ◌++◌, append_assoc,
  map, length, length-append, pos, negsuc, arith,
}
use open_anti_cheat.Text.Utf8.{runes, encode_utf8}
use open_anti_cheat.Text.Decimal.{
  is_digit, is_digit-digit, decimal, scan_digits, scan_digits-decimal, Front, decimal-Front,
}
use open_anti_cheat.Text.Json.Strings.{quote, read_string}
use open_anti_cheat.Text.Json.Strings.RoundTrip.{read_string-quote}
use open_anti_cheat.Text.Json.Objects.{
  Value, text, number, Member, print_value, print_member, print_members, print_object, opposite,
  read_digits, read_value, read_member, read_members, read_object,
}

-- Bytes that are not part of well-formed UTF-8, each replaced by U+FFFD.
abbrev pub to_valid : List ℕ → List ℕ
to_valid s = encode_utf8 (runes s)

abbrev pub valid_value : Value → Value
valid_value (text s) = text (to_valid s)
valid_value (number z) = number z

abbrev pub valid_member : Member → Member
valid_member m = (to_valid m.0, valid_value m.1)

-- A number ends here.
abbrev pub NoDigit : List ℕ → Type 0
NoDigit [] = Unit {0}
NoDigit (c ∷ cs) = is_digit c ≡ false

scan_digits_stop : (n : ℕ) (rest : List ℕ) → NoDigit rest → scan_digits n rest ≡ (n, rest)
unfolding scan_digits
scan_digits_stop n [] h = refl
scan_digits_stop n (c ∷ cs) h = rw h

read_digits_front :
    (d : ℕ) (ds rest : List ℕ)
    → d < 10
    → read_digits ((48 + d) ∷ ds ++ rest) ≡ some (scan_digits 0 ((48 + d) ∷ ds ++ rest))
unfolding read_digits
read_digits_front d ds rest h = rw (is_digit-digit d h)

read_digits-decimal :
    (n : ℕ) (rest : List ℕ) → NoDigit rest → read_digits (decimal n ++ rest) ≡ some (n, rest)
read_digits-decimal n rest h =
    front (decimal-Front n) ∙ ap some (scan_digits-decimal n rest ∙ scan_digits_stop n rest h)
  where
    front :
        Front (decimal n)
        → read_digits (decimal n ++ rest) ≡ some (scan_digits 0 (decimal n ++ rest))
    front (d, ds, l, e) = rw e (read_digits_front d ds rest l)

read_value_digit :
    (d : ℕ) (ds : List ℕ)
    → d < 10
    → read_value ((48 + d) ∷ ds)
      ≡ (do (n, r) ← read_digits ((48 + d) ∷ ds); some (number (pos n), r))
unfolding read_value
read_value_digit d ds h = ground arith

read_value-decimal :
    (n : ℕ) (rest : List ℕ)
    → NoDigit rest
    → read_value (decimal n ++ rest) ≡ some (number (pos n), rest)
read_value-decimal n rest h = front (decimal-Front n) ∙ rw (read_digits-decimal n rest h)
  where
    front :
        Front (decimal n)
        → read_value (decimal n ++ rest)
          ≡ (do (n, r) ← read_digits (decimal n ++ rest); some (number (pos n), r))
    front (d, ds, l, e) = rw e (read_value_digit d (ds ++ rest) l)

read_value-minus :
    (cs : List ℕ)
    → read_value (b'-' ∷ cs) ≡ (do (n, r) ← read_digits cs; some (number (opposite n), r))
unfolding read_value
read_value-minus cs = refl

read_value-string :
    (s rest : List ℕ)
    → read_value (quote s ++ rest) ≡ (do (t, r) ← read_string (quote s ++ rest); some (text t, r))
unfolding read_value quote
read_value-string s rest = refl

read_value-print_value :
    (v : Value) (rest : List ℕ)
    → NoDigit rest
    → read_value (print_value v ++ rest) ≡ some (valid_value v, rest)
unfolding print_value
read_value-print_value (text s) rest h = read_value-string s rest ∙ rw (read_string-quote s rest)
read_value-print_value (number (pos n)) rest h = read_value-decimal n rest h
read_value-print_value (number (negsuc n)) rest h =
    read_value-minus (decimal (suc n) ++ rest) ∙ rw (read_digits-decimal (suc n) rest h)

read_member-print_member :
    (m : Member) (rest : List ℕ)
    → NoDigit rest
    → read_member (print_member m ++ rest) ≡ some (valid_member m, rest)
unfolding read_member print_member
read_member-print_member (k, v) rest h = rw (
  append_assoc (quote k) (b':' ∷ print_value v) rest,
  read_string-quote k (b':' ∷ (print_value v ++ rest)),
  read_value-print_value v rest h,
)

one_member :
    (fuel : ℕ) (m : Member) (rest : List ℕ)
    → read_members (suc fuel) (print_member m ++ b'}' ∷ rest) ≡ some (valid_member m ∷ [], rest)
unfolding read_members
one_member fuel m rest = rw (read_member-print_member m (b'}' ∷ rest) refl, read_members)

more_members :
    (fuel : ℕ) (m : Member) (rest : List ℕ)
    → read_members (suc fuel) (print_member m ++ b',' ∷ rest)
      ≡ (do (ms, r) ← read_members fuel rest; some (valid_member m ∷ ms, r))
unfolding read_members
more_members fuel m rest = rw (read_member-print_member m (b',' ∷ rest) refl, read_members)

read_members-print_members :
    (fuel : ℕ) (m : Member) (ms : List Member) (rest : List ℕ)
    → length ms < fuel
    → read_members fuel (print_members (m ∷ ms) ++ b'}' ∷ rest)
      ≡ some (map valid_member (m ∷ ms), rest)
unfolding print_members
read_members-print_members zero m ms rest h = absurd (omega arith)
read_members-print_members (suc fuel) m [] rest h = one_member fuel m rest
read_members-print_members (suc fuel) m (n ∷ ms) rest h =
    rw (append_assoc (print_member m) (b',' ∷ print_members (n ∷ ms)) (b'}' ∷ rest)) (
      more_members fuel m (print_members (n ∷ ms) ++ b'}' ∷ rest)
      ∙ rw (read_members-print_members fuel n ms rest (omega arith)))

-- A member starts with a quote.
abbrev Quoted : List ℕ → Type 0
Quoted bs = (cs : List ℕ) × (bs ≡ b'"' ∷ cs)

print_members-Quoted : (m : Member) (ms : List Member) → Quoted (print_members (m ∷ ms))
unfolding print_members quote
print_members-Quoted m [] = (_, refl)
print_members-Quoted m (n ∷ ms) = (_, refl)

length-print_member : (m : Member) → 0 < length (print_member m)
unfolding print_member quote
length-print_member m = omega arith

length-print_members : (m : Member) (ms : List Member) → length ms < length (print_members (m ∷ ms))
unfolding print_members
length-print_members m [] = length-print_member m
length-print_members m (n ∷ ms) = omega (
  arith,
  length-append (print_member m) (b',' ∷ print_members (n ∷ ms)),
  length-print_members n ms,
)

read_object_quote :
    (cs : List ℕ) → read_object (b'{' ∷ b'"' ∷ cs) ≡ read_members (length (b'"' ∷ cs)) (b'"' ∷ cs)
unfolding read_object
read_object_quote cs = refl

read_object-Quoted :
    (bs rest : List ℕ)
    → Quoted bs
    → read_object (b'{' ∷ (bs ++ rest)) ≡ read_members (length (bs ++ rest)) (bs ++ rest)
read_object-Quoted bs rest (cs, e) = rw e (read_object_quote (cs ++ rest))

-- What a reader of JSON takes from the print of a map are its members, in the order of the print,
-- with their texts as valid UTF-8, whatever follows the print.
pub read_object-print_object :
    (ms : List Member) (rest : List ℕ)
    → read_object (print_object ms ++ rest) ≡ some (map valid_member ms, rest)
unfolding print_object read_object
read_object-print_object [] rest = refl
read_object-print_object (m ∷ ms) rest =
    let members = print_members (m ∷ ms) in
    ap (λ t. read_object (b'{' ∷ t)) (append_assoc members (b'}' ∷ []) rest)
    ∙ (read_object-Quoted members (b'}' ∷ rest) (print_members-Quoted m ms)
        ∙ read_members-print_members (length (members ++ b'}' ∷ rest)) m ms rest
            (omega (arith, length-append members (b'}' ∷ rest), length-print_members m ms)))
