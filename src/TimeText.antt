-- ===== src/TimeText.antt =====
-- Times of day as text, "HH:MM": how SlotService writes them and the services read them.
use turf_sync.Prelude.{
  ℕ, ◌+◌, ◌*◌, ◌-◌, ◌/◌, ◌%◌, Bool, true, false, ◌&&◌, Option, none, some, [], ◌∷◌, ◌++◌, leb, ◌==◌,
  if◌then◌else◌, ◌≡◌, refl, arith,
}
use turf_sync.Schema.{Text}

abbrev pub is_digit : ℕ → Bool
is_digit c = leb b'0' c && leb c b'9'

-- `Number(s)` of a text of decimal digits, with `acc` read so far; `none` is NaN.
unfoldable pub read_digits : ℕ → Text → Option ℕ
read_digits acc [] = some acc
read_digits acc (c ∷ cs) =
    let rest = read_digits (acc * 10 + (c - b'0')) cs in if is_digit c then rest else none

-- The part of a text before its first colon: `s.split(':')[0]`.
unfoldable pub before_colon : Text → Text
before_colon [] = []
before_colon (c ∷ cs) = let rest = before_colon cs in if c == b':' then [] else c ∷ rest

-- The part behind it up to the next colon, `s.split(':')[1]`; `none` is `undefined`.
unfoldable pub after_colon : Text → Option Text
unfolding before_colon
after_colon [] = none
after_colon (c ∷ cs) =
    let rest = after_colon cs in if c == b':' then some (before_colon cs) else rest

-- `s.split(':').map(Number)`: the hour and the minute
unfoldable pub hour_of : Text → Option ℕ
unfolding read_digits before_colon
hour_of s = read_digits 0 (before_colon s)

unfoldable pub minute_of : Text → Option ℕ
unfolding read_digits after_colon
minute_of s = elim (after_colon s) [ none ↦ none | some m ↦ read_digits 0 m ]

-- `n.toString().padStart(2, '0')` for n below 100
unfoldable pub pad_two : ℕ → Text
pad_two n = (b'0' + n / 10) ∷ (b'0' + n % 10) ∷ []

-- `${h.toString().padStart(2, '0')}:00`
unfoldable pub on_the_hour : ℕ → Text
unfolding pad_two
on_the_hour h = pad_two h ++ (b':' ∷ b'0' ∷ b'0' ∷ [])

unfoldable pub text_eq : Text → Text → Bool
text_eq [] [] = true
text_eq [] (d ∷ ds) = false
text_eq (c ∷ cs) [] = false
text_eq (c ∷ cs) (d ∷ ds) = c == d && text_eq cs ds

pub text_eq_refl : (t : Text) → text_eq t t ≡ true
unfolding text_eq
text_eq_refl [] = refl
text_eq_refl (c ∷ cs) = ground (arith, text_eq_refl cs)

pub text_eq→eq : (s t : Text) → text_eq s t ≡ true → s ≡ t
unfolding text_eq
text_eq→eq [] [] h = refl
text_eq→eq [] (d ∷ ds) h = cc
text_eq→eq (c ∷ cs) [] h = cc
text_eq→eq (c ∷ cs) (d ∷ ds) h = ground (arith, text_eq→eq cs ds)

on_the_hour_seven : hour_of (on_the_hour 7) ≡ some 7
unfolding hour_of on_the_hour
on_the_hour_seven = refl
