-- ===== src/Sms/Spellings.antt =====
-- src/sms/sms.service.ts and src/auth/dto/register.dto.ts: one phone number has several spellings.
use turf_sync.Prelude.{
  ℕ, ◌≡◌, ◌≢◌, refl, sym, ap, ◌∙◌, arith, true, false, [], ◌∷◌, ◌++◌, ◌==◌, subst, Bool-cases, inl,
  inr,
}
use turf_sync.Schema.{Text}
use turf_sync.Sms.{
  digits_of, with_country, with_plus, format_number, all_digits, is_subscriber, plus_8801,
  country_8801, national_01, is_phone,
}

digits_of-all_digits : (t : Text) → all_digits t ≡ true → digits_of t ≡ t
unfolding digits_of
digits_of-all_digits [] h = refl
digits_of-all_digits (c ∷ cs) h = ground (arith, digits_of-all_digits cs)

subscriber_digits : (t : Text) → is_subscriber t ≡ true → all_digits t ≡ true
subscriber_digits [] h = cc
subscriber_digits (c ∷ cs) h = ground arith

first_of : Text → ℕ
first_of [] = 0
first_of (c ∷ cs) = c

first_ne : (s t : Text) → first_of s ≢ first_of t → s ≢ t
first_ne s t h e = h (ap first_of e)

digits_of_all : (t : Text) → all_digits (digits_of t) ≡ true
unfolding digits_of
digits_of_all [] = refl
digits_of_all (c ∷ cs) = ground (arith, digits_of_all cs)

-- A cleaned number, once it has its country.
abbrev IsSettled : Text → Type 0
IsSettled w = (digits_of w ≡ w) × (with_country w ≡ w) × (with_plus w ≡ (b'+' ∷ w))

with_country-IsSettled : (d : Text) → all_digits d ≡ true → IsSettled (with_country d)
unfolding digits_of
with_country-IsSettled [] h = (refl, refl, refl)
with_country-IsSettled (c ∷ cs) h =
    let whole : digits_of (c ∷ cs) ≡ (c ∷ cs) = digits_of-all_digits (c ∷ cs) h in
    let no_plus : (c == b'+') ≡ false = ground arith in
    elim (Bool-cases (c == b'0')) [
      | inl t ↦ rw t (ap (λ x. b'8' ∷ b'8' ∷ x) whole, refl, refl)
      | inr f ↦ rw f (whole, rw f refl, rw no_plus refl)
    ]

format_number-format_number : (t : Text) → format_number (format_number t) ≡ format_number t
unfolding format_number digits_of
format_number-format_number [] = refl
format_number-format_number (c ∷ cs) =
    let w = with_country (digits_of (c ∷ cs)) in
    let (same, country, plus) =
      with_country-IsSettled (digits_of (c ∷ cs)) (digits_of_all (c ∷ cs)) in
    let again : format_number (b'+' ∷ w) ≡ (b'+' ∷ w) =
      ap (λ x. with_plus (with_country x)) same ∙ ap with_plus country ∙ plus in
    subst (λ x. format_number x ≡ x) (sym plus) again

-- A number of a subscriber, from 3 to 9 and eight digits, is accepted at registration in each of the
-- three spellings, the three are different texts, and an SMS to any of them goes to the same number,
-- with the
-- country in front. And to format a number that is formatted changes nothing, whatever text it was made of.
pub format_number-spellings :
    (t : Text)
    → is_subscriber t ≡ true
    → (is_phone (national_01 ++ t) ≡ true)
      × (is_phone (country_8801 ++ t) ≡ true)
      × (is_phone (plus_8801 ++ t) ≡ true)
      × ((national_01 ++ t) ≢ (country_8801 ++ t))
      × ((national_01 ++ t) ≢ (plus_8801 ++ t))
      × ((country_8801 ++ t) ≢ (plus_8801 ++ t))
      × (format_number (national_01 ++ t) ≡ (plus_8801 ++ t))
      × (format_number (country_8801 ++ t) ≡ (plus_8801 ++ t))
      × (format_number (plus_8801 ++ t) ≡ (plus_8801 ++ t))
      × ((s : Text) → format_number (format_number s) ≡ format_number s)
unfolding is_phone format_number digits_of first_of
format_number-spellings t h =
    let d = digits_of-all_digits t (subscriber_digits t h) in
    (
      rw h refl,
      rw h refl,
      rw h refl,
      first_ne (national_01 ++ t) (country_8801 ++ t) (λ e. omega arith),
      first_ne (national_01 ++ t) (plus_8801 ++ t) (λ e. omega arith),
      first_ne (country_8801 ++ t) (plus_8801 ++ t) (λ e. omega arith),
      rw d refl,
      rw d refl,
      rw d refl,
      format_number-format_number,
    )
