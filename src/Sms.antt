-- ===== src/Sms.antt =====
-- src/sms/sms.service.ts: SmsService, with the pattern of a phone number of
-- src/auth/dto/register.dto.ts. A text is the list of its characters.
pub mod Spellings
use turf_sync.Prelude.{
  ℕ, zero, suc, Bool, true, false, not, ◌&&◌, ◌||◌, Option, none, some, List, [], ◌∷◌, ◌++◌, ◌==◌,
  leb, if◌then◌else◌, length,
}
use turf_sync.Schema.{Text}
use turf_sync.TimeText.{is_digit}

-- `phone.replace(/\D/g, '')`
unfoldable pub digits_of : Text → Text
digits_of [] = []
digits_of (c ∷ cs) = let rest = digits_of cs in if is_digit c then c ∷ rest else rest

-- `if (cleaned.startsWith('0')) cleaned = '88' + cleaned;`
abbrev pub with_country : Text → Text
with_country [] = []
with_country (c ∷ cs) = if c == b'0' then b'8' ∷ b'8' ∷ c ∷ cs else c ∷ cs

-- `if (!cleaned.startsWith('+')) cleaned = '+' + cleaned;`
abbrev pub with_plus : Text → Text
with_plus [] = b'+' ∷ []
with_plus (c ∷ cs) = if c == b'+' then c ∷ cs else b'+' ∷ c ∷ cs

-- `formatNumber`
unfoldable pub format_number : Text → Text
format_number [] = []
format_number (c ∷ cs) = with_plus (with_country (digits_of (c ∷ cs)))

-- What `send` hands to Twilio: nothing without a client or outside production.
pub record Message : Type 0 where
  pub body : Text
  pub from : Text
  pub to : Text

unfoldable pub send : Bool → Bool → Text → Text → Text → Option Message
send has_client is_production from_number to message =
    if not has_client || not is_production
    then none
    else some (record { body = message; from = from_number; to = format_number to })

abbrev pub all_digits : Text → Bool
all_digits [] = true
all_digits (c ∷ cs) = is_digit c && all_digits cs

-- `[3-9]\d{8}`
abbrev pub is_subscriber : Text → Bool
is_subscriber [] = false
is_subscriber (c ∷ cs) = leb b'3' c && (leb c b'9' && (length cs == 8 && all_digits cs))

abbrev pub after_prefix : Text → Text → Option Text
after_prefix [] t = some t
after_prefix (c ∷ cs) [] = none
after_prefix (c ∷ cs) (d ∷ ds) = if c == d then after_prefix cs ds else none

abbrev pub with_prefix_matches : Text → Text → Bool
with_prefix_matches prefix t = elim (after_prefix prefix t) [
  | none ↦ false
  | some s ↦ is_subscriber s
]

abbrev pub plus_8801 : Text
plus_8801 = b'+' ∷ b'8' ∷ b'8' ∷ b'0' ∷ b'1' ∷ []

abbrev pub country_8801 : Text
country_8801 = b'8' ∷ b'8' ∷ b'0' ∷ b'1' ∷ []

abbrev pub national_01 : Text
national_01 = b'0' ∷ b'1' ∷ []

-- `/^(\+8801|8801|01)[3-9]\d{8}$/`
unfoldable pub is_phone : Text → Bool
is_phone t =
    with_prefix_matches plus_8801 t
    || (with_prefix_matches country_8801 t || with_prefix_matches national_01 t)
