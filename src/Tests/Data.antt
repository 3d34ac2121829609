-- ===== src/Tests/Data.antt =====
-- A turf with two slots, a booking of the first, and what the server does to them.
use turf_sync.Prelude.{ℕ, none, some, [], ◌∷◌, true, false, ◌≡◌, refl, inl, inr, arith, subst, IsIn}
use turf_sync.Schema.{
  SportType, Db, empty_db, Turf, Slot, Booking, BookingStatus, Payment, PaymentStatus, Text,
  is_active_status,
}
use turf_sync.Table.{find_unique, find_first}
use turf_sync.Booking.{CreateBookingDto}
use turf_sync.System.Invariant.{IsConsistent, slot_booked}

abbrev pub seven : Text
seven = b'0' ∷ b'7' ∷ b':' ∷ b'0' ∷ b'0' ∷ []

abbrev pub eight : Text
eight = b'0' ∷ b'8' ∷ b':' ∷ b'0' ∷ b'0' ∷ []

abbrev pub turf : Turf
turf = record {
  id = 1;
  name = b'A' ∷ [];
  city = b'D' ∷ [];
  sport_type = SportType.football;
  rating = record { sum = 0; count = 0 };
  price_per_hour = 1000000000;
  open_time = seven;
  close_time = eight;
  images = [];
  is_active = true;
}

abbrev pub free_slot : ℕ → Slot
free_slot id = record {
  id = id;
  turf_id = 1;
  date = 172800000;
  start_time = seven;
  end_time = eight;
  is_booked = false;
}

abbrev pub taken_slot : Slot
taken_slot = record (free_slot 11) { is_booked = true }

abbrev pub dto : CreateBookingDto
dto = record { turf_id = 1; slot_id = 11; date = 172800000; notes = none; coupon_code = none }

abbrev pub booking : Booking
booking = record {
  id = 21;
  user_id = 5;
  turf_id = 1;
  slot_id = 11;
  total_amount = 1000000000;
  status = BookingStatus.pending;
  notes = none;
  created_at = 100;
}

abbrev pub cancelled_booking : Booking
cancelled_booking = record booking { status = BookingStatus.cancelled }

abbrev pub payment : Payment
payment = record {
  id = 31;
  booking_id = 21;
  amount = 1000000000;
  currency = "bdt";
  status = PaymentStatus.initiated;
  stripe_payment_intent_id = 41;
  stripe_client_secret = some 42;
  stripe_charge_id = none;
  paid_at = none;
  failure_reason = none;
  created_at = 172800000;
}

-- Nothing is booked.
abbrev pub open_db : Db
open_db = record empty_db { turfs = turf ∷ []; slots = free_slot 11 ∷ free_slot 12 ∷ [] }

-- The first slot is booked.
abbrev pub booked_db : Db
booked_db = record open_db { slots = taken_slot ∷ free_slot 12 ∷ []; bookings = booking ∷ [] }

-- The booking is cancelled.
abbrev pub cancelled_db : Db
cancelled_db = record open_db { bookings = cancelled_booking ∷ [] }

-- The booking has a payment that waits.
abbrev pub paying_db : Db
paying_db = record booked_db { payments = payment ∷ [] }

pub open_db-IsConsistent : IsConsistent open_db
open_db-IsConsistent = record {
  booking_ids = tt;
  booking_slots = tt;
  slot_numbers = ground arith;
  held = λ b m. absurd m;
}

booking_holds :
    (b : Booking)
    → IsIn b booked_db.bookings
    → is_active_status b.status ≡ true
    → slot_booked b.slot_id booked_db.slots ≡ true
unfolding slot_booked find_unique find_first
booking_holds b (inl e) =
    subst
      (λ (x : Booking).
        is_active_status x.status ≡ true → slot_booked x.slot_id booked_db.slots ≡ true)
      e (λ t. refl)
booking_holds b (inr m) = absurd m

pub booked_db-IsConsistent : IsConsistent booked_db
booked_db-IsConsistent = record {
  booking_ids = ground arith;
  booking_slots = ground arith;
  slot_numbers = ground arith;
  held = booking_holds;
}
