-- ===== src/Notify.antt =====
-- src/queue/processors/notification.processor.ts: the messages of the jobs in the notification queue,
-- and the jobs that src/booking/booking.service.ts and src/payment/payment.service.ts put into it. The
-- log lines and the second that `simulateSMS` waits are left out.
pub mod Texts
use turf_sync.Prelude.{ℕ, Option, none, some, List, [], ◌∷◌, ◌++◌}
use turf_sync.Schema.{Booking, Slot, Turf, Payment, Text, codes}
use turf_sync.Auth.{User}

-- `Booking`; its slot is the date of it, the only field of the slot that a message reads.
pub record JobBooking : Type 0 where
  pub id : ℕ
  pub date : Option Text
  pub start_time : Option Text
  pub slot_date : Option ℕ

pub data Job : Type 0 where
  booking_confirmed : (booking : JobBooking) (phone : ℕ) (turf_name : Text) → Job
  booking_cancelled : (booking : JobBooking) (phone : ℕ) → Job
  payment_success : (amount : ℕ) (booking : JobBooking) (phone : ℕ) → Job
  payment_failed : (payment_id : ℕ) (reason : Text) (booking : JobBooking) (phone : ℕ) → Job

abbrev pub phone_of : Job → ℕ
phone_of (booking_confirmed booking phone turf_name) = phone
phone_of (booking_cancelled booking phone) = phone
phone_of (payment_success paid booking phone) = phone
phone_of (payment_failed payment_id reason booking phone) = phone

-- What `simulateSMS` is given.
pub record SimulatedSms : Type 0 where
  pub phone : ℕ
  pub message : Text

-- How JavaScript spells an identifier, an amount, and a date by `toLocaleDateString`.
pub record Rendering : Type 0 where
  pub uuid : ℕ → Text
  pub amount : ℕ → Text
  pub locale_date : ℕ → Text

-- `${value}` of a value that may be undefined
abbrev pub or_undefined : Option Text → Text
or_undefined none = codes "undefined"
or_undefined (some t) = t

-- The parts of a template literal, one behind the other.
unfoldable pub template : List Text → Text
template [] = []
template (part ∷ parts) = part ++ template parts

module _ (rendering : Rendering) where
  open rendering use {uuid, amount, locale_date}

  -- The other side of `booking.date ||`
  abbrev pub slot_day : Option ℕ → Text
  slot_day none = codes "Confirmed Date"
  slot_day (some day) = locale_date day

  -- `bookingDate`
  unfoldable pub booking_date : JobBooking → Text
  booking_date b = elim b.date [
    | none ↦ slot_day b.slot_date
    | some [] ↦ slot_day b.slot_date
    | some (c ∷ cs) ↦ c ∷ cs
  ]

  -- The text that each of the four handlers sends, in its parts.
  unfoldable pub parts_of : Job → List Text
  unfolding booking_date
  parts_of (booking_confirmed booking phone turf_name) =
      codes "TurfSync: Your booking at "
      ∷ turf_name
      ∷ codes " is confirmed! Date: "
      ∷ or_undefined booking.date
      ∷ codes " at "
      ∷ or_undefined booking.start_time
      ∷ codes ". Booking ID: "
      ∷ uuid booking.id
      ∷ []
  parts_of (booking_cancelled booking phone) =
      codes "TurfSync: Your booking with ID "
      ∷ uuid booking.id
      ∷ codes " has been cancelled. If you have any questions, please contact support."
      ∷ []
  parts_of (payment_success paid booking phone) =
      codes "TurfSync: Your payment of amount "
      ∷ amount paid
      ∷ codes " is successful. Your booking at "
      ∷ booking_date booking
      ∷ codes " is confirmed! Booking ID: "
      ∷ uuid booking.id
      ∷ []
  parts_of (payment_failed payment_id reason booking phone) =
      codes "TurfSync: Your payment for booking "
      ∷ uuid booking.id
      ∷ codes " on "
      ∷ booking_date booking
      ∷ codes " could not be processed. Reason: "
      ∷ reason
      ∷ codes ". Please try again or contact support."
      ∷ []

  -- `handleBookingConfirmed`, `handleBookingCancelled`, `handlePaymentSuccess` and
  -- `handlePaymentFailed`
  unfoldable pub process : Job → SimulatedSms
  unfolding parts_of template
  process job = record { phone = phone_of job; message = template (parts_of job) }

-- A row of bookings in a job, with its slot where the query includes it; it has no date of its own.
abbrev pub joined : Booking → Option Slot → JobBooking
joined b none = record { id = b.id; date = none; start_time = none; slot_date = none }
joined b (some s) = record { id = b.id; date = none; start_time = none; slot_date = some s.date }

-- The job of `create`, with the date of the request and the slot of the booking.
abbrev pub confirmed_job : Text → Booking → Slot → User → Turf → Job
confirmed_job date b s u t =
    booking_confirmed
      (record { id = b.id; date = some date; start_time = some s.start_time; slot_date = none })
      u.phone t.name

-- The job of `cancel`.
abbrev pub cancelled_job : Booking → Slot → User → Job
cancelled_job b s u = booking_cancelled (joined b (some s)) u.phone

-- The job of `handlePaymentSuccess` of the payment service.
abbrev pub success_job : Payment → Booking → Slot → User → Job
success_job p b s u = payment_success p.amount (joined b (some s)) u.phone

-- The job of `handlePaymentFailed` of the payment service.
abbrev pub failed_job : Payment → Text → Booking → User → Job
failed_job p reason b u = payment_failed p.id reason (joined b none) u.phone
