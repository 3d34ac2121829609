-- ===== src/Notify/Texts.antt =====
-- src/queue/processors/notification.processor.ts: whom the messages of bookings and payments go to,
-- and what they name.
use mathlib.Core.List.{append_assoc}
use turf_sync.Prelude.{◌≡◌, refl, sym, ap, ◌∙◌, List, [], ◌∷◌, ◌++◌, IsIn, inl, inr}
use turf_sync.Schema.{Booking, Slot, Turf, Payment, Text, codes}
use turf_sync.Auth.{User}
use turf_sync.Notify.{
  JobBooking, Job, booking_confirmed, booking_cancelled, payment_success, payment_failed, Rendering,
  booking_date, template, parts_of, phone_of, process, confirmed_job, success_job, failed_job,
}

-- A text stands somewhere in another.
abbrev pub IsInside : Text → Text → Type 0
IsInside part t = (before after : Text) × (t ≡ before ++ (part ++ after))

template-IsInside :
    (part : Text) (parts : List Text) → IsIn part parts → IsInside part (template parts)
unfolding template
template-IsInside part [] m = absurd m
template-IsInside part (x ∷ parts) (inl e) = ([], template parts, ap (λ y. y ++ template parts) e)
template-IsInside part (x ∷ parts) (inr m) =
    let (before, after, e) = template-IsInside part parts m in
    (x ++ before, after, ap (λ y. x ++ y) e ∙ sym (append_assoc x before (part ++ after)))

abbrev booking_of : Job → JobBooking
booking_of (booking_confirmed booking phone turf_name) = booking
booking_of (booking_cancelled booking phone) = booking
booking_of (payment_success paid booking phone) = booking
booking_of (payment_failed payment_id reason booking phone) = booking

module _ (rendering : Rendering) where
  open rendering use {uuid, amount, locale_date}

  -- Every message goes to the phone of its job and names the booking.
  process-names :
      (j : Job)
      → ((process rendering j).phone ≡ phone_of j)
        × IsInside (uuid (booking_of j).id) (process rendering j).message
  unfolding process parts_of
  process-names j =
      (refl, template-IsInside (uuid (booking_of j).id) (parts_of rendering j) (named j))
    where
      named : (k : Job) → IsIn (uuid (booking_of k).id) (parts_of rendering k)
      named (booking_confirmed booking phone turf_name) =
          inr (inr (inr (inr (inr (inr (inr (inl refl)))))))
      named (booking_cancelled booking phone) = inr (inl refl)
      named (payment_success paid booking phone) = inr (inr (inr (inr (inr (inl refl)))))
      named (payment_failed payment_id reason booking phone) = inr (inl refl)

  -- The message of a new booking names its turf, the date of the request and the start of the slot,
  -- that of a payment its amount and the day of the slot, and that of a payment that failed the reason,
  -- but "Confirmed Date" in place of the day.
  messages_name :
      (date reason : Text) (b : Booking) (s : Slot) (u : User) (t : Turf) (p : Payment)
      → IsInside t.name (process rendering (confirmed_job date b s u t)).message
        × IsInside date (process rendering (confirmed_job date b s u t)).message
        × IsInside s.start_time (process rendering (confirmed_job date b s u t)).message
        × IsInside (amount p.amount) (process rendering (success_job p b s u)).message
        × IsInside (locale_date s.date) (process rendering (success_job p b s u)).message
        × IsInside reason (process rendering (failed_job p reason b u)).message
        × IsInside (codes "Confirmed Date") (process rendering (failed_job p reason b u)).message
  unfolding process parts_of booking_date
  messages_name date reason b s u t p =
      let confirmed = parts_of rendering (confirmed_job date b s u t) in
      let success = parts_of rendering (success_job p b s u) in
      let failed = parts_of rendering (failed_job p reason b u) in
      (
        template-IsInside t.name confirmed (inr (inl refl)),
        template-IsInside date confirmed (inr (inr (inr (inl refl)))),
        template-IsInside s.start_time confirmed (inr (inr (inr (inr (inr (inl refl)))))),
        template-IsInside (amount p.amount) success (inr (inl refl)),
        template-IsInside (locale_date s.date) success (inr (inr (inr (inl refl)))),
        template-IsInside reason failed (inr (inr (inr (inr (inr (inl refl)))))),
        template-IsInside (codes "Confirmed Date") failed (inr (inr (inr (inl refl)))),
      )
