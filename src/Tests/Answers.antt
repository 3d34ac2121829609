-- ===== src/Tests/Answers.antt =====
-- The answers to requests that fail, identifiers that are and are not UUIDs, and a caller without a
-- token.
use turf_sync.Prelude.{◌≡◌, ◌↔◌, ◌⊎◌, ◌≤◌, ◌<◌, refl, true, false, none, some, [], ◌∷◌}
use turf_sync.Schema.{Text, codes}
use turf_sync.Outcome.{bad_request, unauthorized, Reason, ok, err}
use turf_sync.Booking.Request.{create, create_locked, check_date, check_coupon}
use turf_sync.Lock.{acquire_lock}
use turf_sync.Date.{start_of_utc_day, add_utc_days}
use turf_sync.Http.{
  Thrown, http_exception, fields, many, prisma_error, PrismaError, RequestInfo, answer_error,
  ErrorAnswer, answer_exception,
}
use turf_sync.Http.Refusals.{Overrun, refused_booking}
use turf_sync.Http.Pipes.{transform}
use turf_sync.Http.Uuid.{IsUuid, transform_iff}
use turf_sync.Http.Routes.{Caller, admit, admin_route, AdminRoute}
use turf_sync.Tests.Data.{dto, open_db}
use turf_sync.Tests.Locks.{server, env, held_keys}

abbrev request : RequestInfo
request = record { request_id = codes "r1"; url = codes "/api/bookings" }

abbrev invalid : Thrown
invalid = http_exception 400 (fields (some (many (codes "date must be a string" ∷ []))))

abbrev lost_row : PrismaError
lost_row = record { code = codes "P2025"; target = []; cause = []; field_name = [] }

invalid_message : (answer_error invalid request).body.message ≡ codes "Validation failed"
unfolding answer_error
invalid_message = refl

lost_status : (answer_error (prisma_error lost_row) request).status ≡ 404
unfolding answer_error
lost_status = refl

abbrev words : Reason → Text
words r = codes "refused"

abbrev locked_answer : ErrorAnswer
locked_answer =
    answer_exception words none (codes "r2") (codes "/api") (bad_request Reason.slot_locked)

refused_booking_example :
    (400 ≤ locked_answer.status)
    × (((locked_answer.status < 500) × (locked_answer.captured ≡ false))
        ⊎ Overrun env dto 7 open_db)
unfolding create create_locked check_date check_coupon acquire_lock start_of_utc_day add_utc_days
refused_booking_example =
    refused_booking words none (codes "r2") (codes "/api") server env dto 7 open_db held_keys
      (bad_request Reason.slot_locked) refl

abbrev identifier : Text
identifier = codes "F302f2a5-e425-4731-8ac0-397d0a1d9ee1"

passes : transform identifier ≡ ok identifier
unfolding transform
passes = refl

-- Of version 1.
refused :
    transform (codes "f302f2a5-e425-1731-8ac0-397d0a1d9ee1") ≡ err (bad_request Reason.invalid_uuid)
unfolding transform
refused = refl

transform_iff_example :
    (transform identifier ≡ ok identifier) ↔ ((identifier ≡ identifier) × IsUuid identifier)
transform_iff_example = transform_iff identifier identifier

abbrev passer_by : Caller
passer_by = record { user = none; has_session = true }

turned_away :
    admit (admin_route AdminRoute.users) passer_by ≡ err (unauthorized Reason.user_not_found)
unfolding admit
turned_away = refl
