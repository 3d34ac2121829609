-- ===== src/Lib.antt =====
-- TurfSync is a NestJS server on which users book hourly slots of sports turfs. This library models
-- the services that change bookings, slots, payments, coupons, turfs, reviews and accounts, and
-- proves what their transactions, in any order and interleaving, do to the tables.
--
-- The parts and their files:
-- - Schema: the tables of prisma/schema.prisma that these services use, as the lists of one record
--   `Db`. Table is the queries of the Prisma client on one table (`findFirst`, `findMany`,
--   `findUnique`, `update`, `updateMany`, `deleteMany`, `count`); Outcome is the exceptions of
--   NestJS and Prisma, and the roll-back of a transaction that throws.
-- - Booking: src/booking/booking.service.ts and src/booking/booking-complete.job.ts. `book` and
--   `cancel_tx` are the transactions of `create` and `cancel`; Booking.Request has the handlers
--   round them with the lock, the queue and the counters; Booking.Cleanup is
--   `cleanupStalePendingBookings` and Booking.Complete `autoCompleteBookings`, with
--   `completeBooking` of src/admin/admin.service.ts.
-- - Slot: src/slot/slot.service.ts, the generation of slots and the removal of old ones;
--   Slot.Repeat is about generating twice, Slot.Ending about the end of the slots that are
--   generated.
-- - Payment: src/payment/payment.service.ts, `createPaymentIntent`, `refund` and
--   `getPaymentStatus`; Payment.Webhook is `handleWebhook` and its handlers.
-- - Coupon: src/coupon/coupon.service.ts, `validateAndCalculate` and `applyCoupon`; Coupon.Admin is
--   `create`, `update`, `toggleActive` and `delete`.
-- - Lock: the lock methods of src/redis/redis-lock.service.ts. The Redis server is the parameter
--   `RedisClient`, a record of the commands that the service sends with their documented laws.
-- - Cache: the cache methods of src/redis/redis-lock.service.ts, over the parameter `RedisCache`.
--   `delByPattern` runs on fuel, one more than the calls that the server says a SCAN takes.
-- - Turf: src/turf/turf.service.ts. Turf.Listing is the query of `findAll`, Turf.Handlers the
--   handlers with the cache; Turf.Catalogue is what the requests do to the rows alone,
--   Turf.Coherence relates the two, and Turf.Available is about `getAvailableSlots`.
-- - Review: src/review/review.service.ts; Review.Create is about when a review is accepted,
--   Review.Rating about the rating of a turf, and Review.Stale about the copies of it.
-- - Admin: src/admin/admin.service.ts, its operations with their audit logs and the guards of
--   src/admin/admin.controller.ts; Admin.Revenue is `getRevenueAnalytics` by days, weeks and months,
--   Admin.Records the search for users and the report of payments, Admin.Reports the other queries.
--   Admin.Audit, Admin.Roles, Admin.Periods, Admin.Totals, Admin.Ranges, Admin.Takings, Admin.Popular
--   and, about the answers about users, Admin.Privacy have the proofs.
-- - Upload: src/upload/upload.service.ts and src/upload/upload.controller.ts, the images of turfs.
--   Cloudinary is the parameter `Cloudinary`, a record with its documented laws. Upload.Names is
--   about the public id of a URL and Upload.Images about an upload with its deletion.
-- - Http: the HTTP layer. Http itself is the exception filters and the middleware of request ids of
--   src/common, in the order that src/main.ts gives them; Http.Filters and Http.Refusals are about
--   the answers to exceptions. Http.Pipes is src/common/pipes/parse-uuid.pipe.ts with Http.Uuid
--   about it, Http.Envelope src/common/interceptors/response.interceptor.ts. Http.Routes lists the
--   routes of all controllers with their guards and roles, and Http.Access says who gets to them.
-- - Notify: src/queue/processors/notification.processor.ts, the messages of the jobs that the
--   services of bookings and payments put into the queue. How JavaScript spells identifiers, amounts
--   and dates is the parameter `Rendering`. Notify.Texts is about what the messages name.
-- - Sms: src/sms/sms.service.ts, `formatNumber` and `send`.
-- - Auth: src/auth/auth.service.ts over the tables of accounts, `login` and `generateTokens`;
--   Auth.Session has the refresh tokens, with src/auth/strategies/jwt-refresh.strategy.ts, and
--   Auth.Account registration, the profile, e-mail verification and password reset. Argon2, SHA-256,
--   the signing of tokens and the check of a token by passport-jwt, its signature and its expiry, are
--   parameters or arguments. Children prove the lockout, the rotation
--   of tokens and the reset. Auth.Controller is the session routes of src/auth/auth.controller.ts,
--   and Auth.Continuity joins its login and its refresh. Auth.Guard is
--   src/auth/strategies/jwt.strategy.ts and src/common/guards/roles.guard.ts.
-- - Pagination: src/common/utils/pagination.util.ts.
-- - Date and TimeText: the UTC dates of src/common/utils/date.util.ts and the "HH:MM" texts that
--   these services compute with. Date.Months is its months on the Gregorian calendar, and
--   Date.Calendar what holds of them.
-- - System: the server's tables of bookings, payments, slots, coupons, turfs and reviews as a
--   whole. A `Step` is one transaction of their services, at any arguments, and `Reach` a sequence
--   of steps, so it covers every interleaving of requests, webhook events and scheduled jobs whose
--   transactions PostgreSQL runs one after the other. The children prove what holds of it: Safety
--   and History of bookings, Tally of coupons, Reviews of a review between its tests and its write,
--   Release and Refund of what a cancellation and a refund leave, Expiry of the cleanup of stale
--   bookings.
-- - Tests runs the definitions and the theorems on concrete tables.
--
-- Conventions: identifiers, Stripe identifiers and lock values are numbers, since the code only
-- compares them; a new identifier, the clock and the answers of Stripe, of Redis and of the queue
-- are arguments. A date is its milliseconds since 1970. An amount of money is in millionths of the
-- currency unit, where a percentage of an amount in whole cents is exact, and a percentage of
-- another amount is rounded down to the millionth; the code computes both in floating point, whose
-- rounding is not modelled. A time of day is well formed "HH:MM", as the pattern of
-- src/turf/dto/create-turf.dto.ts makes it, so `parseInt` and `Number` agree on its parts. The
-- loops are over lists or over a number of rounds known before they start, so none needs fuel but
-- the loop of `delByPattern` and the search for the month of a day, which takes one round per day
-- since 1970, and every month has days. A rating is kept as a sum and a count, whose quotient the
-- code stores.
--
-- Not modelled: mail, the texts of the SMS service, the throttling of requests, the validation of
-- bodies against their classes, the interceptors for logging and metrics, and metrics but for the
-- counters of booking; the access tokens, which nothing stores; the rows that the queries join to
-- their answers; failures of the database but for the time limits of the transactions of a new
-- booking, of the mail server and of the queue but for its refusal of a job; the range of a column but
-- for that of a coupon's discount; the expiry of a lock while it is held; the foreign keys to users but
-- for that of an audit log. `System` leaves out the accounts and the audit logs, which have tables of
-- their own, and the uploads of images.
pub mod Prelude
pub mod Table
pub mod Schema
pub mod Outcome
pub mod Date
pub mod TimeText
pub mod Booking
pub mod Slot
pub mod Coupon
pub mod Payment
pub mod Lock
pub mod Cache
pub mod Turf
pub mod Review
pub mod Pagination
pub mod Auth
pub mod Admin
pub mod Notify
pub mod Sms
pub mod Upload
pub mod Http
pub mod System
pub mod Tests
