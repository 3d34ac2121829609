-- ===== src/Http/Access.antt =====
-- The routes of the server: who gets to which handler.
use turf_sync.Prelude.{◌≡◌, ◌↔◌, ◌⊎◌, true, false, some}
use turf_sync.Schema.{codes}
use turf_sync.Outcome.{ok}
use turf_sync.Auth.{User, Role}
use turf_sync.Turf.Listing.{starts_with}
use turf_sync.Http.Routes.{
  Route, admin_route, auth_route, booking_route, coupon_route, payment_route, review_route,
  slot_route, turf_route, upload_route, health, debug_sentry, AuthRoute, BookingRoute, CouponRoute,
  PaymentRoute, ReviewRoute, TurfRoute, Endpoint, Caller, run_guards,
}

-- What a caller has to be.
pub data Level : Type 0 where
  anyone signed_in in_session administrator : Level

abbrev pub level_of : Route → Level
level_of (admin_route r) = administrator
level_of (auth_route AuthRoute.refresh) = in_session
level_of (auth_route AuthRoute.logout) = signed_in
level_of (auth_route AuthRoute.logout_all) = signed_in
level_of (auth_route AuthRoute.me) = signed_in
level_of (auth_route AuthRoute.update_profile) = signed_in
level_of (auth_route r) = anyone
level_of (booking_route BookingRoute.find_all_bookings) = administrator
level_of (booking_route r) = signed_in
level_of (coupon_route CouponRoute.validate) = signed_in
level_of (coupon_route r) = administrator
level_of (payment_route PaymentRoute.webhook) = anyone
level_of (payment_route r) = signed_in
level_of (review_route ReviewRoute.create_review) = signed_in
level_of (review_route ReviewRoute.turf_reviews) = anyone
level_of (slot_route r) = administrator
level_of (turf_route TurfRoute.find_turfs) = anyone
level_of (turf_route TurfRoute.find_turf) = anyone
level_of (turf_route TurfRoute.turf_slots) = anyone
level_of (turf_route r) = administrator
level_of (upload_route r) = administrator
level_of health = anyone
level_of debug_sentry = anyone

abbrev pub Has : Level → Caller → Type 0
Has anyone who = Unit
Has signed_in who = (u : User) × (who.user ≡ some u)
Has in_session who = who.has_session ≡ true
Has administrator who = (u : User) × (who.user ≡ some u) × (u.role ≡ Role.admin)

abbrev Served : Endpoint → Level → Caller → Type 0
Served e l who =
    ((run_guards e.guards e.roles who ≡ ok tt) ↔ Has l who)
    × ((starts_with (codes "admin/") e.path ≡ false) ⊎ (l ≡ administrator))
