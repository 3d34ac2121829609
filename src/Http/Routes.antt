-- ===== src/Http/Routes.antt =====
-- The routes of the controllers, src/<part>/<part>.controller.ts: method, path behind `api/`, guards of
-- the class and of the handler in the order in which they run, and the roles of `@Roles`, those of the
-- handler before those of the class.
use turf_sync.Prelude.{Bool, Option, none, some, List, [], ◌∷◌, if◌then◌else◌}
use turf_sync.Schema.{Text, codes}
use turf_sync.Outcome.{unauthorized, forbidden, Reason, Result, ok, err, ◌>>◌}
use turf_sync.Auth.{User, Role}
use turf_sync.Auth.Guard.{can_activate}

pub data Method : Type 0 where
  get post put patch delete : Method

pub data GuardName : Type 0 where
  jwt_auth_guard jwt_refresh_guard roles_guard : GuardName

pub record Endpoint : Type 0 where
  pub method : Method
  pub path : Text
  pub guards : List GuardName
  pub roles : Option (List Role)

abbrev pub endpoint : Method → Text → List GuardName → Option (List Role) → Endpoint
endpoint method path guards roles = record {
  method = method;
  path = path;
  guards = guards;
  roles = roles;
}

abbrev pub admins : Option (List Role)
admins = some (Role.admin ∷ [])

-- `@UseGuards(JwtAuthGuard, RolesGuard)` and `@Roles(Role.ADMIN)`
abbrev pub admin_only : Method → Text → Endpoint
admin_only method path = endpoint method path (jwt_auth_guard ∷ roles_guard ∷ []) admins

-- `@UseGuards(JwtAuthGuard)`
abbrev pub with_token : Method → Text → Endpoint
with_token method path = endpoint method path (jwt_auth_guard ∷ []) none

abbrev pub without_guard : Method → Text → Endpoint
without_guard method path = endpoint method path [] none

pub data AdminRoute : Type 0 where
  dashboard revenue users toggle_status promote demote bookings complete turf_analytics
        payment_report audit_logs :
      AdminRoute

unfoldable pub admin_endpoint : AdminRoute → Endpoint
admin_endpoint dashboard = admin_only get (codes "admin/dashboard")
admin_endpoint revenue = admin_only get (codes "admin/analytics/revenue")
admin_endpoint users = admin_only get (codes "admin/users")
admin_endpoint toggle_status = admin_only patch (codes "admin/users/:userId/toggle-status")
admin_endpoint promote = admin_only post (codes "admin/users/:userId/promote")
admin_endpoint demote = admin_only post (codes "admin/users/:userId/demote")
admin_endpoint bookings = admin_only get (codes "admin/bookings")
admin_endpoint complete = admin_only patch (codes "admin/bookings/:bookingId/complete")
admin_endpoint turf_analytics = admin_only get (codes "admin/turfs/:turfId/analytics")
admin_endpoint payment_report = admin_only get (codes "admin/payments/report")
admin_endpoint audit_logs = admin_only get (codes "admin/audit-logs")

pub data AuthRoute : Type 0 where
  register login refresh logout logout_all me update_profile verify_email forgot_password
        reset_password :
      AuthRoute

unfoldable pub auth_endpoint : AuthRoute → Endpoint
auth_endpoint register = without_guard post (codes "auth/register")
auth_endpoint login = without_guard post (codes "auth/login")
auth_endpoint refresh = endpoint post (codes "auth/refresh") (jwt_refresh_guard ∷ []) none
auth_endpoint logout = with_token post (codes "auth/logout")
auth_endpoint logout_all = with_token post (codes "auth/logout-all")
auth_endpoint me = with_token get (codes "auth/me")
auth_endpoint update_profile = with_token put (codes "auth/update-profile")
auth_endpoint verify_email = without_guard post (codes "auth/verify-email")
auth_endpoint forgot_password = without_guard post (codes "auth/forgot-password")
auth_endpoint reset_password = without_guard post (codes "auth/reset-password")

pub data BookingRoute : Type 0 where
  book find_my find_booking cancel find_all_bookings : BookingRoute

-- `findOne` has roles but no RolesGuard.
unfoldable pub booking_endpoint : BookingRoute → Endpoint
booking_endpoint book = with_token post (codes "bookings")
booking_endpoint find_my = with_token get (codes "bookings/my")
booking_endpoint find_booking =
    endpoint get (codes "bookings/:id") (jwt_auth_guard ∷ []) (some (Role.admin ∷ Role.user ∷ []))
booking_endpoint cancel = with_token patch (codes "bookings/:id/cancel")
booking_endpoint find_all_bookings = admin_only get (codes "bookings/admin/all")

pub data CouponRoute : Type 0 where
  validate create_coupon find_coupons find_coupon update_coupon toggle_active delete_coupon :
      CouponRoute

unfoldable pub coupon_endpoint : CouponRoute → Endpoint
coupon_endpoint validate = with_token post (codes "coupons/validate")
coupon_endpoint create_coupon = admin_only post (codes "coupons")
coupon_endpoint find_coupons = admin_only get (codes "coupons")
coupon_endpoint find_coupon = admin_only get (codes "coupons/:id")
coupon_endpoint update_coupon = admin_only patch (codes "coupons/:id")
coupon_endpoint toggle_active = admin_only patch (codes "coupons/:id/toggle-active")
coupon_endpoint delete_coupon = admin_only delete (codes "coupons/:id")

pub data PaymentRoute : Type 0 where
  create_intent get_status refund webhook : PaymentRoute

unfoldable pub payment_endpoint : PaymentRoute → Endpoint
payment_endpoint create_intent = with_token post (codes "payment/create-payment-intent")
payment_endpoint get_status = with_token post (codes "payment/booking/:bookingId")
payment_endpoint refund = with_token post (codes "payment/refund/:bookingId")
payment_endpoint webhook = without_guard post (codes "payment/webhook")

pub data ReviewRoute : Type 0 where
  create_review turf_reviews : ReviewRoute

unfoldable pub review_endpoint : ReviewRoute → Endpoint
review_endpoint create_review = with_token post (codes "review")
review_endpoint turf_reviews = without_guard get (codes "review/turf/:turfId")

pub data SlotRoute : Type 0 where
  generate_all generate_for_turf cleanup_slots : SlotRoute

unfoldable pub slot_endpoint : SlotRoute → Endpoint
slot_endpoint generate_all = admin_only post (codes "admin/slots/generate")
slot_endpoint generate_for_turf = admin_only post (codes "admin/slots/generate/turf/:turfId")
slot_endpoint cleanup_slots = admin_only post (codes "admin/slots/cleanup")

pub data TurfRoute : Type 0 where
  find_turfs find_turf turf_slots create_turf update_turf remove_turf : TurfRoute

unfoldable pub turf_endpoint : TurfRoute → Endpoint
turf_endpoint find_turfs = without_guard get (codes "turfs")
turf_endpoint find_turf = without_guard get (codes "turfs/:id")
turf_endpoint turf_slots = without_guard get (codes "turfs/:id/slots")
turf_endpoint create_turf = admin_only post (codes "turfs")
turf_endpoint update_turf = admin_only patch (codes "turfs/:id")
turf_endpoint remove_turf = admin_only delete (codes "turfs/:id")

pub data UploadRoute : Type 0 where
  upload_image delete_image : UploadRoute

unfoldable pub upload_endpoint : UploadRoute → Endpoint
upload_endpoint upload_image = admin_only post (codes "admin/upload/turf/:turfId/image")
upload_endpoint delete_image = admin_only delete (codes "admin/upload/turf/:turfId/image")

-- Every route of the server.
pub data Route : Type 0 where
  admin_route : AdminRoute → Route
  auth_route : AuthRoute → Route
  booking_route : BookingRoute → Route
  coupon_route : CouponRoute → Route
  payment_route : PaymentRoute → Route
  review_route : ReviewRoute → Route
  slot_route : SlotRoute → Route
  turf_route : TurfRoute → Route
  upload_route : UploadRoute → Route
  health debug_sentry : Route

unfoldable pub endpoint_of : Route → Endpoint
unfolding admin_endpoint auth_endpoint booking_endpoint coupon_endpoint payment_endpoint
    review_endpoint slot_endpoint turf_endpoint upload_endpoint
endpoint_of (admin_route r) = admin_endpoint r
endpoint_of (auth_route r) = auth_endpoint r
endpoint_of (booking_route r) = booking_endpoint r
endpoint_of (coupon_route r) = coupon_endpoint r
endpoint_of (payment_route r) = payment_endpoint r
endpoint_of (review_route r) = review_endpoint r
endpoint_of (slot_route r) = slot_endpoint r
endpoint_of (turf_route r) = turf_endpoint r
endpoint_of (upload_route r) = upload_endpoint r
endpoint_of health = without_guard get (codes "health")
endpoint_of debug_sentry = without_guard get (codes "debug-sentry")

-- Who calls: the user that JwtStrategy finds for the access token, and whether JwtRefreshStrategy
-- accepts the refresh token.
pub record Caller : Type 0 where
  pub user : Option User
  pub has_session : Bool

-- One guard; NestJS answers a RolesGuard that returns false with a ForbiddenException.
unfoldable pub run_guard : GuardName → Option (List Role) → Caller → Result (Unit {0})
unfolding can_activate
run_guard jwt_auth_guard roles who = elim who.user [
  | none ↦ err (unauthorized Reason.user_not_found)
  | some u ↦ ok tt
]
run_guard jwt_refresh_guard roles who =
    if who.has_session then ok tt else err (unauthorized Reason.invalid_refresh_token)
run_guard roles_guard roles who =
    if can_activate roles who.user then ok tt else err (forbidden Reason.forbidden_resource)

unfoldable pub run_guards : List GuardName → Option (List Role) → Caller → Result (Unit {0})
unfolding run_guard
run_guards [] roles who = ok tt
run_guards (g ∷ gs) roles who = run_guard g roles who >> run_guards gs roles who

-- Whether a request gets to the handler.
unfoldable pub admit : Route → Caller → Result (Unit {0})
unfolding run_guards endpoint_of
admit r who = run_guards (endpoint_of r).guards (endpoint_of r).roles who
