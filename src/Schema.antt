-- ===== src/Schema.antt =====
-- prisma/schema.prisma: the models that the services read and write, as the tables of one
-- database, with the unique indexes and foreign keys that the migrations create.
-- Identifiers are UUID strings that the code only compares, so they are numbers. A date is its
-- number of milliseconds since 1970 in UTC. An amount of money is in millionths of the currency
-- unit, so that a percentage of an amount in cents is exact.
use Prim.Native.Char.{code}
use turf_sync.Prelude.{ℕ, Bool, true, false, Option, List, [], ◌∷◌, String}

-- A time of day as the text of its characters, "18:00".
abbrev pub Text : Type 0
Text = List ℕ

-- A text that the source spells out.
abbrev pub codes : String → Text
codes String.[] = []
codes (String.◌∷◌ c s) = code c ∷ codes s

pub data PaymentStatus : Type 0 where
  initiated processing paid failed refunded : PaymentStatus

pub data BookingStatus : Type 0 where
  pending confirmed cancelled completed : BookingStatus

pub data DiscountType : Type 0 where
  percentage fixed : DiscountType

pub data SportType : Type 0 where
  football cricket both : SportType

-- The mean of `count` numbers with the sum `sum`; of no numbers, 0.
pub record Mean : Type 0 where
  pub sum : ℕ
  pub count : ℕ

pub record Turf : Type 0 where
  pub id : ℕ
  pub name : Text
  pub city : Text
  pub sport_type : SportType
  pub rating : Mean
  pub price_per_hour : ℕ
  pub open_time : Text
  pub close_time : Text
  pub images : List Text
  pub is_active : Bool

pub record Slot : Type 0 where
  pub id : ℕ
  pub turf_id : ℕ
  pub date : ℕ
  pub start_time : Text
  pub end_time : Text
  pub is_booked : Bool

pub record Booking : Type 0 where
  pub id : ℕ
  pub user_id : ℕ
  pub turf_id : ℕ
  pub slot_id : ℕ
  pub total_amount : ℕ
  pub status : BookingStatus
  pub notes : Option String
  pub created_at : ℕ

pub record Payment : Type 0 where
  pub id : ℕ
  pub booking_id : ℕ
  pub amount : ℕ
  pub currency : String
  pub status : PaymentStatus
  pub stripe_payment_intent_id : ℕ
  pub stripe_client_secret : Option ℕ
  pub stripe_charge_id : Option ℕ
  pub paid_at : Option ℕ
  pub failure_reason : Option String
  pub created_at : ℕ

pub record WebhookEvent : Type 0 where
  pub id : ℕ

pub record Coupon : Type 0 where
  pub id : ℕ
  pub code : Text
  pub discount_type : DiscountType
  pub discount_value : ℕ
  pub min_order_amount : ℕ
  pub max_discount_amount : ℕ
  pub usage_limit : Option ℕ
  pub used_count : ℕ
  pub user_usage_limit : ℕ
  pub valid_from : ℕ
  pub valid_until : ℕ
  pub is_active : Bool

pub record CouponUsage : Type 0 where
  pub coupon_id : ℕ
  pub user_id : ℕ
  pub booking_id : ℕ
  pub discount : ℕ

pub record Review : Type 0 where
  pub id : ℕ
  pub user_id : ℕ
  pub turf_id : ℕ
  pub booking_id : ℕ
  pub rating : ℕ
  pub comment : Option String
  pub created_at : ℕ

pub record Db : Type 0 where
  pub turfs : List Turf
  pub slots : List Slot
  pub bookings : List Booking
  pub payments : List Payment
  pub webhook_events : List WebhookEvent
  pub coupons : List Coupon
  pub coupon_usages : List CouponUsage
  pub reviews : List Review

abbrev pub empty_db : Db
empty_db = record {
  turfs = [];
  slots = [];
  bookings = [];
  payments = [];
  webhook_events = [];
  coupons = [];
  coupon_usages = [];
  reviews = [];
}

-- `status: { in: [PENDING, CONFIRMED] }`
abbrev pub is_active_status : BookingStatus → Bool
is_active_status BookingStatus.pending = true
is_active_status BookingStatus.confirmed = true
is_active_status BookingStatus.cancelled = false
is_active_status BookingStatus.completed = false

abbrev pub is_cancelled : BookingStatus → Bool
is_cancelled BookingStatus.cancelled = true
is_cancelled _ = false

abbrev pub is_pending : BookingStatus → Bool
is_pending BookingStatus.pending = true
is_pending _ = false

abbrev pub is_confirmed : BookingStatus → Bool
is_confirmed BookingStatus.confirmed = true
is_confirmed _ = false

abbrev pub is_paid : PaymentStatus → Bool
is_paid PaymentStatus.paid = true
is_paid _ = false

abbrev pub is_initiated : PaymentStatus → Bool
is_initiated PaymentStatus.initiated = true
is_initiated _ = false
