-- ===== src/Http.antt =====
-- The HTTP layer: src/common/filters/http-exception.filter.ts and prisma-exception.filter.ts, which
-- turn what a handler throws into an answer, and src/common/middleware/request-id.middleware.ts.
-- Http.Pipes is src/common/pipes/parse-uuid.pipe.ts, Http.Envelope
-- src/common/interceptors/response.interceptor.ts. The log lines and the time stamps are left out.
pub mod Filters
pub mod Refusals
pub mod Pipes
pub mod Uuid
pub mod Envelope
pub mod Routes
pub mod Access
use turf_sync.Prelude.{
  ℕ, Bool, true, false, Option, none, some, List, [], ◌∷◌, ◌++◌, leb, if◌then◌else◌,
}
use turf_sync.Schema.{Text, codes}
use turf_sync.TimeText.{text_eq}
use turf_sync.Outcome.{
  PrismaCode, unique_violation, record_not_found, foreign_key_violation, value_out_of_range,
  transaction_error, Exception, Reason,
}

-- The field `message` of what `getResponse` returns.
pub data Detail : Type 0 where
  text : Text → Detail
  many : List Text → Detail

-- What `getResponse` returns.
pub data ExceptionResponse : Type 0 where
  fields : Option Detail → ExceptionResponse
  plain : Text → ExceptionResponse

-- PrismaClientKnownRequestError, with the fields of `meta`; an empty one stands for one that is not there.
pub record PrismaError : Type 0 where
  pub code : Text
  pub target : List Text
  pub cause : Text
  pub field_name : Text

-- What a handler throws: a status and a response, an error of Prisma, or anything else.
pub data Thrown : Type 0 where
  http_exception : ℕ → ExceptionResponse → Thrown
  prisma_error : PrismaError → Thrown
  other_error : Thrown

-- What the filters read of a request: the `requestId` that the middleware set, and the URL.
pub record RequestInfo : Type 0 where
  pub request_id : Text
  pub url : Text

pub record ErrorBody : Type 0 where
  pub success : Bool
  pub status_code : ℕ
  pub message : Text
  pub errors : Option (List Text)
  pub request_id : Text
  pub path : Text

-- The answer, and whether Sentry is told.
pub record ErrorAnswer : Type 0 where
  pub status : ℕ
  pub body : ErrorBody
  pub captured : Bool

-- `RequestIdMiddleware.use`: the header, where there is one that is not empty, or a new UUID
unfoldable pub request_id_of : Option Text → Text → Text
request_id_of none new = new
request_id_of (some []) new = new
request_id_of (some (c ∷ cs)) new = c ∷ cs

abbrev pub error_answer : ℕ → Text → Option (List Text) → RequestInfo → ErrorAnswer
error_answer status message errors req = record {
  status = status;
  body = record {
    success = false;
    status_code = status;
    message = message;
    errors = errors;
    request_id = req.request_id;
    path = req.url;
  };
  captured = leb 500 status;
}

-- `message` and `errors` of GlobalExceptionFilter
unfoldable pub message_of : ExceptionResponse → Text × Option (List Text)
message_of (fields none) = (codes "Internal server error", none)
message_of (fields (some (text []))) = (codes "Internal server error", none)
message_of (fields (some (text (c ∷ cs)))) = (c ∷ cs, none)
message_of (fields (some (many messages))) = (codes "Validation failed", some messages)
message_of (plain message) = (message, none)

-- `GlobalExceptionFilter.catch`
unfoldable pub global_filter : Thrown → RequestInfo → ErrorAnswer
unfolding message_of
global_filter (http_exception status response) req =
    error_answer status (message_of response).0 (message_of response).1 req
global_filter _ req = error_answer 500 (codes "Internal server error") none req

-- `value || fallback`
abbrev pub or_text : Text → Text → Text
or_text [] fallback = fallback
or_text (c ∷ cs) fallback = c ∷ cs

-- `target.join(', ')`
unfoldable pub join_comma : List Text → Text
join_comma [] = []
join_comma (t ∷ []) = t
join_comma (t ∷ u ∷ ts) = t ++ (codes ", " ++ join_comma (u ∷ ts))

-- The `switch` of PrismaExceptionFilter.
unfoldable pub prisma_status : PrismaError → ℕ × Text
unfolding join_comma text_eq
prisma_status e =
    if text_eq e.code (codes "P2002")
    then (409, codes "Unique constraint failed on field: " ++ join_comma e.target)
    else if text_eq e.code (codes "P2025")
    then (404, or_text e.cause (codes "Record not found"))
    else if text_eq e.code (codes "P2003")
    then (
      400,
      codes "Foreign key constraint failed on field: " ++ or_text e.field_name (codes "unknown"),
    )
    else (500, codes "Internal database server error")

-- `PrismaExceptionFilter.catch`
unfoldable pub prisma_filter : PrismaError → RequestInfo → ErrorAnswer
unfolding prisma_status
prisma_filter e req = error_answer (prisma_status e).0 (prisma_status e).1 none req

-- `useGlobalFilters`: the filter that is given last is asked first.
unfoldable pub answer_error : Thrown → RequestInfo → ErrorAnswer
unfolding global_filter prisma_filter
answer_error (http_exception status response) req =
    global_filter (http_exception status response) req
answer_error (prisma_error e) req = prisma_filter e req
answer_error other_error req = global_filter other_error req

-- The code of an error that the services' queries meet.
abbrev pub code_text : PrismaCode → Text
code_text unique_violation = codes "P2002"
code_text record_not_found = codes "P2025"
code_text foreign_key_violation = codes "P2003"
code_text value_out_of_range = codes "P2020"
code_text transaction_error = codes "P2028"

module _ (words : Reason → Text) where
  -- An exception class of NestJS with its message: its status, and a response with that message.
  abbrev pub http_of : ℕ → Reason → Thrown
  http_of status reason = http_exception status (fields (some (text (words reason))))

  -- What the exceptions of the services are to the filters.
  unfoldable pub thrown_of : Exception → Thrown
  thrown_of (Exception.bad_request r) = http_of 400 r
  thrown_of (Exception.unauthorized r) = http_of 401 r
  thrown_of (Exception.forbidden r) = http_of 403 r
  thrown_of (Exception.not_found r) = http_of 404 r
  thrown_of (Exception.conflict r) = http_of 409 r
  thrown_of (Exception.internal_server_error r) = http_of 500 r
  thrown_of (Exception.known_request_error code) =
      prisma_error (record { code = code_text code; target = []; cause = []; field_name = [] })
  thrown_of Exception.client_error = other_error
  thrown_of Exception.type_error = other_error

  -- The answer to a request whose handler throws, its header `X-Request-Id` included.
  unfoldable pub answer_exception : Option Text → Text → Text → Exception → ErrorAnswer
  unfolding thrown_of answer_error request_id_of
  answer_exception header new url e =
      answer_error (thrown_of e) (record { request_id = request_id_of header new; url = url })
