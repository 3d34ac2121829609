-- ===== src/Http/Filters.antt =====
-- src/common/filters: what the answers of the two exception filters have in common.
use turf_sync.Prelude.{
  ℕ, ◌≡◌, ◌↔◌, ◌⊎◌, ◌≤◌, ◌<◌, refl, ap, inl, inr, arith, true, false, Option, none, Bool-cases,
}
use turf_sync.Schema.{Text, codes}
use turf_sync.TimeText.{text_eq, text_eq→eq}
use turf_sync.Outcome.{
  Exception, Reason, unique_violation, record_not_found, foreign_key_violation, value_out_of_range,
  transaction_error,
}
use turf_sync.Http.{
  request_id_of, error_answer, Thrown, http_exception, prisma_error, other_error, PrismaError,
  RequestInfo, prisma_status, answer_error, answer_exception, thrown_of,
}

-- The status of an exception of the services.
abbrev pub status_of : Exception → ℕ
status_of (Exception.bad_request r) = 400
status_of (Exception.unauthorized r) = 401
status_of (Exception.forbidden r) = 403
status_of (Exception.not_found r) = 404
status_of (Exception.conflict r) = 409
status_of (Exception.internal_server_error r) = 500
status_of (Exception.known_request_error unique_violation) = 409
status_of (Exception.known_request_error record_not_found) = 404
status_of (Exception.known_request_error foreign_key_violation) = 400
status_of (Exception.known_request_error value_out_of_range) = 500
status_of (Exception.known_request_error transaction_error) = 500
status_of Exception.client_error = 500
status_of Exception.type_error = 500

pub status-answer_exception :
    (words : Reason → Text) (header : Option Text) (new url : Text) (e : Exception)
    → (answer_exception words header new url e).status ≡ status_of e
unfolding answer_exception
status-answer_exception words header new url (Exception.bad_request r) = refl
status-answer_exception words header new url (Exception.unauthorized r) = refl
status-answer_exception words header new url (Exception.forbidden r) = refl
status-answer_exception words header new url (Exception.not_found r) = refl
status-answer_exception words header new url (Exception.conflict r) = refl
status-answer_exception words header new url (Exception.internal_server_error r) = refl
status-answer_exception words header new url (Exception.known_request_error unique_violation) = refl
status-answer_exception words header new url (Exception.known_request_error record_not_found) = refl
status-answer_exception words header new url (Exception.known_request_error foreign_key_violation) =
    refl
status-answer_exception words header new url (Exception.known_request_error value_out_of_range) =
    refl
status-answer_exception words header new url (Exception.known_request_error transaction_error) =
    refl
status-answer_exception words header new url Exception.client_error = refl
status-answer_exception words header new url Exception.type_error = refl

error_answer_lem :
    (t : Thrown) (req : RequestInfo)
    → (((answer_error t req).captured ≡ true) ↔ (500 ≤ (answer_error t req).status))
      × ((answer_error t req).body.status_code ≡ (answer_error t req).status)
      × ((answer_error t req).body.success ≡ false)
      × ((answer_error t req).body.request_id ≡ req.request_id)
      × ((answer_error t req).body.path ≡ req.url)
unfolding answer_error
error_answer_lem (http_exception status response) req = (ground arith, refl, refl, refl, refl)
error_answer_lem (prisma_error e) req = (ground arith, refl, refl, refl, refl)
error_answer_lem other_error req = (ground arith, refl, refl, refl, refl)

prisma_status-cases :
    (e : PrismaError)
    → (((prisma_status e).0 ≡ 409) × (e.code ≡ codes "P2002"))
      ⊎ ((((prisma_status e).0 ≡ 404) × (e.code ≡ codes "P2025"))
          ⊎ ((((prisma_status e).0 ≡ 400) × (e.code ≡ codes "P2003"))
              ⊎ (prisma_status e ≡ (500, codes "Internal database server error"))))
unfolding prisma_status
prisma_status-cases e = elim (Bool-cases (text_eq e.code (codes "P2002"))) [
  | inl unique ↦ rw unique (inl (refl, text_eq→eq e.code (codes "P2002") unique))
  | inr f ↦ elim (Bool-cases (text_eq e.code (codes "P2025"))) [
    | inl missing ↦ rw (f, missing) (inr (inl (refl, text_eq→eq e.code (codes "P2025") missing)))
    | inr g ↦ elim (Bool-cases (text_eq e.code (codes "P2003"))) [
      | inl foreign ↦
          rw (f, g, foreign) (inr (inr (inl (refl, text_eq→eq e.code (codes "P2003") foreign))))
      | inr h ↦ rw (f, g, h) (inr (inr (inr refl)))
    ]
  ]
]

-- Whatever a handler throws, the body says that it failed and repeats the status, the request's id
-- and its path, and Sentry is told exactly of the answers from 500 on. Of the errors of Prisma, P2002
-- is answered with 409, P2025 with 404, P2003 with 400, and any other with 500 and one message, whatever
-- else the error holds.
answer_error_lem :
    (t : Thrown) (e : PrismaError) (req : RequestInfo)
    → (((answer_error t req).captured ≡ true) ↔ (500 ≤ (answer_error t req).status))
      × ((answer_error t req).body.status_code ≡ (answer_error t req).status)
      × ((answer_error t req).body.success ≡ false)
      × ((answer_error t req).body.request_id ≡ req.request_id)
      × ((answer_error t req).body.path ≡ req.url)
      × ((((answer_error (prisma_error e) req).status ≡ 409) × (e.code ≡ codes "P2002"))
          ⊎ ((((answer_error (prisma_error e) req).status ≡ 404) × (e.code ≡ codes "P2025"))
              ⊎ ((((answer_error (prisma_error e) req).status ≡ 400) × (e.code ≡ codes "P2003"))
                  ⊎ (answer_error (prisma_error e) req
                      ≡ error_answer 500 (codes "Internal database server error") none req))))
unfolding answer_error
answer_error_lem t e req = let (a, b, c, d, f) = error_answer_lem t req in (a, b, c, d, f, cases)
  where
    cases :
        (((answer_error (prisma_error e) req).status ≡ 409) × (e.code ≡ codes "P2002"))
        ⊎ ((((answer_error (prisma_error e) req).status ≡ 404) × (e.code ≡ codes "P2025"))
            ⊎ ((((answer_error (prisma_error e) req).status ≡ 400) × (e.code ≡ codes "P2003"))
                ⊎ (answer_error (prisma_error e) req
                    ≡ error_answer 500 (codes "Internal database server error") none req)))
    cases = elim (prisma_status-cases e) [
      | inl u ↦ inl u
      | inr (inl m) ↦ inr (inl m)
      | inr (inr (inl k)) ↦ inr (inr (inl k))
      | inr (inr (inr g)) ↦ inr (inr (inr (ap (λ r. error_answer r.0 r.1 none req) g)))
    ]

status_of-lower : (e : Exception) → 400 ≤ status_of e
status_of-lower e = ground arith

pub answer_exception-lower :
    (words : Reason → Text) (header : Option Text) (new url : Text) (e : Exception)
    → 400 ≤ (answer_exception words header new url e).status
answer_exception-lower words header new url e =
    let same = status-answer_exception words header new url e in
    let low = status_of-lower e in omega arith

-- An exception whose status is below 500 is answered with it, and Sentry is not told.
pub answer_exception-refusal :
    (words : Reason → Text) (header : Option Text) (new url : Text) (e : Exception)
    → status_of e < 500
    → (400 ≤ (answer_exception words header new url e).status)
      × ((answer_exception words header new url e).status < 500)
      × ((answer_exception words header new url e).captured ≡ false)
unfolding answer_exception
answer_exception-refusal words header new url e k =
    let same = status-answer_exception words header new url e in
    let low = status_of-lower e in
    let ((to, _), _, _, _, _) =
      error_answer_lem (thrown_of words e)
        (record { request_id = request_id_of header new; url = url }) in
    let untold : (answer_exception words header new url e).captured ≡ false =
      elim (Bool-cases (answer_exception words header new url e).captured) [
        | inl told ↦ absurd (let large = to told in omega arith)
        | inr f ↦ f
      ] in
    (omega arith, omega arith, untold)
