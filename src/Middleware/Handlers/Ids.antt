-- ===== src/Middleware/Handlers/Ids.antt =====
-- mycppwebfw/src/middleware/request_id.cpp: the identifier that a response carries.
use gin_cpp.Base.{
  ℕ, ◌≡◌, refl, ap, ◌≢◌, inl, inr, false, List, [], ◌∷◌, ◌++◌, Bool-cases, is_empty, All, Text,
  codes,
}
use gin_cpp.Http.Request.{Header, get_header}
use gin_cpp.Middleware.Script.{tail_call}
use gin_cpp.Middleware.Exchange.{Exchange}
use gin_cpp.Middleware.Handlers.{request_id_of, request_id_handler}
use gin_cpp.Http.Parser.{iscntrl}
use gin_cpp.Http.Parser.Clean.{IsClean, IsCleanHeader}
use gin_cpp.Http.Request.Lookup.{get_header-All}

-- A text with no control byte, so with no end of a line.
abbrev pub IsPrintable : Text → Type 0
IsPrintable = All (λ c. iscntrl c ≡ false)

clean_values : (hs : List Header) → All IsCleanHeader hs → All (λ h. IsPrintable h.value) hs
clean_values [] h = tt
clean_values (x ∷ hs) h = (h.0.1, clean_values hs h.1)

request_id_of-IsPrintable :
    (ids : ℕ → Text) (x : Exchange)
    → IsClean x.request
    → ((n : ℕ) → IsPrintable (ids n))
    → IsPrintable (request_id_of ids x).current_request_id
request_id_of-IsPrintable ids x c h =
    elim (Bool-cases (is_empty (get_header x.request (codes "X-Request-ID")))) [
      | inl e ↦ rw e (h x.drawn)
      | inr e ↦ rw e (
          get_header-All IsPrintable x.request (codes "X-Request-ID")
            (clean_values x.request.headers c.fields) tt)
    ]

is_empty_of_ne : (t : Text) → t ≢ [] → is_empty t ≡ false
is_empty_of_ne [] h = absurd (h refl)
is_empty_of_ne (c ∷ t) h = refl

request_id_of_kept :
    (ids : ℕ → Text) (x : Exchange)
    → ((request_id_of ids x).request ≡ x.request) × ((request_id_of ids x).response ≡ x.response)
request_id_of_kept ids x =
    elim (Bool-cases (is_empty (get_header x.request (codes "X-Request-ID")))) [
      | inl e ↦ rw e (refl, refl)
      | inr e ↦ rw e (refl, refl)
    ]

-- For a request that the parser has left, and generated identifiers without control bytes: the middleware
-- calls the next handler once, with the request as it was and one header more on the response,
-- X-Request-ID; its value is the request's X-Request-ID header, or the next generated identifier if that
-- is missing or empty, and holds no control byte, so it cannot end the header line.
pub request_id_handler_lem :
    (ids : ℕ → Text) (x : Exchange)
    → IsClean x.request
    → ((n : ℕ) → IsPrintable (ids n))
    → (y : Exchange) × (value : Text) × (request_id_handler ids x ≡ tail_call y)
      × (y.request ≡ x.request)
      × (y.response.headers
          ≡ x.response.headers ++ record { name = codes "X-Request-ID"; value = value } ∷ [])
      × (get_header x.request (codes "X-Request-ID") ≢ []
          → value ≡ get_header x.request (codes "X-Request-ID"))
      × (get_header x.request (codes "X-Request-ID") ≡ [] → value ≡ ids x.drawn)
      × IsPrintable value
unfolding request_id_handler
request_id_handler_lem ids x c h =
    let (same_request, same_response) = request_id_of_kept ids x in
    (
      _,
      (request_id_of ids x).current_request_id,
      refl,
      same_request,
      ap (λ r. r.headers ++ id_header) same_response,
      (λ ne. let e = is_empty_of_ne _ ne in rw e refl),
      (λ empty. rw empty refl),
      request_id_of-IsPrintable ids x c h,
    )
  where
    id_header : List Header
    id_header =
        record { name = codes "X-Request-ID"; value = (request_id_of ids x).current_request_id }
        ∷ []
