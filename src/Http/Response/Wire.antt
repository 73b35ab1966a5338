-- ===== src/Http/Response/Wire.antt =====
-- What a response puts on the wire, read back by an independent reader of response heads.
use gin_cpp.Base.{
  ℕ, zero, suc, ◌+◌, ◌≡◌, refl, sym, ◌≢◌, Option, none, some, List, [], ◌∷◌, ◌++◌, arith, ◌==◌,
  if◌then◌else◌, length, take, drop, All, Text, codes, drop_two_length_append, Free-append, find,
  Free, find-append, take-length_append,
}
use mathlib.Core.List.{append-nil, append_assoc}
use gin_cpp.Base.Decimal.{read_from}
use gin_cpp.Http.Request.{Header}
use gin_cpp.Http.Response.{
  StatusCode, to_int, Response, crlf, to_buffer, header_buffers, to_buffers, ok, created, accepted,
  no_content, multiple_choices, moved_permanently, moved_temporarily, not_modified, bad_request,
  unauthorized, forbidden, not_found, internal_server_error, not_implemented, bad_gateway,
  service_unavailable,
}

-- async_write sends the buffers one after the other.
unfoldable pub concat : List Text → Text
concat [] = []
concat (b ∷ bs) = b ++ concat bs

-- The reader's line: the bytes before the first carriage return, and those behind the line feed.
unfoldable pub line_of : Text → Text × Text
line_of [] = ([], [])
line_of (c ∷ s) = if c == 13 then ([], drop 1 s) else (c ∷ (line_of s).0, (line_of s).1)

-- A header line cut at its first colon; the byte behind the colon is the separator's space.
abbrev header_of : Text → Option ℕ → Option Header
header_of l none = none
header_of l (some i) = some (record { name = take i l; value = drop (i + 2) l })

pub record Head : Type 0 where
  pub code : ℕ
  pub fields : List Header
  pub rest : Text

-- Reads header lines up to the empty line, on fuel that bounds their number.
unfoldable pub read_fields : ℕ → Text → Option (List Header × Text)
read_fields zero s = none
read_fields (suc fuel) s = elim (line_of s).0 [
  | [] ↦ some ([], (line_of s).1)
  | c ∷ l ↦ elim (header_of (c ∷ l) (find (c ∷ l) b':')) [
    | none ↦ none
    | some h ↦ elim (read_fields fuel (line_of s).1) [
      | none ↦ none
      | some (hs, rest) ↦ some (h ∷ hs, rest)
    ]
  ]
]

-- The code stands in the three bytes behind "HTTP/1.0 ".
unfoldable pub read_head : ℕ → Text → Option Head
read_head fuel s = elim (read_fields fuel (line_of s).1) [
  | none ↦ none
  | some (hs, rest) ↦
      some (record { code = read_from 0 (take 3 (drop 9 (line_of s).0)); fields = hs; rest = rest })
]

-- A header that takes one line: a name that is not empty and has no colon, and no carriage return.
abbrev pub IsLine : Header → Type 0
IsLine h = (h.name ≢ []) × Free b':' h.name × Free 13 h.name × Free 13 h.value

line_of-append : (s t : Text) → Free 13 s → line_of (s ++ 13 ∷ 10 ∷ t) ≡ (s, t)
unfolding line_of
line_of-append [] t h = refl
line_of-append (c ∷ s) t h = ground (arith, line_of-append s t h.1)

concat-header_buffers :
    (h : Header) (hs : List Header) (bs : List Text)
    → concat (header_buffers (h ∷ hs) ++ bs)
      ≡ (h.name ++ b':' ∷ b' ' ∷ h.value) ++ 13 ∷ 10 ∷ concat (header_buffers hs ++ bs)
unfolding concat header_buffers
concat-header_buffers h hs bs = sym (append_assoc h.name (b':' ∷ b' ' ∷ h.value) _)

header_of_lem :
    (n v : Text)
    → Free b':' n
    → header_of (n ++ b':' ∷ b' ' ∷ v) (find (n ++ b':' ∷ b' ' ∷ v) b':')
      ≡ some (record { name = n; value = v })
header_of_lem n v h =
    rw (find-append n (b' ' ∷ v) b':' h)
      (rw (take-length_append n (b':' ∷ b' ' ∷ v), drop_two_length_append n v b':' b' ') refl)

-- One header line, read off a line with at least one byte.
read_fields_line :
    (fuel : ℕ) (l t : Text) (h : Header) {hs : List Header} {rest : Text}
    → l ≢ []
    → Free 13 l
    → header_of l (find l b':') ≡ some h
    → read_fields fuel t ≡ some (hs, rest)
    → read_fields (suc fuel) (l ++ 13 ∷ 10 ∷ t) ≡ some (h ∷ hs, rest)
unfolding read_fields
read_fields_line fuel [] t h ne f e r = absurd (ne refl)
read_fields_line fuel (c ∷ l) t h ne f e r =
    rw (line_of-append (c ∷ l) t f, read_fields)
      (rw e (rw (line_of-append (c ∷ l) t f) (rw r refl)))

append-ne-nil : (s t : Text) → s ≢ [] → s ++ t ≢ []
append-ne-nil [] t h e = h refl
append-ne-nil (a ∷ s) t h e = cc

empty_line : (t : Text) → read_fields 1 (crlf ++ t) ≡ some ([], t)
unfolding read_fields line_of
empty_line t = refl

read_fields-header_buffers :
    (hs : List Header) (content : Text)
    → All IsLine hs
    → read_fields (suc (length hs)) (concat (header_buffers hs ++ crlf ∷ content ∷ []))
      ≡ some (hs, content)
unfolding header_buffers concat
read_fields-header_buffers [] content h = rw (append-nil content) (empty_line content)
read_fields-header_buffers (x ∷ hs) content ((ne, colon, fn, fv), h) =
    rw (concat-header_buffers x hs (crlf ∷ content ∷ [])) (
      read_fields_line (suc (length hs)) _ _ x (append-ne-nil x.name _ ne)
        (Free-append 13 x.name _ fn (omega arith, (omega arith, fv)))
        (header_of_lem x.name x.value colon) (read_fields-header_buffers hs content h))

-- A status line of the code: three digits behind "HTTP/1.0 ".
to_buffer_line :
    (status : StatusCode)
    → (l : Text) × (to_buffer status ≡ l ++ crlf)
      × Free 13 l
      × (read_from 0 (take 3 (drop 9 l)) ≡ to_int status)
unfolding to_buffer to_int
to_buffer_line ok = (codes "HTTP/1.0 200 OK", refl, omega arith, refl)
to_buffer_line created = (codes "HTTP/1.0 201 Created", refl, omega arith, refl)
to_buffer_line accepted = (codes "HTTP/1.0 202 Accepted", refl, omega arith, refl)
to_buffer_line no_content = (codes "HTTP/1.0 204 No Content", refl, omega arith, refl)
to_buffer_line multiple_choices = (codes "HTTP/1.0 300 Multiple Choices", refl, omega arith, refl)
to_buffer_line moved_permanently = (codes "HTTP/1.0 301 Moved Permanently", refl, omega arith, refl)
to_buffer_line moved_temporarily = (codes "HTTP/1.0 302 Moved Temporarily", refl, omega arith, refl)
to_buffer_line not_modified = (codes "HTTP/1.0 304 Not Modified", refl, omega arith, refl)
to_buffer_line bad_request = (codes "HTTP/1.0 400 Bad Request", refl, omega arith, refl)
to_buffer_line unauthorized = (codes "HTTP/1.0 401 Unauthorized", refl, omega arith, refl)
to_buffer_line forbidden = (codes "HTTP/1.0 403 Forbidden", refl, omega arith, refl)
to_buffer_line not_found = (codes "HTTP/1.0 404 Not Found", refl, omega arith, refl)
to_buffer_line internal_server_error =
    (codes "HTTP/1.0 500 Internal Server Error", refl, omega arith, refl)
to_buffer_line not_implemented = (codes "HTTP/1.0 501 Not Implemented", refl, omega arith, refl)
to_buffer_line bad_gateway = (codes "HTTP/1.0 502 Bad Gateway", refl, omega arith, refl)
to_buffer_line service_unavailable =
    (codes "HTTP/1.0 503 Service Unavailable", refl, omega arith, refl)

-- The bytes that `to_buffers` sends are read back by an independent reader as the response's numeric
-- status code, exactly its headers in their order, and its content as the rest, if every header's
-- name is non-empty with no colon, and no name and no value holds a carriage return.
pub read_head-to_buffers :
    (res : Response)
    → All IsLine res.headers
    → read_head (suc (length res.headers)) (concat (to_buffers res))
      ≡ some (record { code = to_int res.status; fields = res.headers; rest = res.content })
unfolding read_head to_buffers concat
read_head-to_buffers res h =
    let (l, e, f, n) = to_buffer_line res.status in
    let fields = read_fields-header_buffers res.headers res.content h in
    rw e (
      rw (append_assoc l crlf _)
        (rw (line_of-append l _ f, read_head) (rw fields (rw (line_of-append l _ f) (rw n refl)))))
