-- ===== src/Http/Response.antt =====
-- mycppwebfw/include/mycppwebfw/http/response.h and mycppwebfw/src/http/response.cpp. A buffer is
-- the text that it points at.
pub mod Wire
mod Tests
use gin_cpp.Base.{
  ℕ, zero, suc, ◌+◌, ◌-◌, ◌*◌, ◌/◌, ◌%◌, ◌^◌, ◌≤◌, ◌<◌, ◌≡◌, refl, sym, ap, ◌∙◌, ◌≢◌, ◌↔◌, ◌⊎◌, inl,
  inr, Bool, true, false, not, ◌&&◌, ◌||◌, Option, none, some, List, [], ◌∷◌, ◌++◌, map, arith, ltb,
  leb, ◌==◌, if◌then◌else◌, ltb→lt, lt→ltb, leb→le, ==_iff, ==_refl, Bool-cases, Option-cases,
  length, get_elem?, set, take, drop, replicate, is_empty, length-append, length-replicate,
  get_elem?-some_lt, get_elem?-none_le, lt_of_get_elem?, Has, length-set, get_elem?-set_self,
  get_elem?-set_ne, All, All-append, Text, codes, same, same→eq, same_refl, same_iff, find,
  starts_with, find_text, contains_text, Free, find-Free, find-none-Free, find-append,
  Free-take-find, find_parts, take-length_append, drop-length_append, drop-suc-length_append,
  starts_with-append, starts_with_parts, lookup, insert, erase, lookup-insert, lookup-erase,
}
use gin_cpp.Base.Decimal.{to_string}
use gin_cpp.Http.Request.{Header}

pub data StatusCode : Type 0 where
  ok created accepted no_content multiple_choices moved_permanently moved_temporarily : StatusCode
  not_modified bad_request unauthorized forbidden not_found internal_server_error : StatusCode
  not_implemented bad_gateway service_unavailable : StatusCode

-- static_cast<int>(status)
unfoldable pub to_int : StatusCode → ℕ
to_int ok = 200
to_int created = 201
to_int accepted = 202
to_int no_content = 204
to_int multiple_choices = 300
to_int moved_permanently = 301
to_int moved_temporarily = 302
to_int not_modified = 304
to_int bad_request = 400
to_int unauthorized = 401
to_int forbidden = 403
to_int not_found = 404
to_int internal_server_error = 500
to_int not_implemented = 501
to_int bad_gateway = 502
to_int service_unavailable = 503

pub record Response : Type 0 where
  pub status : StatusCode
  pub headers : List Header
  pub content : Text

abbrev pub crlf : Text
crlf = 13 ∷ 10 ∷ []

abbrev pub name_value_separator : Text
name_value_separator = b':' ∷ b' ' ∷ []

-- status_strings::to_buffer
unfoldable pub to_buffer : StatusCode → Text
to_buffer ok = codes "HTTP/1.0 200 OK" ++ crlf
to_buffer created = codes "HTTP/1.0 201 Created" ++ crlf
to_buffer accepted = codes "HTTP/1.0 202 Accepted" ++ crlf
to_buffer no_content = codes "HTTP/1.0 204 No Content" ++ crlf
to_buffer multiple_choices = codes "HTTP/1.0 300 Multiple Choices" ++ crlf
to_buffer moved_permanently = codes "HTTP/1.0 301 Moved Permanently" ++ crlf
to_buffer moved_temporarily = codes "HTTP/1.0 302 Moved Temporarily" ++ crlf
to_buffer not_modified = codes "HTTP/1.0 304 Not Modified" ++ crlf
to_buffer bad_request = codes "HTTP/1.0 400 Bad Request" ++ crlf
to_buffer unauthorized = codes "HTTP/1.0 401 Unauthorized" ++ crlf
to_buffer forbidden = codes "HTTP/1.0 403 Forbidden" ++ crlf
to_buffer not_found = codes "HTTP/1.0 404 Not Found" ++ crlf
to_buffer internal_server_error = codes "HTTP/1.0 500 Internal Server Error" ++ crlf
to_buffer not_implemented = codes "HTTP/1.0 501 Not Implemented" ++ crlf
to_buffer bad_gateway = codes "HTTP/1.0 502 Bad Gateway" ++ crlf
to_buffer service_unavailable = codes "HTTP/1.0 503 Service Unavailable" ++ crlf

-- The four buffers of each header.
unfoldable pub header_buffers : List Header → List Text
header_buffers [] = []
header_buffers (h ∷ hs) = h.name ∷ name_value_separator ∷ h.value ∷ crlf ∷ header_buffers hs

unfoldable pub to_buffers : Response → List Text
unfolding to_buffer header_buffers
to_buffers res = to_buffer res.status ∷ (header_buffers res.headers ++ crlf ∷ res.content ∷ [])

unfoldable pub stock_response : StatusCode → Response
unfolding to_string
stock_response status = record {
  status = status;
  headers =
      record { name = codes "Content-Length"; value = to_string 0 }
      ∷ record { name = codes "Content-Type"; value = codes "text/html" }
      ∷ [];
  content = [];
}
