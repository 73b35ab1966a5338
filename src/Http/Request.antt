-- ===== src/Http/Request.antt =====
-- mycppwebfw/include/mycppwebfw/http/header.h, request.h and mycppwebfw/src/http/request.cpp
pub mod Lookup
pub mod Query
mod Tests
use gin_cpp.Base.{
  ℕ, zero, suc, ◌+◌, ◌-◌, ◌*◌, ◌/◌, ◌%◌, ◌^◌, ◌≤◌, ◌<◌, ◌≡◌, refl, sym, ap, ◌∙◌, ◌≢◌, ◌↔◌, ◌⊎◌, inl,
  inr, Bool, true, false, not, ◌&&◌, ◌||◌, Option, none, some, List, [], ◌∷◌, ◌++◌, map, arith, ltb,
  leb, ◌==◌, if◌then◌else◌, ltb→lt, lt→ltb, leb→le, ==_iff, ==_refl, Bool-cases, Option-cases,
  length, get_elem?, set, take, drop, replicate, is_empty, length-append, length-replicate,
  get_elem?-some_lt, get_elem?-none_le, lt_of_get_elem?, Has, length-set, get_elem?-set_self,
  get_elem?-set_ne, All, All-append, Text, codes, same, same→eq, same_refl, same_iff, find,
  starts_with, find_text, contains_text, Free, find-Free, find-none-Free, find-append,
  Free-take-find, find_parts, take-length_append, drop-length_append, drop-suc-length_append,
  starts_with-append, starts_with_parts, lookup, insert, erase, lookup-insert, lookup-erase,
}

pub record Header : Type 0 where
  pub name : Text
  pub value : Text

-- The two version fields are `int`, which the parser never makes negative.
pub record Request : Type 0 where
  pub method : Text
  pub uri : Text
  pub http_version_major : ℕ
  pub http_version_minor : ℕ
  pub headers : List Header
  pub body : Text

unfoldable pub get_method : Request → Text
get_method req = req.method

abbrev path_part : Text → Option ℕ → Text
path_part uri none = uri
path_part uri (some pos) = take pos uri

unfoldable pub get_path : Request → Text
get_path req = path_part req.uri (find req.uri b'?')

-- std::find_if over the headers, by exact name.
unfoldable pub find_header : Text → List Header → Option Header
find_header name [] = none
find_header name (h ∷ hs) = if same h.name name then some h else find_header name hs

abbrev value_or_empty : Option Header → Text
value_or_empty none = []
value_or_empty (some h) = h.value

unfoldable pub get_header : Request → Text → Text
unfolding find_header
get_header req name = value_or_empty (find_header name req.headers)

-- The loop's variables: `segment` holds the bytes from `start` up to `i`.
pub record QueryState : Type 0 where
  pub params : List (Text × Text)
  pub key : Text
  pub segment : Text

-- One round of the loop over the query string.
query_step : QueryState → ℕ → QueryState
query_step q c =
    if c == b'='
    then record q { key = q.segment; segment = [] }
    else if c == b'&'
    then record q { params = insert q.key q.segment q.params; segment = [] }
    else record q { segment = q.segment ++ c ∷ [] }

query_loop : QueryState → Text → QueryState
unfolding query_step
query_loop q [] = q
query_loop q (c ∷ s) = query_loop (query_step q c) s

-- The last value is stored behind the loop.
query_finish : QueryState → List (Text × Text)
query_finish q = insert q.key q.segment q.params

unfoldable pub parse_query : Text → List (Text × Text)
unfolding query_loop query_finish
parse_query s = query_finish (query_loop (record { params = []; key = []; segment = [] }) s)

abbrev query_part : Text → Option ℕ → List (Text × Text)
query_part uri none = []
query_part uri (some pos) = parse_query (drop (pos + 1) uri)

unfoldable pub get_query_params : Request → List (Text × Text)
get_query_params req = query_part req.uri (find req.uri b'?')
