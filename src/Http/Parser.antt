-- ===== src/Http/Parser.antt =====
-- mycppwebfw/include/mycppwebfw/http/parser.h and mycppwebfw/src/http/parser.cpp. A byte is a
-- number below 256, as where char is unsigned, which the implementation chooses; the character classes are those
-- of the "C" locale.
mod Runs
pub mod Safety
pub mod Clean
pub mod RoundTrip
pub mod Reuse
mod Tests
use gin_cpp.Base.{
  ℕ, zero, suc, ◌+◌, ◌-◌, ◌*◌, ◌/◌, ◌%◌, ◌^◌, ◌≤◌, ◌<◌, ◌≡◌, refl, sym, ap, ◌∙◌, ◌≢◌, ◌↔◌, ◌⊎◌, inl,
  inr, Bool, true, false, not, ◌&&◌, ◌||◌, Option, none, some, List, [], ◌∷◌, ◌++◌, map, arith, ltb,
  leb, ◌==◌, if◌then◌else◌, ltb→lt, lt→ltb, leb→le, ==_iff, ==_refl, Bool-cases, Option-cases,
  length, get_elem?, set, take, drop, replicate, is_empty, length-append, length-replicate,
  get_elem?-some_lt, get_elem?-none_le, lt_of_get_elem?, Has, length-set, get_elem?-set_self,
  get_elem?-set_ne, All, All-append, Text, codes, same, same→eq, same_refl, same_iff, find,
  starts_with, find_text, contains_text, Free, find-Free, find-none-Free, find-append,
  Free-take-find, find_parts, take-length_append, drop-length_append, drop-suc-length_append,
  starts_with-append, starts_with_parts, lookup, insert, erase, lookup-insert, lookup-erase,
}
use gin_cpp.Http.Request.{Header, Request}

pub data ParseResult : Type 0 where
  good bad indeterminate : ParseResult

pub data State : Type 0 where
  method_start method uri : State
  http_version_h http_version_t_1 http_version_t_2 http_version_p http_version_slash : State
  http_version_major_start http_version_major http_version_minor_start http_version_minor : State
  expecting_newline_1 header_line_start header_lws header_name space_before_header_value : State
  header_value expecting_newline_2 expecting_newline_3 : State

unfoldable pub isalpha : ℕ → Bool
isalpha c = (leb b'A' c && leb c b'Z') || (leb b'a' c && leb c b'z')

unfoldable pub isdigit : ℕ → Bool
isdigit c = leb b'0' c && leb c b'9'

unfoldable pub iscntrl : ℕ → Bool
iscntrl c = ltb c 32 || (c == 127)

abbrev pub cr : ℕ
cr = 13

abbrev pub lf : ℕ
lf = 10

abbrev pub tab : ℕ
tab = 9

abbrev pub space : ℕ
space = 32

-- What one byte does: go on in a new state, return GOOD or BAD, or undefined behaviour, which is to use
-- `headers.back()` of an empty vector or to overflow an int.
pub data Step : Type 0 where
  next : State → Request → Step
  accept reject : Step
  fault : Step

-- headers.back().name.push_back(c)
push_name : List Header → ℕ → Option (List Header)
push_name [] c = none
push_name (h ∷ []) c = some (record h { name = h.name ++ c ∷ [] } ∷ [])
push_name (h ∷ h' ∷ hs) c = elim (push_name (h' ∷ hs) c) [ none ↦ none | some r ↦ some (h ∷ r) ]

-- headers.back().value.push_back(c)
push_value : List Header → ℕ → Option (List Header)
push_value [] c = none
push_value (h ∷ []) c = some (record h { value = h.value ++ c ∷ [] } ∷ [])
push_value (h ∷ h' ∷ hs) c = elim (push_value (h' ∷ hs) c) [ none ↦ none | some r ↦ some (h ∷ r) ]

abbrev pub with_headers : State → Request → Option (List Header) → Step
with_headers s req none = fault
with_headers s req (some hs) = next s (record req { headers = hs })

-- A state that wants one byte and nothing else.
abbrev pub expect : ℕ → ℕ → State → Request → Step
expect wanted c s req = if c == wanted then next s req else reject

-- v * 10 + (c - '0'), for a digit c.
abbrev pub push_digit : ℕ → ℕ → ℕ
push_digit v c = v * 10 + (c - b'0')

-- An int has 32 bits, and its overflow is undefined behaviour.
abbrev pub with_digit : State → Request → ℕ → Step
with_digit s req v = if ltb v (2 ^ 31) then next s req else fault

-- The body of the loop: the switch on `state_`.
unfoldable pub step : State → Request → ℕ → Step
unfolding isalpha isdigit iscntrl push_name push_value
step method_start req c =
    if not (isalpha c) then reject else next method (record req { method = req.method ++ c ∷ [] })
step method req c =
    if c == space
    then next uri req
    else if not (isalpha c)
    then reject
    else next method (record req { method = req.method ++ c ∷ [] })
step uri req c =
    if c == space
    then next http_version_h req
    else if iscntrl c
    then reject
    else next uri (record req { uri = req.uri ++ c ∷ [] })
step http_version_h req c = expect b'H' c http_version_t_1 req
step http_version_t_1 req c = expect b'T' c http_version_t_2 req
step http_version_t_2 req c = expect b'T' c http_version_p req
step http_version_p req c = expect b'P' c http_version_slash req
step http_version_slash req c = expect b'/' c http_version_major_start req
step http_version_major_start req c =
    if isdigit c
    then next http_version_major (record req { http_version_major = c - b'0' })
    else reject
step http_version_major req c =
    if c == b'.'
    then next http_version_minor_start req
    else if isdigit c
    then with_digit http_version_major
        (record req { http_version_major = push_digit req.http_version_major c })
        (push_digit req.http_version_major c)
    else reject
step http_version_minor_start req c =
    if isdigit c
    then next http_version_minor (record req { http_version_minor = c - b'0' })
    else reject
step http_version_minor req c =
    if c == cr
    then next expecting_newline_1 req
    else if isdigit c
    then with_digit http_version_minor
        (record req { http_version_minor = push_digit req.http_version_minor c })
        (push_digit req.http_version_minor c)
    else reject
step expecting_newline_1 req c = expect lf c header_line_start req
step header_line_start req c =
    if c == cr
    then next expecting_newline_3 req
    else if not (is_empty req.headers) && ((c == space) || (c == tab))
    then next header_lws req
    else if not (iscntrl c) && not (c == b':') && not (c == space)
    then with_headers header_name req
        (push_name (req.headers ++ record { name = []; value = [] } ∷ []) c)
    else reject
step header_lws req c =
    if c == cr
    then next expecting_newline_2 req
    else if (c == space) || (c == tab)
    then next header_lws req
    else if not (iscntrl c)
    then with_headers header_value req (push_value req.headers c)
    else reject
step header_name req c =
    if c == b':'
    then next space_before_header_value req
    else if not (iscntrl c) && not (c == space)
    then with_headers header_name req (push_name req.headers c)
    else reject
step space_before_header_value req c = expect space c header_value req
step header_value req c =
    if c == cr
    then next expecting_newline_2 req
    else if iscntrl c
    then reject
    else with_headers header_value req (push_value req.headers c)
step expecting_newline_2 req c = expect lf c header_line_start req
step expecting_newline_3 req c = if c == lf then accept else reject

-- What a call of `parse` leaves: the parser's state, the request and the result. `none` stands for
-- undefined behaviour.
pub record Parsed : Type 0 where
  pub state : State
  pub request : Request
  pub result : ParseResult

-- The while loop of `parse`. A return leaves `state_` and the request as they are.
unfoldable pub parse : State → Request → Text → Option Parsed
parse s req [] = some (record { state = s; request = req; result = indeterminate })
parse s req (c ∷ cs) = elim (step s req c) [
  | next s' req' ↦ parse s' req' cs
  | accept ↦ some (record { state = s; request = req; result = good })
  | reject ↦ some (record { state = s; request = req; result = bad })
  | fault ↦ none
]

-- The constructor of Parser.
abbrev pub start : State
start = method_start

-- A request with nothing in it, which a connection begins with. Its version
-- fields have no value in the code before the parser writes them.
abbrev pub blank : Request
blank = record {
  method = [];
  uri = [];
  http_version_major = 0;
  http_version_minor = 0;
  headers = [];
  body = [];
}
