-- ===== src/Middleware/Handlers.antt =====
-- The middlewares of mycppwebfw/src/middleware: auth.cpp, error_handler.cpp and request_id.cpp. The
-- identifiers that RequestIdGenerator gives, in turn, are the argument `ids`.
pub mod Auth
pub mod Errors
pub mod Ids
mod Tests
use gin_cpp.Base.{
  ℕ, zero, suc, ◌+◌, ◌-◌, ◌*◌, ◌/◌, ◌%◌, ◌^◌, ◌≤◌, ◌<◌, ◌≡◌, refl, sym, ap, ◌∙◌, ◌≢◌, ◌↔◌, ◌⊎◌, inl,
  inr, Bool, true, false, not, ◌&&◌, ◌||◌, Option, none, some, List, [], ◌∷◌, ◌++◌, map, arith, ltb,
  leb, ◌==◌, if◌then◌else◌, ltb→lt, lt→ltb, leb→le, ==_iff, ==_refl, Bool-cases, Option-cases,
  length, get_elem?, set, take, drop, replicate, is_empty, length-append, length-replicate,
  get_elem?-some_lt, get_elem?-none_le, lt_of_get_elem?, Has, length-set, get_elem?-set_self,
  get_elem?-set_ne, All, All-append, Text, codes, same, same→eq, same_refl, same_iff, apart,
  drop_two_length_append, Free-append, find, starts_with, find_text, contains_text, Free, find-Free,
  find-none-Free, find-append, Free-take-find, find_parts, take-length_append, drop-length_append,
  drop-suc-length_append, starts_with-append, starts_with_parts, lookup, insert, erase,
  lookup-insert, lookup-erase,
}
use gin_cpp.Base.Int.{ℤ, pos}
use gin_cpp.Http.Request.{Header, Request, get_header}
use gin_cpp.Http.Response.{Response, StatusCode, unauthorized, internal_server_error}
use gin_cpp.Utils.Stores.{ApiKeyRegistry, JwtParser, is_valid, verify}
use gin_cpp.Utils.Renderer.{render}
use gin_cpp.Middleware.Script.{
  Exception, standard, unknown, Outcome, returned, threw, Script, finish, call, tail_call,
}
use gin_cpp.Middleware.Chain.{Middleware}
use gin_cpp.Middleware.Exchange.{Exchange, respond}

-- The branches of create_auth_middleware that refuse.
unfoldable pub refuse : Exchange → Script Exchange
refuse x = finish (respond x unauthorized (codes "Unauthorized")) returned

abbrev pub allow_if_some : Option Text → Exchange → Script Exchange
allow_if_some none x = refuse x
allow_if_some (some user) x = tail_call x

unfoldable pub auth_handler : ApiKeyRegistry → JwtParser → Exchange → Script Exchange
auth_handler registry jwt x =
    let auth_header = get_header x.request (codes "Authorization") in
    if is_empty auth_header
    then refuse x
    else if starts_with auth_header (codes "Bearer ")
    then allow_if_some (verify jwt (drop 7 auth_header)) x
    else if starts_with auth_header (codes "ApiKey ")
    then allow_if_some (is_valid registry (drop 7 auth_header)) x
    else refuse x

unfoldable pub create_auth_middleware : ApiKeyRegistry → JwtParser → Middleware Exchange
unfolding auth_handler
create_auth_middleware registry jwt = record {
  handler = auth_handler registry jwt;
  priority = pos 0;
}

-- The two catch clauses: the logged message and the one that is rendered.
unfoldable pub caught : Exception → Text × Text
caught (standard what) = (what, what)
caught unknown = (codes "An unknown error occurred.", codes "Internal Server Error")

unfoldable pub handle_error : Exchange → Outcome → Script Exchange
unfolding caught
handle_error x returned = finish x returned
handle_error x (threw e) =
    finish
      (record x {
        response =
            render response internal_server_error (caught e).1
              (get_header request (codes "Accept"));
        log = log ++ (caught e).0 ∷ [];
      })
      returned
  where
    open x use {response, request, log}

unfoldable pub create_error_handler : Middleware Exchange
unfolding handle_error
create_error_handler = record { handler = λ x. call x handle_error; priority = pos 100 }

abbrev pub request_id_of : (ℕ → Text) → Exchange → Exchange
request_id_of ids x =
    let it = get_header x.request (codes "X-Request-ID") in
    if not (is_empty it)
    then record x { current_request_id = it }
    else record x { current_request_id = ids x.drawn; drawn = x.drawn + 1 }

abbrev pub add_header : Text → Text → Exchange → Exchange
add_header name value x = record x {
  response = record response {
    headers = response.headers ++ record { name = name; value = value } ∷ [];
  };
}
  where
    open x use {response}

-- The handler is always given a `next`, so `if (next)` holds.
unfoldable pub request_id_handler : (ℕ → Text) → Exchange → Script Exchange
request_id_handler ids x =
    let x' = request_id_of ids x in
    tail_call (add_header (codes "X-Request-ID") x'.current_request_id x')

unfoldable pub create_request_id_middleware : (ℕ → Text) → Middleware Exchange
unfolding request_id_handler
create_request_id_middleware ids = record { handler = request_id_handler ids; priority = pos 90 }
