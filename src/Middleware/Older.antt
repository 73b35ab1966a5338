-- ===== src/Middleware/Older.antt =====
-- src/middleware and src/utils/middleware_utils.cpp, the older tree: auth.cpp, error_handler.cpp, request_id.cpp and
-- session.cpp, and the builder of chains. parse_cookies and the stores are the same code as in the
-- framework, and the same definitions here. `ids` gives the generated identifiers in turn.
pub mod Builder
pub mod Agreement
pub mod Values
mod Tests
use gin_cpp.Base.{
  ℕ, zero, suc, ◌+◌, ◌-◌, ◌*◌, ◌/◌, ◌%◌, ◌^◌, ◌≤◌, ◌<◌, ◌≡◌, refl, sym, ap, subst, ◌∙◌, ◌≢◌, ◌↔◌,
  ◌⊎◌, inl, inr, Bool, true, false, not, ◌&&◌, ◌||◌, Option, none, some, List, [], ◌∷◌, ◌++◌, map,
  arith, ltb, leb, ◌==◌, if◌then◌else◌, ltb→lt, lt→ltb, leb→le, ==_iff, ==_refl, Bool-cases,
  Option-cases, some_inj, length, get_elem?, set, take, drop, replicate, is_empty, length-append,
  length-replicate, get_elem?-some_lt, get_elem?-none_le, lt_of_get_elem?, Has, Has-cons_map,
  Has-append_left, Has-append_right, Has-append, All-Has, length-set, get_elem?-set_self,
  get_elem?-set_ne, All, All-append, Text, codes, same, same→eq, same_refl, same_iff, apart,
  drop_two_length_append, Free-append, find, starts_with, find_text, contains_text, Free, find-Free,
  find-none-Free, find-append, Free-take-find, find_parts, take-length_append, drop-length_append,
  drop-suc-length_append, starts_with-append, starts_with_parts, lookup, insert, erase,
  lookup-insert, lookup-erase,
}
use gin_cpp.Http.Request.{Header, Request, get_header}
use gin_cpp.Http.Response.{Response, StatusCode, unauthorized, internal_server_error}
use gin_cpp.Utils.Stores.{ApiKeyRegistry, JwtParser, is_valid, verify}
use gin_cpp.Utils.Renderer.{render}
use gin_cpp.Middleware.Script.{
  Exception, standard, unknown, Outcome, returned, threw, Script, finish, call, tail_call,
}
use gin_cpp.Middleware.Chain.{Run, run_script}
use gin_cpp.Middleware.Exchange.{Exchange, respond}
use gin_cpp.Middleware.Context.{Context, set_value}
use gin_cpp.Middleware.Session.{parse_cookies, session_cookie}

abbrev pub with_exchange : Context → Exchange → Context
with_exchange ctx x = record ctx { exchange = x }

-- The branches of Auth that refuse.
unfoldable pub refuse : Context → Script Context
refuse ctx =
    finish (with_exchange ctx (respond ctx.exchange unauthorized (codes "Unauthorized"))) returned

abbrev pub go_on_as : Option Text → Context → Script Context
go_on_as none ctx = refuse ctx
go_on_as (some user) ctx = tail_call (set_value (codes "user") user ctx)

-- Auth::operator()
unfoldable pub auth : ApiKeyRegistry → JwtParser → Context → Script Context
unfolding refuse set_value
auth registry jwt ctx =
    let auth_header = get_header ctx.exchange.request (codes "Authorization") in
    if is_empty auth_header
    then refuse ctx
    else if starts_with auth_header (codes "Bearer ")
    then go_on_as (verify jwt (drop 7 auth_header)) ctx
    else if starts_with auth_header (codes "ApiKey ")
    then go_on_as (is_valid registry (drop 7 auth_header)) ctx
    else refuse ctx

abbrev log_and_render : Exchange → Text → Text → Exchange
log_and_render x message shown = record x {
  response = render response internal_server_error shown (get_header request (codes "Accept"));
  log = log ++ message ∷ [];
}
  where
    open x use {response, request, log}

-- The catch clauses of ErrorHandler::operator().
unfoldable pub catches : Context → Outcome → Script Context
catches ctx returned = finish ctx returned
catches ctx (threw (standard what)) =
    finish (with_exchange ctx (log_and_render ctx.exchange what what)) returned
catches ctx (threw unknown) =
    finish
      (with_exchange ctx (
        log_and_render ctx.exchange (codes "An unknown error occurred.")
          (codes "Internal Server Error")))
      returned

unfoldable pub error_handler : Context → Script Context
unfolding catches
error_handler ctx = call ctx catches

abbrev push_header : Text → Text → Exchange → Exchange
push_header name value x = record x {
  response = record response {
    headers = response.headers ++ record { name = name; value = value } ∷ [];
  };
}
  where
    open x use {response}

-- RequestId::operator()
unfoldable pub request_id : (ℕ → Text) → Context → Script Context
unfolding set_value
request_id ids ctx =
    let x = ctx.exchange in
    let request_id_header = get_header x.request (codes "X-Request-ID") in
    if not (is_empty request_id_header)
    then tail_call (set_value (codes "request_id") request_id_header ctx)
    else tail_call (
        with_exchange (set_value (codes "request_id") (ids x.drawn) ctx)
          (push_header (codes "X-Request-ID") (ids x.drawn) (record x { drawn = x.drawn + 1 })))

-- The session of the cookie, or a new one.
abbrev pub session_id_of : (ℕ → Text) → Option Text → Exchange → Text × Exchange
session_id_of ids (some session_id) x = (session_id, x)
session_id_of ids none x = (
  ids x.drawn,
  push_header (codes "Set-Cookie") (session_cookie (ids x.drawn))
      (record x { drawn = x.drawn + 1 }),
)

-- Session::operator(). The store is kept and not used.
unfoldable pub session : (ℕ → Text) → Context → Script Context
unfolding set_value parse_cookies
session ids ctx =
    let cookies = parse_cookies (get_header ctx.exchange.request (codes "Cookie")) in
    let (id, x) = session_id_of ids (lookup (codes "session_id") cookies) ctx.exchange in
    tail_call (set_value (codes "session_id") id (with_exchange ctx x))

module _ {X : Type 0} where
  abbrev at_end : ℕ → X → Run X
  at_end i x = record { index = i; state = x; outcome = returned }

  -- The function `next` of MiddlewareChainBuilder::run, at most `fuel` calls deep; `it` is an index.
  unfoldable pub builder_next : ℕ → List (X → Script X) → ℕ → X → Run X
  unfolding run_script
  builder_next zero middlewares it ctx = at_end it ctx
  builder_next (suc fuel) middlewares it ctx = elim (get_elem? middlewares it) [
    | none ↦ at_end it ctx
    | some middleware ↦ run_script (builder_next fuel middlewares) (it + 1) (middleware ctx)
  ]

  -- MiddlewareChainBuilder::run
  unfoldable pub run_builder : List (X → Script X) → X → Run X
  unfolding builder_next
  run_builder middlewares ctx = builder_next (length middlewares) middlewares 0 ctx
