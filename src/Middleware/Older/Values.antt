-- ===== src/Middleware/Older/Values.antt =====
-- src/middleware (the older tree): the values that the handlers leave for the ones behind them.
use gin_cpp.Base.{
  ℕ, ◌≡◌, refl, ap, ◌∙◌, ◌⊎◌, inl, inr, Option, none, some, [], ◌∷◌, ◌++◌, if◌then◌else◌, Text,
  codes, same, starts_with, Free, lookup, lookup-insert,
}
use gin_cpp.Http.Request.{get_header}
use gin_cpp.Utils.Stores.{ApiKeyRegistry, JwtParser, is_valid, verify}
use gin_cpp.Middleware.Script.{tail_call}
use gin_cpp.Middleware.Exchange.{Exchange}
use gin_cpp.Middleware.Context.{Context, set_value, get_value}
use gin_cpp.Middleware.Session.{parse_cookies, session_cookie}
use gin_cpp.Middleware.Session.Cookies.{parse_cookies-session_cookie}
use gin_cpp.Middleware.Older.{with_exchange, go_on_as, auth, session_id_of, session}

-- A credential that the registry or the parser accepts, and its user.
abbrev pub IsUser : ApiKeyRegistry → JwtParser → Text → Text → Type 0
IsUser registry jwt header user =
    ((token : Text) × (header ≡ codes "Bearer " ++ token) × (verify jwt token ≡ some user))
    ⊎ ((key : Text) × (header ≡ codes "ApiKey " ++ key) × (is_valid registry key ≡ some user))

-- A context with one value more.
abbrev pub Adds : Text → Text → Context → Context → Type 0
Adds name value c d =
    (key : Text) → get_value key d ≡ (if same name key then some value else get_value key c)

set_value-Adds :
    (name value : Text) (c : Context) (x : Exchange)
    → Adds name value c (set_value name value (with_exchange c x))
unfolding set_value get_value
set_value-Adds name value c x key = lookup-insert name key value c.values

auth-IsUser :
    (registry : ApiKeyRegistry) (jwt : JwtParser) (c : Context) (user : Text)
    → IsUser registry jwt (get_header c.exchange.request (codes "Authorization")) user
    → auth registry jwt c ≡ tail_call (set_value (codes "user") user c)
unfolding auth starts_with
auth-IsUser registry jwt c user (inl (token, e, h)) = rw e (ap (λ o. go_on_as o c) h)
auth-IsUser registry jwt c user (inr (key, e, h)) = rw e (ap (λ o. go_on_as o c) h)

-- A request with an accepted credential in its first Authorization header goes to the next handler once,
-- with the request and the response as they were and with one value more, the credential's user under
-- "user".
pub auth-Adds :
    (registry : ApiKeyRegistry) (jwt : JwtParser) (c : Context) (user : Text)
    → IsUser registry jwt (get_header c.exchange.request (codes "Authorization")) user
    → (d : Context) × (auth registry jwt c ≡ tail_call d)
      × (d.exchange ≡ c.exchange)
      × Adds (codes "user") user c d
unfolding set_value
auth-Adds registry jwt c user h = (
  set_value (codes "user") user c,
  auth-IsUser registry jwt c user h,
  refl,
  set_value-Adds (codes "user") user c c.exchange,
)

session-lookup :
    (ids : ℕ → Text) (c : Context) (o : Option Text)
    → lookup (codes "session_id") (parse_cookies (get_header c.exchange.request (codes "Cookie")))
      ≡ o
    → session ids c
      ≡ tail_call (
          set_value
            (codes "session_id")
            (session_id_of ids o c.exchange).0
            (with_exchange c (session_id_of ids o c.exchange).1))
unfolding session
session-lookup ids c o e =
    ap
      (λ o. tail_call (
        set_value (codes "session_id") (session_id_of ids o c.exchange).0
          (with_exchange c (session_id_of ids o c.exchange).1)))
      e

lookup_session : (id : Text) → lookup (codes "session_id") ((codes "session_id", id) ∷ []) ≡ some id
unfolding lookup same
lookup_session id = refl

-- A first request without a session cookie gets a new identifier, which its response announces, and a
-- second whose Cookie header is the announced text gets the same identifier under "session_id" and leaves
-- the response as it is; both go to the next handler once. The identifier must hold no semicolon.
pub session_again :
    (ids : ℕ → Text) (first second : Context)
    → Free b';' (ids first.exchange.drawn)
    → lookup
        (codes "session_id")
        (parse_cookies (get_header first.exchange.request (codes "Cookie")))
      ≡ none
    → get_header second.exchange.request (codes "Cookie")
      ≡ session_cookie (ids first.exchange.drawn)
    → (c : Context) × (d : Context) × (session ids first ≡ tail_call c)
      × (session ids second ≡ tail_call d)
      × Adds (codes "session_id") (ids first.exchange.drawn) first c
      × Adds (codes "session_id") (ids first.exchange.drawn) second d
      × (c.exchange.response.headers
          ≡ first.exchange.response.headers
            ++ record {
              name = codes "Set-Cookie";
              value = session_cookie (ids first.exchange.drawn);
            }
              ∷ [])
      × (d.exchange ≡ second.exchange)
unfolding set_value
session_again ids first second f fresh sent =
    let found : lookup (codes "session_id")
          (parse_cookies (get_header second.exchange.request (codes "Cookie")))
        ≡ some (ids first.exchange.drawn) =
      ap (λ h. lookup (codes "session_id") (parse_cookies h)) sent
      ∙ ap (lookup (codes "session_id")) (parse_cookies-session_cookie (ids first.exchange.drawn) f)
      ∙ lookup_session (ids first.exchange.drawn) in
    (
      _,
      _,
      session-lookup ids first none fresh,
      session-lookup ids second (some (ids first.exchange.drawn)) found,
      set_value-Adds (codes "session_id") (ids first.exchange.drawn) first
          (session_id_of ids none first.exchange).1,
      set_value-Adds (codes "session_id") (ids first.exchange.drawn) second second.exchange,
      refl,
      refl,
    )
