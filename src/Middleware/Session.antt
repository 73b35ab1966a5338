-- ===== src/Middleware/Session.antt =====
-- mycppwebfw/src/middleware/session.cpp and src/middleware/session.cpp: the cookies of a request, and the
-- session middleware. The older tree has the same `parse_cookies`.
pub mod Cookies
mod Tests
use gin_cpp.Base.{
  ℕ, zero, suc, ◌+◌, ◌-◌, ◌*◌, ◌/◌, ◌%◌, ◌^◌, ◌≤◌, ◌<◌, ◌≡◌, refl, sym, ap, ◌∙◌, ◌≢◌, ◌↔◌, ◌⊎◌, inl,
  inr, Bool, true, false, not, ◌&&◌, ◌||◌, Option, none, some, List, [], ◌∷◌, ◌++◌, map, arith, ltb,
  leb, ◌==◌, if◌then◌else◌, ltb→lt, lt→ltb, leb→le, ==_iff, ==_refl, Bool-cases, Option-cases,
  length, get_elem?, set, take, drop, replicate, is_empty, length-append, length-replicate,
  get_elem?-some_lt, get_elem?-none_le, lt_of_get_elem?, Has, length-set, get_elem?-set_self,
  get_elem?-set_ne, All, All-append, Text, codes, same, same→eq, same_refl, same_iff, apart,
  drop_two_length_append, Free-append, find, starts_with, find_text, contains_text, Free, find-Free,
  find-none-Free, find-append, Free-take-find, find_parts, take-length_append, drop-length_append,
  drop-suc-length_append, starts_with-append, starts_with_parts, lookup, insert, erase,
  lookup-insert, lookup-erase,
}
use gin_cpp.Base.Int.{pos}
use gin_cpp.Http.Request.{Header, get_header}
use gin_cpp.Middleware.Script.{Script, tail_call}
use gin_cpp.Middleware.Chain.{Middleware}
use gin_cpp.Middleware.Exchange.{Exchange}
use gin_cpp.Middleware.Handlers.{add_header}

-- key.erase(0, key.find_first_not_of(" \t\n\r\f\v")): npos erases the whole key.
unfoldable pub is_space : ℕ → Bool
is_space c = (c == 32) || (leb 9 c && leb c 13)

unfoldable pub trim : Text → Text
unfolding is_space
trim [] = []
trim (c ∷ s) = if is_space c then trim s else c ∷ s

-- One cookie, from the text of a pair.
abbrev store_pair : Text → Option ℕ → List (Text × Text) → List (Text × Text)
store_pair pair none cookies = cookies
store_pair pair (some eq) cookies = insert (trim (take eq pair)) (drop (eq + 1) pair) cookies

unfoldable pub add_cookie : Text → List (Text × Text) → List (Text × Text)
unfolding trim
add_cookie pair cookies = store_pair pair (find pair b'=') cookies

-- The end of the pair that begins at `pos`, and the text behind the semicolon.
abbrev cut : Text → Option ℕ → Text × Text
cut rest none = (rest, [])
cut rest (some i) = (take i rest, drop (i + 1) rest)

-- The while loop; `rest` is the header from `pos` on. Each round takes at least one byte off it.
unfoldable pub cookie_loop : ℕ → Text → List (Text × Text) → List (Text × Text)
unfolding add_cookie
cookie_loop zero rest cookies = cookies
cookie_loop (suc fuel) rest cookies =
    let go_on =
      cookie_loop fuel (cut rest (find rest b';')).1
        (add_cookie (cut rest (find rest b';')).0 cookies) in
    if is_empty rest then cookies else go_on

unfoldable pub parse_cookies : Text → List (Text × Text)
unfolding cookie_loop
parse_cookies cookie_header = cookie_loop (length cookie_header) cookie_header []

abbrev pub session_cookie : Text → Text
session_cookie session_id = codes "session_id=" ++ session_id ++ codes "; HttpOnly; Secure"

-- The session id of a request, with the exchange in which a new one has been drawn and announced.
abbrev pub session_of : (ℕ → Text) → Option Text → Exchange → Text × Exchange
session_of ids (some session_id) x = (session_id, x)
session_of ids none x = (
  ids x.drawn,
  add_header (codes "Set-Cookie") (session_cookie (ids x.drawn)) (record x { drawn = x.drawn + 1 }),
)

abbrev pub push_session : Text × Exchange → Exchange
push_session (session_id, x) = record x {
  request = record request {
    headers = request.headers ++ record { name = codes "X-Session-ID"; value = session_id } ∷ [];
  };
}
  where
    open x use {request}

-- The store is captured and not used.
unfoldable pub session_handler : (ℕ → Text) → Exchange → Script Exchange
unfolding parse_cookies
session_handler ids x = tail_call (
    push_session (
      session_of ids
        (lookup (codes "session_id") (parse_cookies (get_header x.request (codes "Cookie")))) x))

unfoldable pub create_session_middleware : (ℕ → Text) → Middleware Exchange
unfolding session_handler
create_session_middleware ids = record { handler = session_handler ids; priority = pos 0 }
