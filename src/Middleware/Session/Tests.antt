-- ===== src/Middleware/Session/Tests.antt =====
-- The cookie parser on concrete headers, and its theorems applied there.
use gin_cpp.Base.{◌≡◌, refl, List, [], ◌∷◌, arith, Text, codes, same, find, insert}
use gin_cpp.Http.Request.Query.{assign_all}
use gin_cpp.Middleware.Session.{trim, parse_cookies}
use gin_cpp.Middleware.Session.Cookies.{print_cookies, parse_cookies-print_cookies}

parse_cookies_test :
    parse_cookies (codes "a=1; b=x=y;junk; a=2")
    ≡ (codes "a", codes "2") ∷ (codes "b", codes "x=y") ∷ []
unfolding parse_cookies find insert same
parse_cookies_test = refl

abbrev two_cookies : List (Text × Text)
two_cookies = (codes "a", codes "1") ∷ (codes "b", codes "2=3") ∷ []

parse_cookies-print_cookies_example :
    parse_cookies (print_cookies two_cookies) ≡ assign_all [] two_cookies
unfolding trim
parse_cookies-print_cookies_example = parse_cookies-print_cookies two_cookies (
  (omega arith, (omega arith), (omega arith), refl),
  ((omega arith, (omega arith), (omega arith), refl), tt),
)
