-- ===== src/Http/Parser/Tests.antt =====
-- Runs of the parser on concrete input, and the theorems applied there.
use gin_cpp.Base.{◌≡◌, refl, true, false, some, [], ◌∷◌, arith, codes}
use gin_cpp.Http.Request.{Request}
use gin_cpp.Http.Parser.{
  good, expecting_newline_3, isalpha, iscntrl, step, Parsed, parse, start, blank,
}
use gin_cpp.Http.Parser.Safety.{Parses, overflows, parse-total}
use gin_cpp.Http.Parser.Clean.{IsClean, parse-IsClean}
use gin_cpp.Http.Parser.RoundTrip.{print, IsWire, parse-print}

abbrev get_root : Request
get_root = record {
  method = codes "GET";
  uri = codes "/a?b=c";
  http_version_major = 1;
  http_version_minor = 1;
  headers = record { name = codes "Host"; value = codes "h" } ∷ [];
  body = [];
}

abbrev accepted : Parsed
accepted = record { state = expecting_newline_3; request = get_root; result = good }

get_root-IsWire : IsWire get_root
unfolding isalpha iscntrl
get_root-IsWire = ground arith

parse-get_root : parse start blank (print get_root []) ≡ some accepted
unfolding parse step print
parse-get_root = refl

-- Ten digits.
overflow_tests :
    (overflows start blank (codes "GET / HTTP/2147483647.0") ≡ false)
    × (overflows start blank (codes "GET / HTTP/2147483648.0") ≡ true)
unfolding overflows step
overflow_tests = (refl, refl)

parse-total_example : Parses start blank (codes "GET / HTTP/9999999999.1")
parse-total_example = parse-total start blank (codes "GET / HTTP/9999999999.1") (λ e. cc)

parse-IsClean_example : IsClean get_root
parse-IsClean_example =
    parse-IsClean start blank (print get_root []) accepted
      (record { letters = tt; target = tt; fields = tt }) parse-get_root

parse-print_example : parse start blank (print get_root (codes "x")) ≡ some accepted
parse-print_example = parse-print get_root (codes "x") get_root-IsWire
