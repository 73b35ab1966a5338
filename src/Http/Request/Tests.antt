-- ===== src/Http/Request/Tests.antt =====
-- Requests on concrete input, and the theorems applied there.
use gin_cpp.Base.{◌≡◌, refl, List, none, some, [], ◌∷◌, arith, codes, same, find, insert}
use gin_cpp.Http.Request.{Request, get_path, get_header, parse_query, get_query_params}
use gin_cpp.Http.Request.Query.{
  print_query, assign_all, parse_query-print_query, parse_query_stale_key, Item, print_items,
  assign_items,
}

abbrev search : Request
search = record {
  method = codes "GET";
  uri = codes "/s?q=x&q=y&z=1";
  http_version_major = 1;
  http_version_minor = 1;
  headers =
      record { name = codes "A"; value = codes "1" }
      ∷ record { name = codes "B"; value = codes "2" }
      ∷ record { name = codes "B"; value = codes "3" }
      ∷ [];
  body = [];
}

search_tests :
    (get_path search ≡ codes "/s")
    × (get_query_params search ≡ (codes "q", codes "y") ∷ (codes "z", codes "1") ∷ [])
    × (get_header search (codes "b") ≡ [])
unfolding get_path get_query_params get_header find parse_query insert same
search_tests = (refl, refl, refl)

parse_query-print_query_example :
    parse_query (print_query (codes "q", codes "x") ((codes "z", codes "1") ∷ []))
    ≡ assign_all [] ((codes "q", codes "x") ∷ (codes "z", codes "1") ∷ [])
parse_query-print_query_example =
    parse_query-print_query (codes "q", codes "x") ((codes "z", codes "1") ∷ []) (omega arith)
      (omega arith)

-- The query "a=1&b&c=2".
abbrev items : List Item
items = (none, codes "b") ∷ (some (codes "c"), codes "2") ∷ []

parse_query_stale_key_tests :
    assign_items [] [] ((some (codes "a"), codes "1") ∷ items)
    ≡ (codes "a", codes "b") ∷ (codes "c", codes "2") ∷ []
unfolding assign_items insert same
parse_query_stale_key_tests = refl

parse_query_stale_key_example :
    parse_query (print_items (some (codes "a"), codes "1") items)
    ≡ assign_items [] [] ((some (codes "a"), codes "1") ∷ items)
parse_query_stale_key_example =
    parse_query_stale_key (some (codes "a"), codes "1") items (omega arith) (omega arith)
