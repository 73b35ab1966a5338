-- ===== src/Routing/Router/Tests.antt =====
-- Tests of the trie, the matcher and the router on small instances.
use gin_cpp.Base.{
  ◌≡◌, refl, ◌↔◌, Bool, Option, none, some, [], ◌∷◌, Has, Text, codes, same, lookup, insert,
}
use gin_cpp.Base.Int.{pos}
use gin_cpp.Base.Sort.{sort, place}
use gin_cpp.Http.Parser.{blank}
use gin_cpp.Http.Response.{ok}
use gin_cpp.Middleware.Script.{standard, returned, threw, finish}
use gin_cpp.Middleware.Chain.{Middleware}
use gin_cpp.Middleware.Exchange.{Exchange}
use gin_cpp.Middleware.Handlers.{create_error_handler}
use gin_cpp.Routing.Trie.{HttpHandler, static, parameter, TrieNode, Store, new_node, split}
use gin_cpp.Routing.Matcher.{match, find_matches, with_default, recalculate_params}
use gin_cpp.Routing.Matcher.Reach.{Reaches}
use gin_cpp.Routing.Matcher.Search.{find_matches_iff}
use gin_cpp.Base.{◌⊎◌, get_elem?}
use gin_cpp.Routing.Matcher.Walks.{HasParams, match-HasParams}
use gin_cpp.Routing.Matcher.Best.{IsMatch, match-IsMatch}
use gin_cpp.Routing.Router.{create_router, Route, add_route, node_handler}
use gin_cpp.Routing.Router.Order.{node_handler_uncaught}
use gin_cpp.Base.{true, List, arith, insert, lookup, same, ◌≢◌}
use gin_cpp.Routing.Trie.{update}
use gin_cpp.Routing.Router.{Router, ok, fill, url_for}
use gin_cpp.Base.{false, ℕ, ◌≢◌}
use gin_cpp.Routing.Router.Walk.{Walk}
use gin_cpp.Routing.Matcher.{Params, outranks}
use gin_cpp.Routing.Trie.{descend_all, read_segment}
use gin_cpp.Routing.Router.{match_route, effective_method}
use gin_cpp.Http.Request.{Request, get_method, get_path, get_header, get_query_params}
use gin_cpp.Base.{find, []}
use gin_cpp.Http.Parser.{blank}
use gin_cpp.Routing.Router.Installed.{IsInstalled}
use gin_cpp.Routing.Router.Found.{Chooses, add_route-match, add_route-match_route}
use gin_cpp.Routing.Router.Urls.{url_for-add_route}

abbrev no_regex : Text → Text → Option Bool
no_regex pattern seg = none

abbrev answer : HttpHandler
answer x = (x, returned)

-- The tree of "/users" and "/users/:id".
abbrev users : Store
users =
    record (new_node [] static) { children = (codes "users", 1) ∷ [] }
    ∷ record (new_node (codes "users") static) {
      children = (codes "id", 2) ∷ [];
      handler = some answer;
      priority = pos 3;
    }
    ∷ record (new_node (codes "id") parameter) { handler = some answer; priority = pos 2 }
    ∷ []

match_tests :
    (match no_regex users 0 (codes "/users") [] ≡ some (1, []))
    × (match no_regex users 0 (codes "/users/7") [] ≡ some (2, (codes "id", codes "7") ∷ []))
    × (match no_regex users 0 (codes "/nobody") [] ≡ none)
unfolding match sort find_matches split lookup same with_default recalculate_params insert
match_tests = (refl, refl, refl)

find_matches_iff_example :
    Has 2 (find_matches no_regex users (codes "users" ∷ codes "7" ∷ []) 0)
    ↔ Reaches no_regex users (codes "users" ∷ codes "7" ∷ []) 0 2
find_matches_iff_example = find_matches_iff no_regex users (codes "users" ∷ codes "7" ∷ []) 0 2

match-IsMatch_example :
    IsMatch no_regex users 0
      (split (codes "/users/7"))
      []
      (match no_regex users 0 (codes "/users/7") [])
match-IsMatch_example =
    match-IsMatch no_regex users 0 (codes "/users/7") []
      (record (new_node [] static) { children = (codes "users", 1) ∷ [] }) refl

match-HasParams_example :
    ((n : TrieNode) × (qs : Params) × (get_elem? users 2 ≡ some n)
      × ((codes "id", codes "7") ∷ [] ≡ with_default no_regex users n qs)
      × HasParams no_regex users 0 (split (codes "/users/7")) 2 qs)
    ⊎ ((◌≡◌ {A = ℕ} 2 0)
        × (◌≡◌ {A = Params} ((codes "id", codes "7") ∷ []) [])
        × (◌≡◌ {A = Bool} false true))
unfolding match sort find_matches split lookup same with_default recalculate_params insert
match-HasParams_example =
    match-HasParams no_regex users 0 (codes "/users/7") []
      (record (new_node [] static) { children = (codes "users", 1) ∷ [] }) 2
      ((codes "id", codes "7") ∷ []) refl refl

abbrev failing : Middleware Exchange
failing = record { handler = λ x. finish x (threw (standard (codes "boom"))); priority = pos 0 }

abbrev guarded_node : TrieNode
guarded_node = record (new_node (codes "users") static) {
  handler = some answer;
  middlewares = failing ∷ [];
}

abbrev start : Exchange
start = record {
  request = blank;
  response = record { status = ok; headers = []; content = [] };
  current_request_id = [];
  drawn = 0;
  log = [];
}

node_handler_uncaught_example :
    node_handler no_regex (λ p. none) create_router guarded_node start
    ≡ (start, threw (standard (codes "boom")))
unfolding create_error_handler sort place
node_handler_uncaught_example =
    node_handler_uncaught no_regex (λ p. none) guarded_node failing [] start start
      (standard (codes "boom")) refl (refl, tt) refl refl

abbrev home_route : Route
home_route = record {
  method = codes "GET";
  path = codes "/";
  handler = answer;
  middlewares = [];
  name = codes "home";
  priority = pos 0;
}

abbrev with_home : Router
with_home = record create_router {
  store = record (new_node [] static) { is_catch_all = true; handler = some answer } ∷ [];
  trees = (codes "GET", 0) ∷ [];
  named_routes = (codes "home", codes "/") ∷ [];
}

add_route-home_route : add_route create_router home_route ≡ ok with_home
unfolding add_route create_router update insert lookup same
add_route-home_route = refl

url_for-add_route_example :
    (lookup (codes "home") create_router.named_routes ≡ none)
    × ((ps : List (Text × Text)) → url_for with_home (codes "home") ps ≡ fill (codes "/") ps)
    × ((name : Text) (ps : List (Text × Text))
        → name ≢ codes "home"
        → url_for with_home name ps ≡ url_for create_router name ps)
url_for-add_route_example =
    url_for-add_route create_router with_home home_route add_route-home_route
      (λ e. absurd (ground arith))

abbrev with_user : Router
with_user = record create_router { named_routes = (codes "user", codes "/u/:id/edit") ∷ [] }

abbrev list_route : Route
list_route = record {
  method = codes "GET";
  path = codes "/users";
  handler = answer;
  middlewares = [];
  name = [];
  priority = pos 0;
}

abbrev with_list : Router
with_list = record create_router {
  store =
      record (new_node [] static) { children = (codes "users", 1) ∷ [] }
      ∷ record (new_node (codes "users") static) { handler = some answer; priority = pos 3 }
      ∷ [];
  trees = (codes "GET", 0) ∷ [];
}

add_route-list_route : add_route create_router list_route ≡ ok with_list
unfolding add_route create_router update insert lookup same split descend_all
add_route-list_route = refl

add_route-match_example :
    (root : ℕ) × (q : ℕ) × (p : ℕ) × (ps : Params) × (lookup (codes "GET") with_list.trees
      ≡ some root)
    × Walk with_list.store (split (codes "/users")) root q
    × IsInstalled with_list.store q answer []
    × (match no_regex with_list.store root (codes "/users") [] ≡ some (p, ps))
    × Chooses no_regex with_list.store (split (codes "/users")) root q p
    × ((n : TrieNode) × (get_elem? with_list.store p ≡ some n))
unfolding create_router split read_segment
add_route-match_example =
    add_route-match no_regex create_router with_list list_route [] tt (refl, tt)
      (λ e. absurd (ground arith)) add_route-list_route

abbrev list_users : Request
list_users = record blank { method = codes "GET"; uri = codes "/users" }

add_route-match_route_example :
    (root : ℕ) × (q : ℕ) × (p : ℕ) × (n : TrieNode) × (ps : Params) × (lookup
        (codes "GET")
        with_list.trees
      ≡ some root)
    × IsInstalled with_list.store q answer []
    × (get_elem? with_list.store p ≡ some n)
    × Reaches no_regex with_list.store (split (codes "/users")) root p
    × (((n.handler ≡ some answer) × (n.middlewares ≡ []))
        ⊎ ((p ≢ q) × (outranks no_regex with_list.store q p ≡ false)))
    × (match_route no_regex (λ p. none) with_list list_users ≡ record {
      handler = some (node_handler no_regex (λ p. none) with_list n);
      allowed_methods = [];
      params = ps;
    })
unfolding create_router split read_segment get_path find effective_method get_header
    get_query_params lookup get_method
add_route-match_route_example =
    add_route-match_route no_regex (λ p. none) create_router with_list list_route list_users tt
      (refl, tt) (λ e. absurd (ground arith)) add_route-list_route refl refl
