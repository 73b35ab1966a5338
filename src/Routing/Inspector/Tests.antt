-- ===== src/Routing/Inspector/Tests.antt =====
-- The inspector on a small router.
use gin_cpp.Base.{ℕ, ◌≡◌, refl, ◌↔◌, [], ◌∷◌, arith, Has, Text, codes, same, find, lookup, insert}
use gin_cpp.Base.Int.{pos}
use gin_cpp.Middleware.Script.{returned}
use gin_cpp.Routing.Trie.{HttpHandler, split, read_segment, descend_all}
use gin_cpp.Routing.Router.{Router, Result, ok, throws, undefined, create_router, Route, add_route}
use gin_cpp.Routing.Inspector.{next_path, list_routes}
use gin_cpp.Routing.Inspector.Built.{created, with_route}
use gin_cpp.Routing.Inspector.Listing.{IsListed, list_routes_iff, info_of}
use gin_cpp.Routing.Inspector.Added.{add_route-list_routes}

abbrev answer : HttpHandler
answer x = (x, returned)

abbrev route : Text → Route
route path = record {
  method = codes "GET";
  path = path;
  handler = answer;
  middlewares = [];
  name = [];
  priority = pos 0;
}

abbrev router_of : Result Router → Router
router_of (ok r) = r
router_of (throws t) = create_router
router_of undefined = create_router

abbrev one : Router
one = router_of (add_route create_router (route (codes "/users")))

abbrev two : Router
two = router_of (add_route one (route (codes "/users/:id")))

abbrev nested : Router
nested = router_of (add_route one (route (codes "/users/all")))

nested_lem : add_route one (route (codes "/users/all")) ≡ ok nested
unfolding add_route split same descend_all lookup create_router insert
nested_lem = refl

one_lem : add_route create_router (route (codes "/users")) ≡ ok one
unfolding add_route split same descend_all lookup create_router
one_lem = refl

two_lem : add_route one (route (codes "/users/:id")) ≡ ok two
unfolding add_route split same descend_all lookup create_router insert
two_lem = refl

list_routes_test :
    list_routes two
    ≡ record { method = codes "GET"; path = codes "users"; handler_name = [] }
      ∷ record { method = codes "GET"; path = codes "users/id"; handler_name = [] }
      ∷ []
unfolding list_routes add_route split same descend_all lookup create_router insert find
list_routes_test = refl

list_routes_iff_example :
    Has
      (record { method = codes "GET"; path = codes "users/id"; handler_name = [] })
      (list_routes two)
    ↔ ((method : Text) × (root : ℕ) × Has (method, root) two.trees
        × IsListed two.store method [] root
            (record { method = codes "GET"; path = codes "users/id"; handler_name = [] }))
list_routes_iff_example =
    list_routes_iff two
      (record { method = codes "GET"; path = codes "users/id"; handler_name = [] })
      (with_route (route (codes "/users/:id"))
        (with_route (route (codes "/users")) (created refl) one_lem) two_lem)

add_route-list_routes_example : Has (info_of (codes "GET") (codes "users/all")) (list_routes nested)
unfolding split read_segment next_path
add_route-list_routes_example =
    add_route-list_routes one nested (route (codes "/users/all"))
      (with_route (route (codes "/users")) (created refl) one_lem) (refl, (refl, tt))
      (λ e. absurd (ground arith)) nested_lem
