-- ===== src/Routing/Router/Group.antt =====
-- mycppwebfw/src/routing/router.cpp: RouteGroup. A callback that fills a group is a function of the group and the
-- router.
use gin_cpp.Base.{◌≡◌, refl, ◌++◌, Text}
use gin_cpp.Routing.Trie.{Middlewares}
use gin_cpp.Routing.Router.{Router, Result, Route, add_route}
use mathlib.Core.List.{append_assoc}

pub record RouteGroup : Type 0 where
  pub prefix : Text
  pub middlewares : Middlewares

unfoldable pub add_group_route : RouteGroup → Router → Route → Result Router
add_group_route g r route = add_route r (record route {
  path = g.prefix ++ route.path;
  middlewares = g.middlewares ++ route.middlewares;
})

-- The callback of `group`.
abbrev pub GroupRoutes : Type 0
GroupRoutes = RouteGroup → Router → Result Router

-- RouteGroup::group
unfoldable pub group : RouteGroup → Text → Middlewares → GroupRoutes → Router → Result Router
group g new_prefix group_middlewares group_routes r =
    group_routes
      (record { prefix = g.prefix ++ new_prefix; middlewares = g.middlewares ++ group_middlewares })
      r

-- Router::group, with its middlewares or with none.
unfoldable pub router_group : Text → Middlewares → GroupRoutes → Router → Result Router
router_group prefix middlewares group_routes r =
    group_routes (record { prefix = prefix; middlewares = middlewares }) r

abbrev pub with_path : Route → Text → Middlewares → Route
with_path route path ms = record route { path = path; middlewares = ms }

-- A route added in a group inside a group of the router is the router's route at the two prefixes and
-- the path joined, with the middlewares of the outer group, then of the inner one, then its own.
pub group_nested :
    (r : Router) (outer inner : Text) (ms ns : Middlewares) (route : Route)
    → router_group outer ms (λ g. group g inner ns (λ h s. add_group_route h s route)) r
      ≡ add_route r
          (with_path route (outer ++ (inner ++ route.path)) (ms ++ (ns ++ route.middlewares)))
unfolding router_group group add_group_route
group_nested r outer inner ms ns route =
    rw (append_assoc outer inner route.path, append_assoc ms ns route.middlewares) refl
