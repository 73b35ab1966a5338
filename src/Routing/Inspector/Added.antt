-- ===== src/Routing/Inspector/Added.antt =====
-- mycppwebfw/devtools/route_inspector.cpp and mycppwebfw/src/routing/router.cpp: added routes in the list.
use gin_cpp.Base.{
  ℕ, ◌≡◌, refl, subst, ◌≢◌, inl, inr, some, List, [], ◌∷◌, arith, if◌then◌else◌, Bool-cases,
  some_inj, Has, All, Text, codes, same, same→eq, lookup,
}
use gin_cpp.Routing.Trie.{Store, split}
use gin_cpp.Routing.Router.{Router, ok, Route, add_route}
use gin_cpp.Routing.Router.Walk.{IsPlainSegment, Walk}
use gin_cpp.Routing.Router.Installed.{IsInstalled-has_handler, add_route-Found}
use gin_cpp.Routing.Inspector.{list_routes}
use gin_cpp.Routing.Inspector.Built.{IsBuilt, with_route}
use gin_cpp.Routing.Inspector.Listing.{Trail, shown, info_of, list_routes_iff}

lookup-Has :
    {A : Type 0} (k : Text) (v : A) (xs : List (Text × A)) → lookup k xs ≡ some v → Has (k, v) xs
unfolding lookup
lookup-Has k v [] e = absurd (ground arith)
lookup-Has k v ((t, w) ∷ xs) e = elim (Bool-cases (same t k)) [
  | inl q ↦ inl (λ i. (
    same→eq t k q i,
    some_inj w v (subst (λ b. (if b then some w else lookup k xs) ≡ some v) q e) i,
  ))
  | inr q ↦ inr (lookup-Has k v xs (subst (λ b. (if b then some w else lookup k xs) ≡ some v) q e))
]

Walk-Trail : (s : Store) (segs : List Text) (p q : ℕ) → Walk s segs p q → Trail s segs p q
Walk-Trail s [] p q w = w
Walk-Trail s (t ∷ ts) p q (c, (n, e, l), w) =
    (c, n, e, lookup-Has t c n.children l, Walk-Trail s ts c q w)

-- On a router made by the operations of the class, a route of plain segments with a path other than "/" that
-- add_route accepts is listed afterwards: list_routes has an entry with its method, an empty name, and the
-- segments of its path joined.
pub add_route-list_routes :
    (r r' : Router) (route : Route)
    → IsBuilt r
    → All IsPlainSegment (split route.path)
    → route.path ≢ codes "/"
    → add_route r route ≡ ok r'
    → Has (info_of route.method (shown [] (split route.path))) (list_routes r')
add_route-list_routes r r' route b k d e =
    let (root, q, l, (n, at, has, ms), walk, kept) = add_route-Found r r' route k d e in
    (list_routes_iff r' (info_of route.method (shown [] (split route.path)))
        (with_route route b e)).1
      (
        route.method,
        root,
        lookup-Has route.method root r'.trees l,
        (
          split route.path,
          q,
          n,
          Walk-Trail r'.store (split route.path) root q walk,
          at,
          IsInstalled-has_handler n route.handler has,
          refl,
        ),
      )
