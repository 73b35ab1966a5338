-- ===== src/Routing/Router/Found.antt =====
-- mycppwebfw/src/routing/router.cpp and route_matcher.cpp: routes after they have been added.
use gin_cpp.Base.{
  ℕ, ◌≡◌, sym, ap, ◌∙◌, ◌≢◌, ◌⊎◌, inl, inr, Bool, false, Option, none, some, List, [], arith,
  Bool-cases, some_inj, ◌==◌, ==_iff, get_elem?, All, Text, codes, lookup,
}
use gin_cpp.Routing.Trie.{TrieNode, Store, split}
use gin_cpp.Routing.Matcher.{Params, outranks, match}
use gin_cpp.Routing.Matcher.Reach.{Reaches}
use gin_cpp.Routing.Matcher.Best.{IsMatch, best, catch_all, nothing, match-IsMatch}
use gin_cpp.Http.Request.{Request, get_path}
use gin_cpp.Routing.Router.{
  node_handler, tree_match, matched, unmatched, effective_method, match_route, Router, ok, Route,
  add_route,
}
use gin_cpp.Routing.Router.Growth.{NoFiles}
use gin_cpp.Routing.Router.Walk.{IsPlainSegment, Walk, Walk-Reaches}
use gin_cpp.Routing.Router.Installed.{IsInstalled, IsInstalled-has_handler, add_route-Found}

-- What a path chooses where the node q is added: a node that it reaches, which is q or one that q does not
-- outrank.
abbrev pub Chooses : (Text → Text → Option Bool) → Store → List Text → ℕ → ℕ → ℕ → Type 0
Chooses regex_match s segs root q p =
    Reaches regex_match s segs root p × ((p ≡ q) ⊎ ((p ≢ q) × (outranks regex_match s q p ≡ false)))

match-Chooses :
    (regex_match : Text → Text → Option Bool) (s : Store) (root q : ℕ) (segs : List Text)
    (given : Params) (result : Option (ℕ × Params))
    → IsMatch regex_match s root segs given result
    → Reaches regex_match s segs root q
    → (p : ℕ) × (ps : Params) × (result ≡ some (p, ps))
      × Chooses regex_match s segs root q p
      × ((n : TrieNode) × (get_elem? s p ≡ some n))
match-Chooses regex_match s root q segs given result (best {q = p} {node = n} b first e m) reached =
    (
      p,
      _,
      m,
      (
        b,
        elim (Bool-cases (p == q)) [
          | inl k ↦ inl ((==_iff p q).0 k)
          | inr k ↦ inr (λ j. absurd (ground (arith, ==_iff p q, j, k)), first q reached)
        ],
      ),
      (n, e),
    )
match-Chooses regex_match s root q segs given result (catch_all n e c m) reached =
    absurd (n q reached)
match-Chooses regex_match s root q segs given result (nothing n e c m) reached =
    absurd (n q reached)

-- On a router with no static file routes, a route of plain segments (no parameter, wildcard or regular
-- expression) that add_route accepts, with a path other than "/", is found: the method has a tree, in which
-- the segments lead by the keys of children to a node with the route's handler and middlewares; and match on
-- the path, whatever parameters it is given, gives that node, or another one that the path reaches and that
-- this one does not outrank.
pub add_route-match :
    (regex_match : Text → Text → Option Bool) (r r' : Router) (route : Route) (given : Params)
    → NoFiles r.store
    → All IsPlainSegment (split route.path)
    → route.path ≢ codes "/"
    → add_route r route ≡ ok r'
    → (root : ℕ) × (q : ℕ) × (p : ℕ) × (ps : Params) × (lookup route.method r'.trees ≡ some root)
      × Walk r'.store (split route.path) root q
      × IsInstalled r'.store q route.handler route.middlewares
      × (match regex_match r'.store root route.path given ≡ some (p, ps))
      × Chooses regex_match r'.store (split route.path) root q p
      × ((n : TrieNode) × (get_elem? r'.store p ≡ some n))
add_route-match regex_match r r' route given h k d e =
    let (root, q, l, (n, at, has, ms), walk, kept) = add_route-Found r r' route k d e in
    let (reached, (m, at_root)) =
      Walk-Reaches regex_match r'.store (split route.path) root q n (kept h) at
        (IsInstalled-has_handler n route.handler has) walk in
    let (p, ps, f, o, x) =
      match-Chooses regex_match r'.store root q (split route.path) given _
        (match-IsMatch regex_match r'.store root route.path given m at_root) reached in
    (root, q, p, ps, l, walk, (n, at, has, ms), f, o, x)

-- On a router with no static file routes, after add_route has accepted a route of plain segments with a path
-- other than "/": match_route gives every request for that path, with that method after the overrides, the
-- handler of a node p of the trie that the path reaches, and no list of other methods. Either that node has the
-- route's handler and middlewares, or it is another one than the node that the route was installed in, and
-- is not outranked by it.
pub add_route-match_route :
    (regex_match : Text → Text → Option Bool) (files : Text → Option Text) (r r' : Router)
    (route : Route) (req : Request)
    → NoFiles r.store
    → All IsPlainSegment (split route.path)
    → route.path ≢ codes "/"
    → add_route r route ≡ ok r'
    → get_path req ≡ route.path
    → effective_method req ≡ route.method
    → (root : ℕ) × (q : ℕ) × (p : ℕ) × (n : TrieNode) × (ps : Params) × (lookup route.method
          r'.trees
        ≡ some root)
      × IsInstalled r'.store q route.handler route.middlewares
      × (get_elem? r'.store p ≡ some n)
      × Reaches regex_match r'.store (split route.path) root p
      × (((n.handler ≡ some route.handler) × (n.middlewares ≡ route.middlewares))
          ⊎ ((p ≢ q) × (outranks regex_match r'.store q p ≡ false)))
      × (match_route regex_match files r' req ≡ record {
        handler = some (node_handler regex_match files r' n);
        allowed_methods = [];
        params = ps;
      })
unfolding match_route
add_route-match_route regex_match files r r' route req h k d e same_path same_method =
    let (root, q, p, ps, l, walk, (x, at, has, ms), f, (reached, o), (n, g)) =
      add_route-match regex_match r r' route [] h k d e in
    (
      root,
      q,
      p,
      n,
      ps,
      l,
      (x, at, has, ms),
      g,
      reached,
      elim o [
        | inl same_node ↦
            let same : x ≡ n =
              some_inj x n (sym at ∙ ap (get_elem? r'.store) (sym same_node) ∙ g) in
            inl (sym (ap (λ y. y.handler) same) ∙ has, sym (ap (λ y. y.middlewares) same) ∙ ms)
        | inr other ↦ inr other
      ],
      ap
            (λ t.
              matched regex_match files r' t (get_path req)
                (tree_match regex_match files r' (get_path req) (lookup t r'.trees)))
            same_method
          ∙ ap
              (λ t.
                matched regex_match files r' route.method t
                  (tree_match regex_match files r' t (lookup route.method r'.trees)))
              same_path
          ∙ ap
              (λ t.
                matched regex_match files r' route.method route.path
                  (tree_match regex_match files r' route.path t))
              l
          ∙ ap (λ t. matched regex_match files r' route.method route.path t) f
          ∙ ap
              (λ t. elim t [
                | none ↦ unmatched regex_match files r' route.method route.path
                | some node ↦ record {
                  handler = some (node_handler regex_match files r' node);
                  allowed_methods = [];
                  params = ps;
                }
              ])
              g,
    )
