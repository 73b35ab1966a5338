-- ===== src/Routing/Inspector/Built.antt =====
-- mycppwebfw/src/routing/router.cpp: every operation keeps children behind their parents.
use gin_cpp.Base.{
  ℕ, ◌≡◌, refl, sym, ap, subst, ◌∙◌, inl, inr, true, some, List, [], ◌∷◌, arith, Bool-cases,
  Option-cases, some_inj, is_empty, Text, codes, same, lookup,
}
use gin_cpp.Base.Int.{ℤ}
use gin_cpp.Routing.Trie.{
  static, parameter, wildcard, regex, HttpHandler, Middlewares, Segment, TrieNode, Store, split,
  mark, update, child_of, and_then, visit, read_segment, descend, descend_all, descend_static,
}
use gin_cpp.Routing.Router.{
  Router, ok, create_router, root_of, or_undefined, install, install_root, install_at, add_path,
  Route, name_route, add_route, serve_files, add_static_route,
}
use gin_cpp.Routing.Router.Walk.{and_then-some}
use gin_cpp.Routing.Router.{use_middleware}
use gin_cpp.Routing.Router.Urls.{add_route-fresh, add_route-unnamed, add_route-taken}
use gin_cpp.Middleware.Chain.{Middleware}
use gin_cpp.Middleware.Exchange.{Exchange}
use gin_cpp.Routing.Router.Installed.{or_undefined-ok}
use gin_cpp.Routing.Inspector.Rising.{IsRising, append-IsRising, update-IsRising, child_of-IsRising}

mark-children : (seg : Segment) (n : TrieNode) → (mark seg n).children ≡ n.children
unfolding mark
mark-children seg n =
    elim seg.type
      as (λ t.
        (elim t as (λ _. TrieNode) [
          | static ↦ n
          | parameter ↦ record n {
            is_optional = seg.is_optional;
            default_value = seg.default_value;
          }
          | wildcard ↦ record n { is_wildcard = true }
          | regex ↦ record n { regex_pattern = seg.regex_pattern }
        ]).children
        ≡ n.children) [ static ↦ refl | parameter ↦ refl | wildcard ↦ refl | regex ↦ refl ]

visit-IsRising :
    (seg : Segment) (c r : Store × ℕ) → visit seg c ≡ some r → IsRising c.0 → IsRising r.0
visit-IsRising seg (s, p) r e v =
    let (s', u, w) = and_then-some (update s p (mark seg)) (λ s'. some (s', p)) r e in
    subst (λ (x : Store × ℕ). IsRising x.0) (some_inj (s', p) r w)
      (update-IsRising s s' p (mark seg) (mark-children seg) u v)

descend-IsRising :
    (s : Store) (current : ℕ) (text : Text) (r : Store × ℕ)
    → descend s current text ≡ some r
    → IsRising s
    → IsRising r.0
unfolding descend
descend-IsRising s current text r e v =
    let (seg, k, f) =
      and_then-some (read_segment text)
        (λ seg. and_then (child_of s current seg.part seg.type) (visit seg)) r e in
    let (c, g, h) = and_then-some (child_of s current seg.part seg.type) (visit seg) r f in
    visit-IsRising seg c r h (child_of-IsRising s current seg.part seg.type c g v)

descend_all-IsRising :
    (s : Store) (current : ℕ) (segs : List Text) (r : Store × ℕ)
    → descend_all s current segs ≡ some r
    → IsRising s
    → IsRising r.0
unfolding descend_all
descend_all-IsRising s current [] r e v =
    subst (λ (x : Store × ℕ). IsRising x.0) (some_inj (s, current) r e) v
descend_all-IsRising s current (t ∷ ts) r e v =
    let (c, k, l) = and_then-some (descend s current t) (λ r'. descend_all r'.0 r'.1 ts) r e in
    descend_all-IsRising c.0 c.1 ts r l (descend-IsRising s current t c k v)

descend_static-IsRising :
    (s : Store) (current : ℕ) (segs : List Text) (r : Store × ℕ)
    → descend_static s current segs ≡ some r
    → IsRising s
    → IsRising r.0
unfolding descend_static
descend_static-IsRising s current [] r e v =
    subst (λ (x : Store × ℕ). IsRising x.0) (some_inj (s, current) r e) v
descend_static-IsRising s current (t ∷ ts) r e v =
    elim (Option-cases (child_of s current t static)) [
      | inl k ↦ absurd (ground (arith, k, e))
      | inr ((s', p), k) ↦
          descend_static-IsRising s' p ts r (sym (rw (k, descend_static) refl) ∙ e)
            (child_of-IsRising s current t static (s', p) k v)
    ]

root_of-IsRising :
    (r : Router) (method : Text) → IsRising r.store → IsRising (root_of r method).0.store
unfolding root_of
root_of-IsRising r method v = elim (Option-cases (lookup method r.trees)) [
  | inl e ↦ rw (e, root_of) (append-IsRising r.store [] static v)
  | inr (p, e) ↦ rw (e, root_of) v
]

or_undefined-IsRising :
    (r r' : Router) (p : ℕ) (f : TrieNode → TrieNode) (s : Store)
    → ((n : TrieNode) → (f n).children ≡ n.children)
    → or_undefined r (update s p f) ≡ ok r'
    → IsRising s
    → IsRising r'.store
or_undefined-IsRising r r' p f s same_children e v =
    let (s', u, w) = or_undefined-ok r r' (update s p f) e in
    subst (λ (x : Router). IsRising x.store) (sym w) (update-IsRising s s' p f same_children u v)

install-children :
    (h : HttpHandler) (ms : Middlewares) (priority : ℤ) (n : TrieNode)
    → (install h ms priority n).children ≡ n.children
unfolding install
install-children h ms priority n = refl

install_root-children :
    (h : HttpHandler) (ms : Middlewares) (n : TrieNode)
    → (install_root h ms n).children ≡ n.children
unfolding install_root
install_root-children h ms n = refl

install_at-IsRising :
    (r r' : Router) (h : HttpHandler) (ms : Middlewares) (priority : ℤ) (root : ℕ)
    (segs : List Text)
    → IsRising r.store
    → install_at r h ms priority (descend_all r.store root segs) ≡ ok r'
    → IsRising r'.store
install_at-IsRising r r' h ms priority root segs v e =
    elim (Option-cases (descend_all r.store root segs)) [
      | inl k ↦ absurd (ground (arith, k, e))
      | inr ((s, p), k) ↦
          or_undefined-IsRising r r' p (install h ms priority) s (install-children h ms priority)
            (sym (ap (install_at r h ms priority) k) ∙ e)
            (descend_all-IsRising r.store root segs (s, p) k v)
    ]

add_path-IsRising :
    (r r' : Router) (method path : Text) (h : HttpHandler) (ms : Middlewares) (priority : ℤ)
    → IsRising r.store
    → add_path r method path h ms priority ≡ ok r'
    → IsRising r'.store
unfolding add_path
add_path-IsRising r r' method path h ms priority v e =
    let v' = root_of-IsRising r method v in
    elim (Bool-cases (same path (codes "/"))) [
      | inl k ↦
          or_undefined-IsRising (root_of r method).0 r' (root_of r method).1 (install_root h ms)
            (root_of r method).0.store (install_root-children h ms)
            (sym (rw (k, add_path) refl) ∙ e) v'
      | inr k ↦
          install_at-IsRising (root_of r method).0 r' h ms priority (root_of r method).1
            (split path) v' (sym (rw (k, add_path) refl) ∙ e)
    ]

add_route-IsRising :
    (r r' : Router) (route : Route)
    → IsRising r.store
    → add_route r route ≡ ok r'
    → IsRising r'.store
add_route-IsRising r r' route v e = elim (Bool-cases (is_empty route.name)) [
  | inl b ↦ added r v (sym (add_route-unnamed r route b) ∙ e)
  | inr b ↦ elim (Option-cases (lookup route.name r.named_routes)) [
    | inl l ↦ added (name_route r route.name route.path) v (sym (add_route-fresh r route b l) ∙ e)
    | inr (p, l) ↦ absurd (ground (arith, add_route-taken r route p b l, e))
  ]
]
  where
    added :
        (s : Router)
        → IsRising s.store
        → add_path s route.method route.path route.handler route.middlewares route.priority ≡ ok r'
        → IsRising r'.store
    added s w q =
        add_path-IsRising s r' route.method route.path route.handler route.middlewares
          route.priority w q

add_static_route-IsRising :
    (r r' : Router) (path base_dir : Text)
    → IsRising r.store
    → add_static_route r path base_dir ≡ ok r'
    → IsRising r'.store
unfolding add_static_route
add_static_route-IsRising r r' path base_dir v e =
    let s = (root_of r (codes "GET")).0 in
    let root = (root_of r (codes "GET")).1 in
    elim (Option-cases (descend_static s.store root (split path))) [
      | inl k ↦ absurd (ground (arith, k, e))
      | inr ((t, p), k) ↦
          or_undefined-IsRising s r' p (serve_files base_dir) t (λ n. refl)
            (sym (rw (k, add_static_route) refl) ∙ e)
            (descend_static-IsRising s.store root (split path) (t, p) k
              (root_of-IsRising r (codes "GET") v))
    ]

-- The routers that the operations of the class make.
pub data IsBuilt : Router → Type 0 where
  created : {r : Router} → r ≡ create_router → IsBuilt r
  with_middleware :
      {r s : Router} (m : Middleware Exchange) → IsBuilt s → r ≡ use_middleware s m → IsBuilt r
  with_route : {r s : Router} (route : Route) → IsBuilt s → add_route s route ≡ ok r → IsBuilt r
  with_files :
      {r s : Router} (path base_dir : Text)
      → IsBuilt s
      → add_static_route s path base_dir ≡ ok r
      → IsBuilt r

pub IsBuilt-IsRising : {r : Router} → IsBuilt r → IsRising r.store
unfolding create_router use_middleware
IsBuilt-IsRising (created e) =
    subst (λ (x : Router). IsRising x.store) (sym e) (λ p n k. absurd (ground (arith, k)))
IsBuilt-IsRising (with_middleware {r = r} {s = s} m b e) =
    subst (λ (x : Router). IsRising x.store) (sym e) (IsBuilt-IsRising b)
IsBuilt-IsRising (with_route {r = r} {s = s} route b e) =
    add_route-IsRising s r route (IsBuilt-IsRising b) e
IsBuilt-IsRising (with_files {r = r} {s = s} path base_dir b e) =
    add_static_route-IsRising s r path base_dir (IsBuilt-IsRising b) e
