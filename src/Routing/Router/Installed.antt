-- ===== src/Routing/Router/Installed.antt =====
-- mycppwebfw/src/routing/router.cpp: the node that add_route installs a plain route in.
use gin_cpp.Base.{
  ℕ, ◌≡◌, refl, sym, ap, subst, ◌∙◌, ◌≢◌, ◌⊎◌, inl, inr, Bool, true, false, Option, none, some, [],
  ◌∷◌, arith, if◌then◌else◌, Bool-cases, Option-cases, length, get_elem?, is_empty, All, All-append,
  Text, codes, same, same_refl, lookup, lookup-insert,
}
use gin_cpp.Base.Int.{ℤ}
use gin_cpp.Routing.Trie.{
  HttpHandler, Middlewares, static, TrieNode, Store, new_node, split, update, descend_all,
}
use gin_cpp.Routing.Matcher.{has_handler}
use gin_cpp.Routing.Router.{
  Router, Result, ok, root_of, or_undefined, install, install_at, add_path, Route, name_route,
  add_route,
}
use gin_cpp.Routing.Router.Urls.{same_apart, add_route-fresh, add_route-unnamed, add_route-taken}
use gin_cpp.Routing.Router.Growth.{IsGrown, NoFiles, update-Extends}
use gin_cpp.Routing.Router.Walk.{IsPlainSegment, Walk, descend_all-Walk, Walk-Extends}

install-IsGrown :
    (handler : HttpHandler) (ms : Middlewares) (priority : ℤ) (n : TrieNode)
    → IsGrown n (install handler ms priority n)
unfolding install
install-IsGrown handler ms priority n = record {
  children = λ k c e. e;
  handled = λ e. refl;
  files = refl;
}

install-kept :
    (handler : HttpHandler) (ms : Middlewares) (priority : ℤ) (n : TrieNode)
    → ((install handler ms priority n).handler ≡ some handler)
      × ((install handler ms priority n).middlewares ≡ ms)
unfolding install
install-kept handler ms priority n = (refl, refl)

pub IsInstalled-has_handler :
    (n : TrieNode) (handler : HttpHandler) → n.handler ≡ some handler → has_handler n ≡ true
IsInstalled-has_handler n handler h = ap (λ o. elim o [ none ↦ false | some g ↦ true ]) h

root_of-NoFiles :
    (r : Router) (method : Text) → NoFiles r.store → NoFiles (root_of r method).0.store
unfolding root_of
root_of-NoFiles r method h = elim (Option-cases (lookup method r.trees)) [
  | inl e ↦
      rw (e, root_of)
        (All-append (λ n. n.is_static_files ≡ false) r.store (new_node [] static ∷ []) h (refl, tt))
  | inr (p, e) ↦ rw (e, root_of) h
]

root_of-lookup :
    (r : Router) (method : Text)
    → lookup method (root_of r method).0.trees ≡ some (root_of r method).1
unfolding root_of
root_of-lookup r method = elim (Option-cases (lookup method r.trees)) [
  | inl e ↦
      rw (e, root_of)
        (lookup-insert method method (length r.store) r.trees
          ∙ ap (λ (b : Bool). if b then some (length r.store) else lookup method r.trees)
              (same_refl method))
  | inr (p, e) ↦ rw (e, root_of) e
]

-- A node with the handler and the middlewares of a route, as the code installs them.
abbrev pub IsInstalled : Store → ℕ → HttpHandler → Middlewares → Type 0
IsInstalled s q handler ms =
    (n : TrieNode) × (get_elem? s q ≡ some n) × (n.handler ≡ some handler) × (n.middlewares ≡ ms)

-- What add_path leaves for a plain path: the root of the method, and a node with the handler that the
-- segments lead to by the keys of children.
abbrev pub Found : Store → Router → Text → Text → HttpHandler → Middlewares → Type 0
Found before r' method path handler ms =
    (root : ℕ) × (q : ℕ) × (lookup method r'.trees ≡ some root)
    × IsInstalled r'.store q handler ms
    × Walk r'.store (split path) root q
    × (NoFiles before → NoFiles r'.store)

pub or_undefined-ok :
    (r r' : Router) (o : Option Store)
    → or_undefined r o ≡ ok r'
    → (s : Store) × (o ≡ some s) × (r' ≡ record r { store = s })
or_undefined-ok r r' none e = absurd (ground arith)
or_undefined-ok r r' (some s) e = (s, refl, ok_inj e)
  where
    of : Result Router → Router
    of (ok x) = x
    of _ = r

    ok_inj : ok (record r { store = s }) ≡ ok r' → r' ≡ record r { store = s }
    ok_inj q = sym (ap of q)

update-some :
    (s s' : Store) (p : ℕ) (f : TrieNode → TrieNode)
    → update s p f ≡ some s'
    → (n : TrieNode) × (get_elem? s p ≡ some n)
unfolding update
update-some s s' p f e = elim (Option-cases (get_elem? s p)) [
  | inl k ↦ absurd (ground (arith, k, e))
  | inr (n, k) ↦ (n, k)
]

install_at-Found :
    (before : Store) (r r' : Router) (method path : Text) (root : ℕ) (handler : HttpHandler)
    (ms : Middlewares) (priority : ℤ) (o : Option (Store × ℕ))
    → descend_all r.store root (split path) ≡ o
    → lookup method r.trees ≡ some root
    → (NoFiles before → NoFiles r.store)
    → All IsPlainSegment (split path)
    → install_at r handler ms priority o ≡ ok r'
    → Found before r' method path handler ms
install_at-Found before r r' method path root handler ms priority none d l h k e =
    absurd (ground arith)
install_at-Found before r r' method path root handler ms priority (some (s1, q)) d l h k e =
    let (s2, u, v) = or_undefined-ok r r' (update s1 q (install handler ms priority)) e in
    let (x, f, w) = descend_all-Walk r.store root (split path) (s1, q) k d in
    let (x', f', i) =
      update-Extends s1 s2 q (install handler ms priority) (install-IsGrown handler ms priority)
        u in
    subst (λ y. Found before y method path handler ms) (sym v)
      (let (n, at) = update-some s1 s2 q (install handler ms priority) u in
        (
          root,
          q,
          l,
          (
            install handler ms priority n,
            i n at,
            (install-kept handler ms priority n).0,
            (install-kept handler ms priority n).1,
          ),
          Walk-Extends s1 s2 (split path) root q x' w,
          λ j. f' (f (h j)),
        ))

add_path-Found :
    (before : Store) (r r' : Router) (method path : Text) (handler : HttpHandler) (ms : Middlewares)
    (priority : ℤ)
    → (NoFiles before → NoFiles r.store)
    → All IsPlainSegment (split path)
    → same path (codes "/") ≡ false
    → add_path r method path handler ms priority ≡ ok r'
    → Found before r' method path handler ms
unfolding add_path
add_path-Found before r r' method path handler ms priority h k c e =
    install_at-Found before (root_of r method).0 r' method path (root_of r method).1 handler ms
      priority (descend_all (root_of r method).0.store (root_of r method).1 (split path)) refl
      (root_of-lookup r method) (λ j. root_of-NoFiles r method (h j)) k
      (sym (rw (c, add_path) refl) ∙ e)

pub add_route-Found :
    (r r' : Router) (route : Route)
    → All IsPlainSegment (split route.path)
    → route.path ≢ codes "/"
    → add_route r route ≡ ok r'
    → Found r.store r' route.method route.path route.handler route.middlewares
add_route-Found r r' route k d e = go (Bool-cases (is_empty route.name))
  where
    added :
        (s : Router)
        → (NoFiles r.store → NoFiles s.store)
        → add_path s route.method route.path route.handler route.middlewares route.priority ≡ ok r'
        → Found r.store r' route.method route.path route.handler route.middlewares
    added s n q =
        add_path-Found r.store s r' route.method route.path route.handler route.middlewares
          route.priority n k (same_apart route.path (codes "/") d) q

    go :
        (is_empty route.name ≡ true) ⊎ (is_empty route.name ≡ false)
        → Found r.store r' route.method route.path route.handler route.middlewares
    go (inl b) = added r (λ j. j) (sym (add_route-unnamed r route b) ∙ e)
    go (inr b) = elim (Option-cases (lookup route.name r.named_routes)) [
      | inl l ↦
          added (name_route r route.name route.path) (λ j. j)
            (sym (add_route-fresh r route b l) ∙ e)
      | inr (p, l) ↦ absurd (ground (arith, add_route-taken r route p b l, e))
    ]
