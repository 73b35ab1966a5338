-- ===== src/Routing/Router/Urls.antt =====
-- mycppwebfw/src/routing/router.cpp: names of routes, and the URLs made from them.
use gin_cpp.Base.{
  ℕ, ◌≡◌, refl, sym, ap, subst, ◌∙◌, ◌≢◌, inl, inr, Bool, true, false, Option, none, some, List, [],
  ◌∷◌, ◌++◌, arith, if◌then◌else◌, Bool-cases, Option-cases, length, drop, is_empty, Text, codes,
  same, same→eq, same_refl, starts_with, find_text, Free, take-length_append, drop-length_append,
  starts_with-append, lookup, insert, lookup-insert,
}
use gin_cpp.Base.Int.{ℤ}
use gin_cpp.Routing.Trie.{update, HttpHandler, Middlewares, Store}
use gin_cpp.Routing.Router.{
  Router, Result, ok, throws, undefined, root_of, or_undefined, install_at, install, add_path,
  already_defined, Route, name_route, add_route, replace_at, fill, url_from, url_for,
}

abbrev Keeps : Router → Result Router → Type 0
Keeps r (ok r') = r'.named_routes ≡ r.named_routes
Keeps r (throws message) = ⊥
Keeps r undefined = Unit

or_undefined-Keeps :
    (r r' : Router) (o : Option Store)
    → r'.named_routes ≡ r.named_routes
    → Keeps r (or_undefined r' o)
or_undefined-Keeps r r' none e = tt
or_undefined-Keeps r r' (some store) e = e

root_of-named : (r : Router) (method : Text) → (root_of r method).0.named_routes ≡ r.named_routes
unfolding root_of
root_of-named r method = elim (Option-cases (lookup method r.trees)) [
  | inl e ↦ rw (e, root_of) refl
  | inr (p, e) ↦ rw (e, root_of) refl
]

install_at-Keeps :
    (r r' : Router) (handler : HttpHandler) (ms : Middlewares) (priority : ℤ)
    (o : Option (Store × ℕ))
    → r'.named_routes ≡ r.named_routes
    → Keeps r (install_at r' handler ms priority o)
install_at-Keeps r r' handler ms priority none e = tt
install_at-Keeps r r' handler ms priority (some (store, p)) e =
    or_undefined-Keeps r r' (update store p (install handler ms priority)) e

-- add_path leaves the names alone.
add_path-Keeps :
    (r : Router) (method path : Text) (handler : HttpHandler) (ms : Middlewares) (priority : ℤ)
    → Keeps r (add_path r method path handler ms priority)
unfolding add_path
add_path-Keeps r method path handler ms priority = elim (Bool-cases (same path (codes "/"))) [
  | inl c ↦ rw (c, add_path) (or_undefined-Keeps r (root_of r method).0 _ (root_of-named r method))
  | inr c ↦
      rw (c, add_path)
        (install_at-Keeps r (root_of r method).0 handler ms priority _ (root_of-named r method))
]

is_empty_nil : (t : Text) → is_empty t ≡ true → t ≡ []
is_empty_nil [] e = refl
is_empty_nil (c ∷ t) e = absurd (ground arith)

pub same_apart : (s t : Text) → s ≢ t → same s t ≡ false
same_apart s t d = elim (Bool-cases (same s t)) [ inl e ↦ absurd (d (same→eq s t e)) | inr e ↦ e ]

abbrev pub path_added : Router → Route → Result Router
path_added r route =
    add_path (name_route r route.name route.path) route.method route.path route.handler
      route.middlewares route.priority

pub add_route-fresh :
    (r : Router) (route : Route)
    → is_empty route.name ≡ false
    → lookup route.name r.named_routes ≡ none
    → add_route r route ≡ path_added r route
unfolding add_route
add_route-fresh r route k l = rw (k, l, add_route) refl

pub add_route-unnamed :
    (r : Router) (route : Route)
    → is_empty route.name ≡ true
    → add_route r route
      ≡ add_path r route.method route.path route.handler route.middlewares route.priority
unfolding add_route
add_route-unnamed r route k = rw (k, add_route) refl

pub add_route-taken :
    (r : Router) (route : Route) (path : Text)
    → is_empty route.name ≡ false
    → lookup route.name r.named_routes ≡ some path
    → add_route r route ≡ throws (already_defined route.name)
unfolding add_route
add_route-taken r route path k l = rw (k, l, add_route) refl

-- A successful add_route of a name: the name was new, its URLs are made from the path of the route,
-- and those of every other name are as before.
pub url_for-add_route :
    (r r' : Router) (route : Route)
    → add_route r route ≡ ok r'
    → route.name ≢ []
    → (lookup route.name r.named_routes ≡ none)
      × ((ps : List (Text × Text)) → url_for r' route.name ps ≡ fill route.path ps)
      × ((name : Text) (ps : List (Text × Text))
          → name ≢ route.name
          → url_for r' name ps ≡ url_for r name ps)
unfolding url_for
url_for-add_route r r' route e n =
    go (is_empty route.name) refl (lookup route.name r.named_routes) refl
  where
    Claim : Type 0
    Claim =
        (lookup route.name r.named_routes ≡ none)
        × ((ps : List (Text × Text)) → url_for r' route.name ps ≡ fill route.path ps)
        × ((name : Text) (ps : List (Text × Text))
            → name ≢ route.name
            → url_for r' name ps ≡ url_for r name ps)

    named :
        is_empty route.name ≡ false
        → lookup route.name r.named_routes ≡ none
        → r'.named_routes ≡ insert route.name route.path r.named_routes
    named k l =
        subst (Keeps (name_route r route.name route.path)) (sym (add_route-fresh r route k l) ∙ e) (
          add_path-Keeps (name_route r route.name route.path) route.method route.path route.handler
            route.middlewares route.priority)

    go :
        (b : Bool)
        → is_empty route.name ≡ b
        → (o : Option Text) → lookup route.name r.named_routes ≡ o
        → Claim
    go true k o l = absurd (n (is_empty_nil route.name k))
    go false k (some path) l = absurd (ground (arith, add_route-taken r route path k l, e))
    go false k none l = (
      l,
      λ ps.
          ap (λ m. url_from (lookup route.name m) ps) (named k l)
          ∙ ap (λ o. url_from o ps)
              (lookup-insert route.name route.name route.path r.named_routes
                ∙ ap (λ (b : Bool). if b then some route.path else lookup route.name r.named_routes)
                    (same_refl route.name)),
      λ name ps d.
          ap (λ m. url_from (lookup name m) ps) (named k l)
          ∙ ap (λ o. url_from o ps)
              (lookup-insert route.name name route.path r.named_routes
                ∙ ap (λ (b : Bool). if b then some route.path else lookup name r.named_routes)
                    (same_apart route.name name (λ q. d (sym q)))),
    )

find_text-placeholder :
    (pre key post : Text)
    → Free b':' pre
    → find_text (pre ++ b':' ∷ (key ++ post)) (b':' ∷ key) ≡ some (length pre)
unfolding find_text starts_with
find_text-placeholder [] key post f = rw (starts_with-append key post) refl
find_text-placeholder (c ∷ pre) key post f = ground (arith, find_text-placeholder pre key post f.1)

-- For a named path whose first ':' begins the placeholder of a key, url_for with a value for the key
-- puts the value in its place and leaves the rest of the path.
pub url_for-placeholder :
    (r : Router) (name pre key post value : Text)
    → lookup name r.named_routes ≡ some (pre ++ b':' ∷ (key ++ post))
    → Free b':' pre
    → url_for r name ((key, value) ∷ []) ≡ pre ++ (value ++ post)
unfolding url_for fill
url_for-placeholder r name pre key post value l f =
    ap (λ o. url_from o ((key, value) ∷ [])) l
    ∙ ap (replace_at (pre ++ b':' ∷ (key ++ post)) (b':' ∷ key) value)
        (find_text-placeholder pre key post f)
    ∙ ap
        (λ t.
          t
          ++ (value
              ++ drop (length (b':' ∷ key)) (drop (length pre) (pre ++ b':' ∷ (key ++ post)))))
        (take-length_append pre (b':' ∷ (key ++ post)))
    ∙ ap (λ t. pre ++ (value ++ drop (length (b':' ∷ key)) t))
        (drop-length_append pre (b':' ∷ (key ++ post)))
    ∙ ap (λ t. pre ++ (value ++ t)) (drop-length_append key post)
