-- ===== src/Routing/Inspector/Listing.antt =====
-- mycppwebfw/devtools/route_inspector.cpp: what list_routes lists.
use gin_cpp.Base.{
  ℕ, zero, suc, ◌+◌, ◌≤◌, ◌<◌, ◌≡◌, refl, sym, ap, subst, ◌∙◌, ◌↔◌, inl, inr, true, some, List, [],
  ◌∷◌, arith, if◌then◌else◌, Bool-cases, Option-cases, length, get_elem?, lt_of_get_elem?, Has,
  Has-append_left, Has-append_right, Has-append, All-Has, Text,
}
use gin_cpp.Routing.Trie.{TrieNode, Store}
use gin_cpp.Routing.Matcher.{has_handler}
use gin_cpp.Routing.Router.{Router}
use gin_cpp.Routing.Inspector.{
  RouteInfo, next_path, own_route, traverse_children, traverse_node, traverse_trie, list_trees,
  list_routes,
}
use gin_cpp.Routing.Inspector.Rising.{Between, IsRising}
use gin_cpp.Routing.Inspector.Built.{IsBuilt, IsBuilt-IsRising}

-- The keys that lead from one node to another.
abbrev pub Trail : Store → List Text → ℕ → ℕ → Type 0
Trail s [] p q = p ≡ q
Trail s (t ∷ ts) p q =
    (c : ℕ) × (n : TrieNode) × (get_elem? s p ≡ some n) × Has (t, c) n.children × Trail s ts c q

-- The path that is shown for some keys.
abbrev pub shown : Text → List Text → Text
shown path [] = path
shown path (t ∷ ts) = shown (next_path path t) ts

abbrev pub info_of : Text → Text → RouteInfo
info_of method path = record { method = method; path = path; handler_name = [] }

-- A node with a handler that can be reached, and what is shown of it.
abbrev pub IsListed : Store → Text → Text → ℕ → RouteInfo → Type 0
IsListed s method path p info =
    (segs : List Text) × (q : ℕ) × (n : TrieNode) × Trail s segs p q
    × (get_elem? s q ≡ some n)
    × (has_handler n ≡ true)
    × (info ≡ info_of method (shown path segs))

own_route-Has :
    (method path : Text) (n : TrieNode) (info : RouteInfo)
    → Has info (own_route method path n)
    → (has_handler n ≡ true) × (info ≡ info_of method path)
own_route-Has method path n info h = elim (Bool-cases (has_handler n)) [
  | inl e ↦ (e, one (subst (λ b. Has info (if b then info_of method path ∷ [] else [])) e h))
  | inr e ↦ absurd (subst (λ b. Has info (if b then info_of method path ∷ [] else [])) e h)
]
  where
    one : Has info (info_of method path ∷ []) → info ≡ info_of method path
    one (inl e) = sym e
    one (inr k) = absurd k

Has-own_route :
    (method path : Text) (n : TrieNode)
    → has_handler n ≡ true
    → Has (info_of method path) (own_route method path n)
Has-own_route method path n e =
    subst (λ b. Has (info_of method path) (if b then info_of method path ∷ [] else [])) (sym e)
      (inl refl)

module _ (s : Store) (method : Text) where
  children-Has :
      (visit : Text → ℕ → List RouteInfo) (path : Text) (cs : List (Text × ℕ)) (info : RouteInfo)
      → Has info (traverse_children s method visit path cs)
      → (t : Text) × (c : ℕ) × Has (t, c) cs × Has info (visit (next_path path t) c)
  unfolding traverse_children
  children-Has visit path [] info h = absurd h
  children-Has visit path ((t, c) ∷ cs) info h =
      elim (Has-append info (visit (next_path path t) c) (traverse_children s method visit path cs)
        h) [
          | inl k ↦ (t, c, inl refl, k)
          | inr k ↦ let (u, d, m, g) = children-Has visit path cs info k in (u, d, inr m, g)
        ]

  Has-children :
      (visit : Text → ℕ → List RouteInfo) (path : Text) (cs : List (Text × ℕ)) (info : RouteInfo)
      (t : Text) (c : ℕ)
      → Has (t, c) cs
      → Has info (visit (next_path path t) c)
      → Has info (traverse_children s method visit path cs)
  unfolding traverse_children
  Has-children visit path [] info t c m h = absurd m
  Has-children visit path ((u, d) ∷ cs) info t c (inl e) h =
      Has-append_left info (visit (next_path path u) d) (traverse_children s method visit path cs)
        (subst (λ (x : Text × ℕ). Has info (visit (next_path path x.0) x.1)) (sym e) h)
  Has-children visit path ((u, d) ∷ cs) info t c (inr m) h =
      Has-append_right info (visit (next_path path u) d) (traverse_children s method visit path cs)
        (Has-children visit path cs info t c m h)

  traverse_trie_sound :
      (fuel : ℕ) (path : Text) (p : ℕ) (info : RouteInfo)
      → Has info (traverse_trie s method fuel path p)
      → IsListed s method path p info
  unfolding traverse_trie
  traverse_trie_sound zero path p info h = absurd h
  traverse_trie_sound (suc fuel) path p info h = elim (Option-cases (get_elem? s p)) [
    | inl e ↦
        absurd
          (subst (λ o. Has info (traverse_node s method (traverse_trie s method fuel) path o)) e h)
    | inr (n, e) ↦
        elim (Has-append info (own_route method path n)
          (traverse_children s method (traverse_trie s method fuel) path n.children)
          (subst (λ o. Has info (traverse_node s method (traverse_trie s method fuel) path o)) e
            h)) [
              | inl k ↦ let (a, b) = own_route-Has method path n info k in ([], p, n, refl, e, a, b)
              | inr k ↦
                  let (t, c, m, g) =
                    children-Has (traverse_trie s method fuel) path n.children info k in
                  let (segs, q, n', w, e', a, b) =
                    traverse_trie_sound fuel (next_path path t) c info g in
                  (t ∷ segs, q, n', (c, n, e, m, w), e', a, b)
            ]
  ]

  traverse_trie_complete :
      (fuel : ℕ) (path : Text) (p : ℕ) (segs : List Text) (q : ℕ) (n : TrieNode)
      → length segs < fuel
      → Trail s segs p q
      → get_elem? s q ≡ some n
      → has_handler n ≡ true
      → Has (info_of method (shown path segs)) (traverse_trie s method fuel path p)
  unfolding traverse_trie
  traverse_trie_complete zero path p segs q n l w e a = absurd (omega (arith, l))
  traverse_trie_complete (suc fuel) path p [] q n l w e a =
      subst
        (λ o.
          Has (info_of method path) (traverse_node s method (traverse_trie s method fuel) path o))
        (sym (ap (get_elem? s) w ∙ e))
        (Has-append_left (info_of method path) (own_route method path n) _
          (Has-own_route method path n a))
  traverse_trie_complete (suc fuel) path p (t ∷ ts) q n l (c, m, f, k, w) e a =
      subst
        (λ o.
          Has (info_of method (shown (next_path path t) ts))
            (traverse_node s method (traverse_trie s method fuel) path o))
        (sym f)
        (Has-append_right (info_of method (shown (next_path path t) ts)) (own_route method path m) _
          (Has-children (traverse_trie s method fuel) path m.children
            (info_of method (shown (next_path path t) ts)) t c k
            (traverse_trie_complete fuel (next_path path t) c ts q n (omega (arith, l)) w e a)))

-- A trail climbs, so it is shorter than the store.
length-Trail :
    (s : Store) (segs : List Text) (p q : ℕ) → IsRising s → Trail s segs p q → p + length segs ≤ q
length-Trail s [] p q v w = omega (arith, w)
length-Trail s (t ∷ ts) p q v (c, n, e, h, w) = omega (
  arith,
  (All-Has (Between p (length s)) (t, c) n.children (v p n e) h).0,
  length-Trail s ts c q v w,
)

list_trees_sound :
    (s : Store) (trees : List (Text × ℕ)) (info : RouteInfo)
    → Has info (list_trees s trees)
    → (method : Text) × (root : ℕ) × Has (method, root) trees × IsListed s method [] root info
unfolding list_trees
list_trees_sound s [] info h = absurd h
list_trees_sound s ((m, root) ∷ trees) info h =
    elim (Has-append info (traverse_trie s m (length s) [] root) (list_trees s trees) h) [
      | inl k ↦ (m, root, inl refl, traverse_trie_sound s m (length s) [] root info k)
      | inr k ↦ let (m', r', g, l) = list_trees_sound s trees info k in (m', r', inr g, l)
    ]

list_trees_complete :
    (s : Store) (trees : List (Text × ℕ)) (info : RouteInfo) (method : Text) (root : ℕ)
    → IsRising s
    → Has (method, root) trees
    → IsListed s method [] root info
    → Has info (list_trees s trees)
unfolding list_trees
list_trees_complete s [] info method root v h l = absurd h
list_trees_complete s ((m, r) ∷ trees) info method root v (inl e) (segs, q, n, w, f, a, b) =
    Has-append_left info (traverse_trie s m (length s) [] r) (list_trees s trees) (
      subst (λ (x : Text × ℕ). Has info (traverse_trie s x.0 (length s) [] x.1)) (sym e)
        (subst (λ i. Has i (traverse_trie s method (length s) [] root)) (sym b)
          (traverse_trie_complete s method (length s) [] root segs q n
            (omega (arith, length-Trail s segs root q v w, lt_of_get_elem? s q n f)) w f a)))
list_trees_complete s ((m, r) ∷ trees) info method root v (inr h) l =
    Has-append_right info (traverse_trie s m (length s) [] r) (list_trees s trees)
      (list_trees_complete s trees info method root v h l)

-- Of a router made by the operations of the class, list_routes lists exactly the nodes with a handler that
-- keys of children lead to from the root of a method, each under its method, with the keys joined as its
-- path and no name: a listed route is such a node, and no such node is left out, so the recursion ends.
pub list_routes_iff :
    (r : Router) (info : RouteInfo)
    → IsBuilt r
    → Has info (list_routes r) ↔ (
        (method : Text) × (root : ℕ) × Has (method, root) r.trees
        × IsListed r.store method [] root info)
unfolding list_routes
list_routes_iff r info b = (
  list_trees_sound r.store r.trees info,
  λ (method, root, h, l).
      list_trees_complete r.store r.trees info method root (IsBuilt-IsRising b) h l,
)
