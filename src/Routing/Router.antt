-- ===== src/Routing/Router.antt =====
-- mycppwebfw/src/routing/router.cpp: Router and RouteGroup. LOG_* output has no place in the state. The files
-- that a static route serves and the regular expressions are arguments, as in Utils/Files and Routing/Matcher.
pub mod Group
pub mod Order
pub mod Urls
pub mod Growth
pub mod Walk
pub mod Installed
pub mod Found
mod Tests
use gin_cpp.Base.{
  ℕ, zero, suc, ◌+◌, ◌-◌, ◌*◌, ◌/◌, ◌%◌, ◌^◌, ◌≤◌, ◌<◌, ◌≡◌, refl, sym, ap, subst, ◌∙◌, ◌≢◌, ◌↔◌,
  ◌⊎◌, inl, inr, Bool, true, false, not, ◌&&◌, ◌||◌, Option, none, some, List, [], ◌∷◌, ◌++◌, map,
  arith, ltb, leb, ◌==◌, if◌then◌else◌, ltb→lt, lt→ltb, leb→le, ==_iff, ==_refl, Bool-cases,
  Option-cases, length, get_elem?, set, take, drop, replicate, is_empty, length-append,
  length-replicate, get_elem?-some_lt, get_elem?-none_le, lt_of_get_elem?, Has, Has-cons_map,
  Has-append_left, Has-append_right, Has-append, All-Has, length-set, get_elem?-set_self,
  get_elem?-set_ne, All, All-append, Text, codes, same, same→eq, same_refl, same_iff, apart,
  drop_two_length_append, Free-append, find, starts_with, find_text, contains_text, Free, find-Free,
  find-none-Free, find-append, Free-take-find, find_parts, take-length_append, drop-length_append,
  drop-suc-length_append, starts_with-append, starts_with_parts, lookup, insert, erase,
  lookup-insert, lookup-erase,
}
use gin_cpp.Base.Int.{ℤ, pos, negsuc, ltb_ℤ, is_zero}
use gin_cpp.Base.Sort.{sort}
use gin_cpp.Http.Request.{Request, get_method, get_path, get_header, get_query_params}
use gin_cpp.Http.Response.{bad_request}
use gin_cpp.Utils.Files.{handle_request}
use gin_cpp.Middleware.Script.{standard, Outcome, returned, threw}
use gin_cpp.Middleware.Chain.{Middleware, run_chain}
use gin_cpp.Middleware.Exchange.{Exchange}
use gin_cpp.Middleware.Handlers.{create_error_handler}
use gin_cpp.Routing.Trie.{
  HttpHandler, Middlewares, NodeType, static, parameter, wildcard, regex, TrieNode, Store, new_node,
  split, update, descend_all, descend_static,
}
use gin_cpp.Routing.Matcher.{Params, match}

pub record Router : Type 0 where
  pub store : Store
  pub trees : List (Text × ℕ)
  pub named_routes : List (Text × Text)
  pub global_middlewares : Middlewares

pub data Result (A : Type 0) : Type 0 where
  ok : A → Result A
  throws : Text → Result A
  undefined : Result A

unfoldable pub use_middleware : Router → Middleware Exchange → Router
use_middleware r m = record r { global_middlewares = r.global_middlewares ++ m ∷ [] }

-- The constructor.
unfoldable pub create_router : Router
unfolding use_middleware
create_router =
    use_middleware (record { store = []; trees = []; named_routes = []; global_middlewares = [] })
      create_error_handler

-- trees[method], allocated if it is not there.
unfoldable pub root_of : Router → Text → Router × ℕ
root_of r method = elim (lookup method r.trees) [
  | some p ↦ (r, p)
  | none ↦ (
    record r {
      store = r.store ++ new_node [] static ∷ [];
      trees = insert method (length r.store) r.trees;
    },
    length r.store,
  )
]

abbrev pub or_undefined : Router → Option Store → Result Router
or_undefined r none = undefined
or_undefined r (some store) = ok (record r { store = store })

-- The priority at the end of add_route.
unfoldable pub ranked : ℤ → TrieNode → ℤ
ranked priority node = if not (is_zero priority) then priority else elim node.type [
  | static ↦ pos 3
  | parameter ↦ pos 2
  | wildcard ↦ pos 1
  | regex ↦ node.priority
]

unfoldable pub install : HttpHandler → Middlewares → ℤ → TrieNode → TrieNode
unfolding ranked
install handler middlewares priority node = record node {
  handler = some handler;
  middlewares = middlewares;
  priority = ranked priority node;
}

unfoldable pub install_root : HttpHandler → Middlewares → TrieNode → TrieNode
install_root handler middlewares node = record node {
  is_catch_all = true;
  handler = some handler;
  middlewares = middlewares;
}

abbrev pub install_at : Router → HttpHandler → Middlewares → ℤ → Option (Store × ℕ) → Result Router
install_at r handler middlewares priority none = undefined
install_at r handler middlewares priority (some (store, p)) =
    or_undefined r (update store p (install handler middlewares priority))

-- add_route behind the check of the name.
unfoldable pub add_path : Router → Text → Text → HttpHandler → Middlewares → ℤ → Result Router
unfolding root_of install install_root
add_path r method path handler middlewares priority =
    let (r', root) = root_of r method in
    if same path (codes "/")
    then or_undefined r' (update r'.store root (install_root handler middlewares))
    else install_at r' handler middlewares priority (descend_all r'.store root (split path))

abbrev pub already_defined : Text → Text
already_defined name = codes "Route name '" ++ name ++ codes "' is already defined."

-- A route as its caller gives it; an empty name is no name.
pub record Route : Type 0 where
  pub method : Text
  pub path : Text
  pub handler : HttpHandler
  pub middlewares : Middlewares
  pub name : Text
  pub priority : ℤ

abbrev pub name_route : Router → Text → Text → Router
name_route r name path = record r { named_routes = insert name path r.named_routes }

unfoldable pub add_route : Router → Route → Result Router
unfolding add_path
add_route r route =
    if is_empty route.name
    then add_path r route.method route.path route.handler route.middlewares route.priority
    else elim (lookup route.name r.named_routes) [
      | some path ↦ throws (already_defined route.name)
      | none ↦
          add_path (name_route r route.name route.path) route.method route.path route.handler
            route.middlewares route.priority
    ]

abbrev pub serve_files : Text → TrieNode → TrieNode
serve_files base_dir node = record node { is_static_files = true; static_files_base_dir = base_dir }

unfoldable pub add_static_route : Router → Text → Text → Result Router
unfolding root_of
add_static_route r path base_dir =
    let (r', root) = root_of r (codes "GET") in
    elim (descend_static r'.store root (split path)) [
      | none ↦ undefined
      | some (store, p) ↦ or_undefined r' (update store p (serve_files base_dir))
    ]

abbrev pub replace_at : Text → Text → Text → Option ℕ → Text
replace_at path placeholder value none = path
replace_at path placeholder value (some i) =
    take i path ++ (value ++ drop (length placeholder) (drop i path))

-- url_for: one round for each parameter, in the map's order.
unfoldable pub fill : Text → List (Text × Text) → Text
fill path [] = path
fill path ((key, value) ∷ ps) =
    fill (replace_at path (b':' ∷ key) value (find_text path (b':' ∷ key))) ps

abbrev pub url_from : Option Text → List (Text × Text) → Text
url_from none params = []
url_from (some path) params = fill path params

unfoldable pub url_for : Router → Text → List (Text × Text) → Text
unfolding fill
url_for r name params = url_from (lookup name r.named_routes) params

-- The X-HTTP-Method-Override header, else the _method query parameter, else the method.
abbrev query_method : Text → Option Text → Text
query_method method none = method
query_method method (some m) = m

unfoldable pub effective_method : Request → Text
effective_method req =
    let override_header = get_header req (codes "X-HTTP-Method-Override") in
    if not (is_empty override_header)
    then override_header
    else query_method (get_method req) (lookup (codes "_method") (get_query_params req))

-- The comparison of std::sort on middlewares: operator<.
abbrev pub lower_priority : Middleware Exchange → Middleware Exchange → Bool
lower_priority a b = ltb_ℤ a.priority b.priority

-- The middlewares of a matched route, in the order in which they run.
unfoldable pub ordered_middlewares : Router → Middlewares → Middlewares
ordered_middlewares r ms = sort lower_priority (r.global_middlewares ++ ms)

pub record MatchResult : Type 0 where
  pub handler : Option HttpHandler
  pub allowed_methods : List Text
  pub params : List (Text × Text)

module _ (regex_match : Text → Text → Option Bool) (files : Text → Option Text) where
  abbrev pub serve : Text → HttpHandler
  serve base_dir x = (
    record x { response = (handle_request files base_dir x.request x.response).response },
    returned,
  )

  abbrev pub final_handler : Option HttpHandler → HttpHandler
  final_handler (some h) x = h x
  final_handler none x = (x, threw (standard (codes "bad_function_call")))

  -- The handler of a matched node. Calling an empty std::function throws.
  unfoldable pub node_handler : Router → TrieNode → HttpHandler
  unfolding ordered_middlewares
  node_handler r node = if node.is_static_files then serve node.static_files_base_dir else λ x.
      let run = run_chain (ordered_middlewares r node.middlewares) (final_handler node.handler) x in
      (run.state, run.outcome)

  abbrev pub refuse_method : HttpHandler
  refuse_method x = (record x { response = record response { status = bad_request } }, returned)
    where
      open x use {response}

  -- The other trees that match the path.
  unfoldable pub other_methods : Router → Text → Text → List (Text × ℕ) → List Text
  other_methods r method path [] = []
  other_methods r method path ((tree_method, root) ∷ ts) =
      let rest = other_methods r method path ts in
      if same tree_method method then rest else elim (match regex_match r.store root path []) [
        | none ↦ rest
        | some m ↦ tree_method ∷ rest
      ]

  -- The result where no node was found.
  unfoldable pub unmatched : Router → Text → Text → MatchResult
  unfolding other_methods
  unmatched r method path =
      let allowed = other_methods r method path r.trees in
      record {
        handler = if is_empty allowed then none else some refuse_method;
        allowed_methods = allowed;
        params = [];
      }

  abbrev pub matched : Router → Text → Text → Option (ℕ × Params) → MatchResult
  matched r method path none = unmatched r method path
  matched r method path (some (p, ps)) = elim (get_elem? r.store p) [
    | none ↦ unmatched r method path
    | some node ↦ record { handler = some (node_handler r node); allowed_methods = []; params = ps }
  ]

  -- The callers of `match` give it an empty map.
  abbrev pub tree_match : Router → Text → Option ℕ → Option (ℕ × Params)
  tree_match r path none = none
  tree_match r path (some root) = match regex_match r.store root path []

  unfoldable pub match_route : Router → Request → MatchResult
  unfolding effective_method
  match_route r req =
      matched r (effective_method req) (get_path req)
        (tree_match r (get_path req) (lookup (effective_method req) r.trees))
