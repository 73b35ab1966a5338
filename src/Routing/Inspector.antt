-- ===== src/Routing/Inspector.antt =====
-- mycppwebfw/devtools/route_inspector.cpp: the routes that the developer tool lists.
pub mod Rising
pub mod Built
pub mod Listing
pub mod Added
mod Tests
use gin_cpp.Base.{
  ℕ, zero, suc, ◌+◌, ◌-◌, ◌*◌, ◌/◌, ◌%◌, ◌^◌, ◌≤◌, ◌<◌, ◌≡◌, refl, sym, ap, subst, ◌∙◌, ◌≢◌, ◌↔◌,
  ◌⊎◌, inl, inr, Bool, true, false, not, ◌&&◌, ◌||◌, Option, none, some, List, [], ◌∷◌, ◌++◌, map,
  arith, ltb, leb, ◌==◌, if◌then◌else◌, ltb→lt, lt→ltb, leb→le, ==_iff, ==_refl, Bool-cases,
  Option-cases, some_inj, length, get_elem?, set, take, drop, replicate, is_empty, length-append,
  length-replicate, get_elem?-some_lt, get_elem?-none_le, lt_of_get_elem?, Has, Has-cons_map,
  Has-append_left, Has-append_right, Has-append, All-Has, length-set, get_elem?-set_self,
  get_elem?-set_ne, All, All-append, Text, codes, same, same→eq, same_refl, same_iff, apart,
  drop_two_length_append, Free-append, find, starts_with, find_text, contains_text, Free, find-Free,
  find-none-Free, find-append, Free-take-find, find_parts, take-length_append, drop-length_append,
  drop-suc-length_append, starts_with-append, starts_with_parts, lookup, insert, erase,
  lookup-insert, lookup-erase,
}
use gin_cpp.Routing.Trie.{TrieNode, Store, ends_with}
use gin_cpp.Routing.Matcher.{has_handler}
use gin_cpp.Routing.Router.{Router}

pub record RouteInfo : Type 0 where
  pub method : Text
  pub path : Text
  pub handler_name : Text

-- The path of a child.
unfoldable pub next_path : Text → Text → Text
next_path current_path key =
    (if not (is_empty current_path) && not (ends_with current_path b'/')
      then current_path ++ codes "/"
      else current_path)
    ++ key

abbrev pub own_route : Text → Text → TrieNode → List RouteInfo
own_route method current_path node =
    if has_handler node
    then record { method = method; path = current_path; handler_name = [] } ∷ []
    else []

module _ (store : Store) (method : Text) where
  -- The loop over the children; `visit` is the call on a child.
  unfoldable pub traverse_children :
      (Text → ℕ → List RouteInfo) → Text → List (Text × ℕ) → List RouteInfo
  unfolding next_path
  traverse_children visit current_path [] = []
  traverse_children visit current_path ((key, p) ∷ cs) =
      visit (next_path current_path key) p ++ traverse_children visit current_path cs

  abbrev pub traverse_node : (Text → ℕ → List RouteInfo) → Text → Option TrieNode → List RouteInfo
  traverse_node visit current_path none = []
  traverse_node visit current_path (some node) =
      own_route method current_path node ++ traverse_children visit current_path node.children

  -- traverse_trie, what it pushes, at most `fuel` calls deep.
  unfoldable pub traverse_trie : ℕ → Text → ℕ → List RouteInfo
  unfolding traverse_children
  traverse_trie zero current_path p = []
  traverse_trie (suc fuel) current_path p =
      traverse_node (traverse_trie fuel) current_path (get_elem? store p)

-- The loop over the trees.
unfoldable pub list_trees : Store → List (Text × ℕ) → List RouteInfo
unfolding traverse_trie
list_trees store [] = []
list_trees store ((method, root) ∷ trees) =
    traverse_trie store method (length store) [] root ++ list_trees store trees

unfoldable pub list_routes : Router → List RouteInfo
unfolding list_trees
list_routes r = list_trees r.store r.trees
