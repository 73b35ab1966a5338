-- ===== src/Routing/Matcher.antt =====
-- mycppwebfw/src/routing/route_matcher.cpp. The regular expressions are the argument: `regex_match pattern s`
-- is whether s matches, or `none` if the pattern does not compile (std::regex_error, which is caught).
-- The parameters that find_matches carries along are never read, and have no place here.
pub mod Reach
mod Sound
pub mod Search
pub mod Best
pub mod Bindings
pub mod BindStep
pub mod Walks
use gin_cpp.Base.{
  ℕ, zero, suc, ◌+◌, ◌-◌, ◌*◌, ◌/◌, ◌%◌, ◌^◌, ◌≤◌, ◌<◌, ◌≡◌, refl, sym, ap, ◌∙◌, ◌≢◌, ◌↔◌, ◌⊎◌, inl,
  inr, Bool, true, false, not, ◌&&◌, ◌||◌, Option, none, some, List, [], ◌∷◌, ◌++◌, map, arith, ltb,
  leb, ◌==◌, if◌then◌else◌, ltb→lt, lt→ltb, leb→le, ==_iff, ==_refl, Bool-cases, Option-cases,
  length, get_elem?, set, take, drop, replicate, is_empty, length-append, length-replicate,
  get_elem?-some_lt, get_elem?-none_le, lt_of_get_elem?, Has, length-set, get_elem?-set_self,
  get_elem?-set_ne, All, All-append, Text, codes, same, same→eq, same_refl, same_iff, apart,
  drop_two_length_append, Free-append, find, starts_with, find_text, contains_text, Free, find-Free,
  find-none-Free, find-append, Free-take-find, find_parts, take-length_append, drop-length_append,
  drop-suc-length_append, starts_with-append, starts_with_parts, lookup, insert, erase,
  lookup-insert, lookup-erase,
}
use gin_cpp.Base.Int.{ℤ, pos, ltb_ℤ}
use gin_cpp.Base.Sort.{sort}
use gin_cpp.Routing.Trie.{
  NodeType, static, parameter, wildcard, regex, TrieNode, Store, new_node, split,
}

abbrev pub has_handler : TrieNode → Bool
has_handler node = elim node.handler [ none ↦ false | some h ↦ true ]

abbrev pub when : Bool → List ℕ → List ℕ
when b ps = if b then ps else []

-- Text of the segments from the current one on, with '/' between them.
unfoldable pub join : List Text → Text
join [] = []
join (s ∷ []) = s
join (s ∷ t ∷ ss) = s ++ b'/' ∷ join (t ∷ ss)

abbrev pub Params : Type 0
Params = List (Text × Text)

module _ (regex_match : Text → Text → Option Bool) (store : Store) where
  -- The optional children of a node at the end of the path.
  unfoldable pub optional_matches : List (Text × ℕ) → List ℕ
  optional_matches [] = []
  optional_matches ((key, p) ∷ cs) = elim (get_elem? store p) [
    | none ↦ optional_matches cs
    | some node ↦ when (node.is_optional && has_handler node) (p ∷ []) ++ optional_matches cs
  ]

  -- find_matches where segment_index == segments.size().
  unfoldable pub end_matches : ℕ → List ℕ
  unfolding optional_matches
  end_matches p = elim (get_elem? store p) [
    | none ↦ []
    | some node ↦
        if node.is_static_files
        then p ∷ []
        else when (has_handler node) (p ∷ []) ++ optional_matches node.children
  ]

  abbrev pub regex_accepts : Text → Text → Bool
  regex_accepts pattern seg = elim (regex_match pattern seg) [ none ↦ false | some b ↦ b ]

  -- The branches on the type of the child at p; `deeper` is find_matches at the next segment.
  unfoldable pub kind_matches : (ℕ → List ℕ) → Text → ℕ → Text → NodeType → List ℕ
  unfolding end_matches
  kind_matches deeper seg p pattern static = []
  kind_matches deeper seg p pattern parameter = deeper p
  kind_matches deeper seg p pattern wildcard = end_matches p
  kind_matches deeper seg p pattern regex = when (regex_accepts pattern seg) (deeper p)

  -- One child of the loop.
  unfoldable pub child_matches : (ℕ → List ℕ) → Text → ℕ → List ℕ
  unfolding kind_matches
  child_matches deeper seg p = elim (get_elem? store p) [
    | none ↦ []
    | some node ↦ kind_matches deeper seg p node.regex_pattern node.type
  ]

  unfoldable pub children_matches : (ℕ → List ℕ) → Text → List (Text × ℕ) → List ℕ
  unfolding child_matches
  children_matches deeper seg [] = []
  children_matches deeper seg ((key, p) ∷ cs) =
      child_matches deeper seg p ++ children_matches deeper seg cs

  -- The child under the segment itself, of whatever type.
  abbrev pub exact_matches : (ℕ → List ℕ) → Option ℕ → List ℕ
  exact_matches deeper none = []
  exact_matches deeper (some p) = deeper p

  -- find_matches: the pointers that it pushes, in order.
  unfoldable pub find_matches : List Text → ℕ → List ℕ
  unfolding children_matches
  find_matches [] p = end_matches p
  find_matches (seg ∷ segs) p = elim (get_elem? store p) [
    | none ↦ []
    | some node ↦
        if node.is_static_files
        then p ∷ []
        else exact_matches (find_matches segs) (lookup seg node.children)
          ++ children_matches (find_matches segs) seg node.children
  ]

  abbrev pub bind_part : Text → Text → Option Params → Option Params
  bind_part part value none = none
  bind_part part value (some ps) = some (insert part value ps)

  -- A call that returns false leaves out_params as they were, and the next one is tried.
  abbrev pub or_else : Option Params → Option Params → Option Params
  or_else none o = o
  or_else (some ps) o = some ps

  -- The branches on the type of the child at p.
  unfoldable pub kind_params :
      ℕ → (ℕ → Option Params) → Text → List Text → Params → ℕ → TrieNode → NodeType → Option Params
  unfolding join
  kind_params best deeper seg segs out p node static = none
  kind_params best deeper seg segs out p node parameter = bind_part node.part seg (deeper p)
  kind_params best deeper seg segs out p node wildcard =
      if p == best then some (insert node.part (join (seg ∷ segs)) out) else none
  kind_params best deeper seg segs out p node regex =
      if regex_accepts node.regex_pattern seg then bind_part node.part seg (deeper p) else none

  -- One child of the loop of recalculate_params.
  unfoldable pub child_params :
      ℕ → (ℕ → Option Params) → Text → List Text → Params → ℕ → Option Params
  unfolding kind_params
  child_params best deeper seg segs out p = elim (get_elem? store p) [
    | none ↦ none
    | some node ↦ kind_params best deeper seg segs out p node node.type
  ]

  unfoldable pub children_params :
      ℕ → (ℕ → Option Params) → Text → List Text → Params → List (Text × ℕ) → Option Params
  unfolding child_params
  children_params best deeper seg segs out [] = none
  children_params best deeper seg segs out ((key, p) ∷ cs) =
      or_else (child_params best deeper seg segs out p)
        (children_params best deeper seg segs out cs)

  abbrev pub exact_params : (ℕ → Option Params) → Option ℕ → Option Params
  exact_params deeper none = none
  exact_params deeper (some p) = deeper p

  -- recalculate_params: the parameters on success, `none` for false.
  unfoldable pub recalculate_params : ℕ → Params → List Text → ℕ → Option Params
  unfolding children_params
  recalculate_params best out [] p = if p == best then some out else none
  recalculate_params best out (seg ∷ segs) p = elim (get_elem? store p) [
    | none ↦ none
    | some node ↦
        or_else (exact_params (recalculate_params best out segs) (lookup seg node.children))
          (children_params best (recalculate_params best out segs) seg segs out node.children)
  ]

  abbrev pub priority_of : ℕ → ℤ
  priority_of p = elim (get_elem? store p) [ none ↦ pos 0 | some node ↦ node.priority ]

  -- The comparison of std::sort: a->priority > b->priority.
  abbrev pub outranks : ℕ → ℕ → Bool
  outranks a b = ltb_ℤ (priority_of b) (priority_of a)

  abbrev pub params_or_empty : Option Params → Params
  params_or_empty none = []
  params_or_empty (some ps) = ps

  unfoldable pub with_default : TrieNode → Params → Params
  with_default node ps =
      if node.is_optional && not (is_empty node.default_value)
      then elim (lookup node.part ps) [
        | none ↦ insert node.part node.default_value ps
        | some v ↦ ps
      ]
      else ps

  abbrev pub finish_match : List Text → ℕ → Params → List ℕ → Option (ℕ × Params)
  finish_match segs root params [] = elim (get_elem? store root) [
    | none ↦ none
    | some node ↦ if node.is_catch_all then some (root, params) else none
  ]
  finish_match segs root params (best ∷ others) = elim (get_elem? store best) [
    | none ↦ none
    | some node ↦
        some (best, with_default node (params_or_empty (recalculate_params best [] segs root)))
  ]

  -- RouteMatcher::match: the node, and what it leaves in the caller's `params`. At the return of nullptr, as at
  -- that of a catch-all, it leaves them as they were.
  unfoldable pub match : ℕ → Text → Params → Option (ℕ × Params)
  match root path params =
      finish_match (split path) root params (sort outranks (find_matches (split path) root))
