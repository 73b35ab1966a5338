-- ===== src/Routing/Trie.antt =====
-- mycppwebfw/include/mycppwebfw/routing/router.h (TrieNode) and the part of mycppwebfw/src/routing/router.cpp that
-- builds a tree. The nodes live in a store, in the order of their allocation; a shared_ptr<TrieNode> is
-- an index into it, so pointer equality is equality of indices and no node is ever freed.
use gin_cpp.Base.{
  ℕ, ◌+◌, Bool, true, false, ◌&&◌, Option, none, some, List, [], ◌∷◌, ◌++◌, ◌==◌, if◌then◌else◌,
  length, get_elem?, set, take, drop, is_empty, Text, codes, find, lookup, insert,
}
use gin_cpp.Base.Int.{ℤ, pos}
use gin_cpp.Middleware.Script.{Outcome}
use gin_cpp.Middleware.Chain.{Middleware}
use gin_cpp.Middleware.Exchange.{Exchange}

abbrev pub HttpHandler : Type 0
HttpHandler = Exchange → Exchange × Outcome

abbrev pub Middlewares : Type 0
Middlewares = List (Middleware Exchange)

pub data NodeType : Type 0 where
  static parameter wildcard regex : NodeType

-- A null `handler` is `none`. The children's order is the order in which the loops visit them.
pub record TrieNode : Type 0 where
  pub part : Text
  pub type : NodeType
  pub children : List (Text × ℕ)
  pub handler : Option HttpHandler
  pub middlewares : Middlewares
  pub is_wildcard : Bool
  pub is_catch_all : Bool
  pub is_static_files : Bool
  pub static_files_base_dir : Text
  pub is_optional : Bool
  pub default_value : Text
  pub regex_pattern : Text
  pub priority : ℤ

abbrev pub Store : Type 0
Store = List TrieNode

-- The constructor of TrieNode.
abbrev pub new_node : Text → NodeType → TrieNode
new_node part type = record {
  part = part;
  type = type;
  children = [];
  handler = none;
  middlewares = [];
  is_wildcard = false;
  is_catch_all = false;
  is_static_files = false;
  static_files_base_dir = [];
  is_optional = false;
  default_value = [];
  regex_pattern = [];
  priority = pos 0;
}

-- The getline loop on '/' that drops empty segments; `seg` is the segment being read.
unfoldable pub split_from : Text → Text → List Text
split_from seg [] = if is_empty seg then [] else seg ∷ []
split_from seg (c ∷ s) =
    let closed = if is_empty seg then split_from [] s else seg ∷ split_from [] s in
    let longer = split_from (seg ++ c ∷ []) s in if c == b'/' then closed else longer

unfoldable pub split : Text → List Text
unfolding split_from
split path = split_from [] path

-- What add_route reads off one segment.
pub record Segment : Type 0 where
  pub type : NodeType
  pub part : Text
  pub is_optional : Bool
  pub default_value : Text
  pub regex_pattern : Text

abbrev pub ends_with : Text → ℕ → Bool
ends_with [] c = false
ends_with (a ∷ []) c = a == c
ends_with (a ∷ b ∷ s) c = ends_with (b ∷ s) c

-- s.substr(0, s.length() - 1), and pop_back.
abbrev pub drop_last : Text → Text
drop_last [] = []
drop_last (a ∷ []) = []
drop_last (a ∷ b ∷ s) = a ∷ drop_last (b ∷ s)

abbrev at_equals : Bool → Text → Option ℕ → Segment
at_equals optional part none = record {
  type = parameter;
  part = part;
  is_optional = optional;
  default_value = [];
  regex_pattern = [];
}
at_equals optional part (some i) = record {
  type = parameter;
  part = take i part;
  is_optional = true;
  default_value = drop (i + 1) part;
  regex_pattern = [];
}

unfoldable pub parameter_segment : Text → Segment
parameter_segment part =
    let optional = ends_with part b'?' in
    let name = if optional then drop_last part else part in at_equals optional name (find name b'=')

abbrev at_colon : Text → Option ℕ → Segment
at_colon content none = record {
  type = regex;
  part = content;
  is_optional = false;
  default_value = [];
  regex_pattern = codes ".*";
}
at_colon content (some i) = record {
  type = regex;
  part = take i content;
  is_optional = false;
  default_value = [];
  regex_pattern = drop (i + 1) content;
}

unfoldable pub regex_segment : Text → Segment
regex_segment content = at_colon content (find content b':')

abbrev pub plain_segment : NodeType → Text → Segment
plain_segment type part = record {
  type = type;
  part = part;
  is_optional = false;
  default_value = [];
  regex_pattern = [];
}

-- `none` is undefined behaviour: part.back() of the empty text that the segment ":" leaves. A segment
-- from `split` is not empty, and its front is its first byte.
unfoldable pub read_segment : Text → Option Segment
unfolding parameter_segment regex_segment
read_segment [] = none
read_segment (c ∷ s) =
    if c == b':'
    then (if is_empty s then none else some (parameter_segment s))
    else if c == b'*'
    then some (plain_segment wildcard s)
    else if (c == b'<') && ends_with (c ∷ s) b'>'
    then some (regex_segment (drop_last s))
    else some (plain_segment static (c ∷ s))

-- What a visit of an existing or a new node writes.
unfoldable pub mark : Segment → TrieNode → TrieNode
mark seg node = elim seg.type [
  | static ↦ node
  | parameter ↦ record node { is_optional = seg.is_optional; default_value = seg.default_value }
  | wildcard ↦ record node { is_wildcard = true }
  | regex ↦ record node { regex_pattern = seg.regex_pattern }
]

-- *p = f(*p); a dangling pointer is undefined behaviour.
unfoldable pub update : Store → ℕ → (TrieNode → TrieNode) → Option Store
update store p f = elim (get_elem? store p) [
  | none ↦ none
  | some node ↦ some (set store p (f node))
]

abbrev pub link : Text → ℕ → TrieNode → TrieNode
link part p node = record node { children = insert part p node.children }

abbrev pub link_child : Store → ℕ → Text → NodeType → TrieNode → Option ℕ → Store × ℕ
link_child store current part type node (some p) = (store, p)
link_child store current part type node none =
    (set store current (link part (length store) node) ++ new_node part type ∷ [], length store)

-- current->children[part], allocated if it is not there.
unfoldable pub child_of : Store → ℕ → Text → NodeType → Option (Store × ℕ)
unfolding update
child_of store current part type = elim (get_elem? store current) [
  | none ↦ none
  | some node ↦ some (link_child store current part type node (lookup part node.children))
]

abbrev pub and_then : {A B : Type 0} → Option A → (A → Option B) → Option B
and_then none f = none
and_then (some a) f = f a

-- What is written to the child of a segment.
abbrev pub visit : Segment → Store × ℕ → Option (Store × ℕ)
visit seg (store, p) = and_then (update store p (mark seg)) (λ store'. some (store', p))

-- The body of the loop over the segments.
unfoldable pub descend : Store → ℕ → Text → Option (Store × ℕ)
unfolding read_segment mark child_of
descend store current text =
    and_then (read_segment text)
      λ seg. and_then (child_of store current seg.part seg.type) (visit seg)

unfoldable pub descend_all : Store → ℕ → List Text → Option (Store × ℕ)
unfolding descend
descend_all store current [] = some (store, current)
descend_all store current (seg ∷ segs) =
    and_then (descend store current seg) λ r. descend_all r.0 r.1 segs

-- The loop of add_static_route, which makes every node static.
unfoldable pub descend_static : Store → ℕ → List Text → Option (Store × ℕ)
unfolding child_of
descend_static store current [] = some (store, current)
descend_static store current (seg ∷ segs) = elim (child_of store current seg static) [
  | none ↦ none
  | some (store', p) ↦ descend_static store' p segs
]
