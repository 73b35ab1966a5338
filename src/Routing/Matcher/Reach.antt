-- ===== src/Routing/Matcher/Reach.antt =====
-- Which nodes a path reaches, as a relation on the store that does not use the search.
use gin_cpp.Base.{
  ℕ, ◌≡◌, Bool, true, false, ◌&&◌, Option, some, List, [], ◌∷◌, get_elem?, Has, Text, lookup,
}
use gin_cpp.Routing.Trie.{parameter, wildcard, regex, TrieNode, Store}
use gin_cpp.Routing.Matcher.{has_handler, regex_accepts}

module _ (regex_match : Text → Text → Option Bool) (store : Store) where
  -- The nodes that a path offers where it ends at `p`.
  pub data EndsAt (p q : ℕ) : Type 0 where
    files :
        {node : TrieNode}
        → get_elem? store p ≡ some node
        → node.is_static_files ≡ true
        → p ≡ q
        → EndsAt p q
    own :
        {node : TrieNode}
        → get_elem? store p ≡ some node
        → node.is_static_files ≡ false
        → has_handler node ≡ true
        → p ≡ q
        → EndsAt p q
    optional :
        {node child : TrieNode} (key : Text)
        → get_elem? store p ≡ some node
        → node.is_static_files ≡ false
        → Has (key, q) node.children
        → get_elem? store q ≡ some child
        → (child.is_optional && has_handler child) ≡ true
        → EndsAt p q

  -- A child takes a segment with the rest of the path: by its kind alone.
  pub data Takes (Deeper : ℕ → ℕ → Type 0) (seg : Text) (c q : ℕ) : Type 0 where
    by_parameter :
        {child : TrieNode}
        → get_elem? store c ≡ some child
        → child.type ≡ parameter
        → Deeper c q
        → Takes Deeper seg c q
    by_wildcard :
        {child : TrieNode}
        → get_elem? store c ≡ some child
        → child.type ≡ wildcard
        → EndsAt c q
        → Takes Deeper seg c q
    by_regex :
        {child : TrieNode}
        → get_elem? store c ≡ some child
        → child.type ≡ regex
        → regex_accepts regex_match store child.regex_pattern seg ≡ true
        → Deeper c q
        → Takes Deeper seg c q

  -- The nodes that a path of at least one segment offers from `p`.
  pub data Passes (Deeper : ℕ → ℕ → Type 0) (seg : Text) (p q : ℕ) : Type 0 where
    at_files :
        {node : TrieNode}
        → get_elem? store p ≡ some node
        → node.is_static_files ≡ true
        → p ≡ q
        → Passes Deeper seg p q
    by_key :
        {node : TrieNode} {c : ℕ}
        → get_elem? store p ≡ some node
        → node.is_static_files ≡ false
        → lookup seg node.children ≡ some c
        → Deeper c q
        → Passes Deeper seg p q
    by_child :
        {node : TrieNode} (key : Text) {c : ℕ}
        → get_elem? store p ≡ some node
        → node.is_static_files ≡ false
        → Has (key, c) node.children
        → Takes Deeper seg c q
        → Passes Deeper seg p q

  -- `Reaches segs p q`: from the node p, a request for the segments may be given to the node q.
  abbrev pub Reaches : List Text → ℕ → ℕ → Type 0
  Reaches [] = EndsAt
  Reaches (seg ∷ segs) = Passes (Reaches segs) seg
