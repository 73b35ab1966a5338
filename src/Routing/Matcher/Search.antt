-- ===== src/Routing/Matcher/Search.antt =====
-- mycppwebfw/src/routing/route_matcher.cpp: find_matches over the segments of a path.
use gin_cpp.Base.{
  ℕ, ◌≡◌, refl, sym, ap, subst, ◌↔◌, ◌⊎◌, inl, inr, Bool, false, Option, none, some, List, [], ◌∷◌,
  Option-cases, get_elem?, Has, Has-append_left, Has-append_right, Has-append, Text, lookup,
}
use gin_cpp.Routing.Trie.{NodeType, static, parameter, wildcard, regex, TrieNode, Store}
use gin_cpp.Routing.Matcher.{
  regex_accepts, kind_matches, child_matches, children_matches, exact_matches, find_matches,
}
use gin_cpp.Routing.Matcher.Reach.{
  Takes, by_parameter, by_wildcard, by_regex, Passes, at_files, by_key, by_child, Reaches,
}
use gin_cpp.Routing.Matcher.Sound.{
  Has-if, Has-if_true, Has-if_false, single, when-Has, end_matches_sound, end_matches_complete,
}

module _ (regex_match : Text → Text → Option Bool) (store : Store) where
  -- What is known of the matches at the next segment.
  module _ (deeper : ℕ → List ℕ) (D : ℕ → ℕ → Type 0) (seg : Text) where
    kind_matches_sound :
        ((c q : ℕ) → Has q (deeper c) → D c q)
        → (c q : ℕ) (child : TrieNode) (t : NodeType) → get_elem? store c ≡ some child
        → child.type ≡ t
        → Has q (kind_matches regex_match store deeper seg c child.regex_pattern t)
        → Takes regex_match store D seg c q
    unfolding kind_matches
    kind_matches_sound f c q child static e k h = absurd h
    kind_matches_sound f c q child parameter e k h = by_parameter e k (f c q h)
    kind_matches_sound f c q child wildcard e k h =
        by_wildcard e k (end_matches_sound regex_match store c q h)
    kind_matches_sound f c q child regex e k h =
        elim (Has-if (regex_accepts regex_match store child.regex_pattern seg) q (deeper c) [] h) [
          | inl (r, j) ↦ by_regex e k r (f c q j)
          | inr (r, j) ↦ absurd j
        ]

    child_matches_sound :
        ((c q : ℕ) → Has q (deeper c) → D c q)
        → (c q : ℕ) → Has q (child_matches regex_match store deeper seg c)
        → Takes regex_match store D seg c q
    unfolding child_matches
    child_matches_sound f c q h = elim (Option-cases (get_elem? store c)) [
      | inl e ↦ absurd (rw (e, child_matches) at h)
      | inr (child, e) ↦
          kind_matches_sound f c q child child.type e refl (rw (e, child_matches) at h)
    ]

    children_matches_sound :
        ((c q : ℕ) → Has q (deeper c) → D c q)
        → (cs : List (Text × ℕ)) (q : ℕ) → Has q (children_matches regex_match store deeper seg cs)
        → (key : Text) × (c : ℕ) × Has (key, c) cs × Takes regex_match store D seg c q
    unfolding children_matches
    children_matches_sound f [] q h = absurd h
    children_matches_sound f ((key, c) ∷ cs) q h =
        elim (Has-append q (child_matches regex_match store deeper seg c) _ h) [
          | inl j ↦ (key, c, inl refl, child_matches_sound f c q j)
          | inr j ↦ let (k, d, m, t) = children_matches_sound f cs q j in (k, d, inr m, t)
        ]

    kind_matches_complete :
        ((c q : ℕ) → D c q → Has q (deeper c))
        → (c q : ℕ) → Takes regex_match store D seg c q
        → Has q (child_matches regex_match store deeper seg c)
    unfolding child_matches
    kind_matches_complete f c q (by_parameter {child} e k d) =
        rw (e, child_matches)
          (subst (λ t. Has q (kind_matches regex_match store deeper seg c child.regex_pattern t))
            (sym k) (f c q d))
    kind_matches_complete f c q (by_wildcard {child} e k d) =
        rw (e, child_matches)
          (subst (λ t. Has q (kind_matches regex_match store deeper seg c child.regex_pattern t))
            (sym k) (end_matches_complete regex_match store c q d))
    kind_matches_complete f c q (by_regex {child} e k r d) =
        rw (e, child_matches)
          (subst (λ t. Has q (kind_matches regex_match store deeper seg c child.regex_pattern t))
            (sym k) (when-Has _ q (deeper c) r (f c q d)))

    children_matches_complete :
        ((c q : ℕ) → D c q → Has q (deeper c))
        → (cs : List (Text × ℕ)) (key : Text) (c q : ℕ) → Has (key, c) cs
        → Takes regex_match store D seg c q
        → Has q (children_matches regex_match store deeper seg cs)
    unfolding children_matches
    children_matches_complete f [] key c q h t = absurd h
    children_matches_complete f ((k, d) ∷ cs) key c q (inl e) t =
        let same_node : c ≡ d = ap (λ (r : Text × ℕ). r.1) (sym e) in
        Has-append_left q _ _
          (kind_matches_complete f d q (subst (λ n. Takes regex_match store D seg n q) same_node t))
    children_matches_complete f ((k, d) ∷ cs) key c q (inr h) t =
        Has-append_right q _ _ (children_matches_complete f cs key c q h t)

  find_matches_sound :
      (segs : List Text) (p q : ℕ)
      → Has q (find_matches regex_match store segs p)
      → Reaches regex_match store segs p q
  unfolding find_matches
  find_matches_sound [] p q h = end_matches_sound regex_match store p q h
  find_matches_sound (seg ∷ segs) p q h =
      passes (find_matches_sound segs) (Option-cases (get_elem? store p))
    where
      deeper : ℕ → List ℕ
      deeper = find_matches regex_match store segs

      exact :
          ((c q' : ℕ) → Has q' (deeper c) → Reaches regex_match store segs c q')
          → (node : TrieNode) (o : Option ℕ) → get_elem? store p ≡ some node
          → node.is_static_files ≡ false
          → lookup seg node.children ≡ o
          → Has q (exact_matches regex_match store deeper o)
          → Passes regex_match store (Reaches regex_match store segs) seg p q
      exact ih node none e f l k = absurd k
      exact ih node (some c) e f l k = by_key e f l (ih c q k)

      passes :
          ((c q' : ℕ) → Has q' (deeper c) → Reaches regex_match store segs c q')
          → (get_elem? store p ≡ none) ⊎ ((node : TrieNode) × (get_elem? store p ≡ some node))
          → Passes regex_match store (Reaches regex_match store segs) seg p q
      passes ih (inl e) = absurd (rw (e, find_matches) at h)
      passes ih (inr (node, e)) =
          elim (Has-if node.is_static_files q _ _ (rw (e, find_matches) at h)) [
            | inl (f, k) ↦ at_files e f (single p q k)
            | inr (f, k) ↦
                elim (Has-append q
                  (exact_matches regex_match store deeper (lookup seg node.children)) _ k) [
                    | inl j ↦ exact ih node (lookup seg node.children) e f refl j
                    | inr j ↦
                        let (key, c, m, t) =
                          children_matches_sound deeper (Reaches regex_match store segs) seg ih
                            node.children q j in
                        by_child key e f m t
                  ]
          ]

  find_matches_complete :
      (segs : List Text) (p q : ℕ)
      → Reaches regex_match store segs p q
      → Has q (find_matches regex_match store segs p)
  unfolding find_matches
  find_matches_complete [] p q r = end_matches_complete regex_match store p q r
  find_matches_complete (seg ∷ segs) p q (at_files {node} e f s) =
      rw (e, find_matches) (Has-if_true node.is_static_files q _ _ f (inl s))
  find_matches_complete (seg ∷ segs) p q (by_key {node} e f l r) =
      rw (e, find_matches)
        (Has-if_false node.is_static_files q _ _ f (
          Has-append_left q _ _ (
            subst
              (λ o. Has q (exact_matches regex_match store (find_matches regex_match store segs) o))
              (sym l) (find_matches_complete segs _ q r))))
  find_matches_complete (seg ∷ segs) p q (by_child {node} key {c} e f m t) =
      rw (e, find_matches)
        (Has-if_false node.is_static_files q _ _ f (
          Has-append_right q _ _ (
            children_matches_complete (find_matches regex_match store segs)
              (Reaches regex_match store segs) seg (find_matches_complete segs) node.children key c
              q m t)))

  -- The search lists exactly the nodes that the path reaches: a static file root on the way, or, at the
  -- end of the path, a node with a handler or its optional child with one, over children that take
  -- their segment by their key, as a parameter, by a regular expression, or the rest as a wildcard.
  pub find_matches_iff :
      (segs : List Text) (p q : ℕ)
      → Has q (find_matches regex_match store segs p) ↔ Reaches regex_match store segs p q
  find_matches_iff segs p q = (find_matches_sound segs p q, find_matches_complete segs p q)
