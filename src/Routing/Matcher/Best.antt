-- ===== src/Routing/Matcher/Best.antt =====
-- mycppwebfw/src/routing/route_matcher.cpp: which of the matches is taken.
use gin_cpp.Base.{
  ℕ, ◌≡◌, refl, sym, ap, subst, inl, inr, Bool, true, false, Option, none, some, List, [], ◌∷◌,
  arith, if◌then◌else◌, Bool-cases, get_elem?, Has, All-Has, All, Text,
}
use gin_cpp.Base.Sort.{sort, sort-Has, IsFirst, sort-IsFirst}
use gin_cpp.Routing.Trie.{TrieNode, Store, split}
use gin_cpp.Routing.Matcher.{
  Params, find_matches, recalculate_params, outranks, params_or_empty, with_default, finish_match,
  match,
}
use gin_cpp.Routing.Matcher.Reach.{
  EndsAt, files, own, optional, by_parameter, by_wildcard, by_regex, at_files, by_key, by_child,
  Reaches,
}
use gin_cpp.Routing.Matcher.Search.{find_matches_iff}

module _ (regex_match : Text → Text → Option Bool) (store : Store) where
  abbrev IsNode : ℕ → Type 0
  IsNode q = (node : TrieNode) × (get_elem? store q ≡ some node)

  EndsAt-IsNode : (p q : ℕ) → EndsAt regex_match store p q → IsNode q
  EndsAt-IsNode p q (files {node} e f s) = (node, (rw (← s) e))
  EndsAt-IsNode p q (own {node} e f o s) = (node, (rw (← s) e))
  EndsAt-IsNode p q (optional {node} {child} key e f m c o) = (child, c)

  Reaches-IsNode : (segs : List Text) (p q : ℕ) → Reaches regex_match store segs p q → IsNode q
  Reaches-IsNode [] p q r = EndsAt-IsNode p q r
  Reaches-IsNode (seg ∷ segs) p q (at_files {node} e f s) = (node, (rw (← s) e))
  Reaches-IsNode (seg ∷ segs) p q (by_key {c} e f l r) = Reaches-IsNode segs c q r
  Reaches-IsNode (seg ∷ segs) p q (by_child key {c} e f m (by_parameter g k r)) =
      Reaches-IsNode segs c q r
  Reaches-IsNode (seg ∷ segs) p q (by_child key {c} e f m (by_wildcard g k r)) = EndsAt-IsNode c q r
  Reaches-IsNode (seg ∷ segs) p q (by_child key {c} e f m (by_regex g k a r)) =
      Reaches-IsNode segs c q r

  -- The specification of a match from the root over the segments.
  pub data IsMatch (root : ℕ) (segs : List Text) (given : Params) (result : Option (ℕ × Params))
      : Type 0 where
    best :
        {q : ℕ} {node : TrieNode}
        → Reaches regex_match store segs root q
        → ((p : ℕ) → Reaches regex_match store segs root p → outranks regex_match store p q ≡ false)
        → get_elem? store q ≡ some node
        → result
          ≡ some (
            q,
            with_default regex_match store node (
                params_or_empty regex_match store
                  (recalculate_params regex_match store q [] segs root)),
          )
        → IsMatch root segs given result
    catch_all :
        {node : TrieNode}
        → ((p : ℕ) → ¬ Reaches regex_match store segs root p)
        → get_elem? store root ≡ some node
        → node.is_catch_all ≡ true
        → result ≡ some (root, given)
        → IsMatch root segs given result
    nothing :
        {node : TrieNode}
        → ((p : ℕ) → ¬ Reaches regex_match store segs root p)
        → get_elem? store root ≡ some node
        → node.is_catch_all ≡ false
        → result ≡ none
        → IsMatch root segs given result

  outranks_asym :
      (p q : ℕ) → outranks regex_match store p q ≡ true → outranks regex_match store q p ≡ false
  outranks_asym p q h = ground arith

  outranks_below :
      (p q r : ℕ)
      → outranks regex_match store p q ≡ false
      → outranks regex_match store q r ≡ false
      → outranks regex_match store p r ≡ false
  outranks_below p q r h k = ground arith

  finish_match-IsMatch :
      (root : ℕ) (segs : List Text) (given : Params) (node : TrieNode) (sorted : List ℕ)
      → get_elem? store root ≡ some node
      → sorted ≡ sort (outranks regex_match store) (find_matches regex_match store segs root)
      → IsMatch root segs given (finish_match regex_match store segs root given sorted)
  finish_match-IsMatch root segs given node [] e s = elim (Bool-cases node.is_catch_all) [
    | inl c ↦
        catch_all unreached e c
          (rw (e, finish_match) (ap (λ (b : Bool). if b then some (root, given) else none) c))
    | inr c ↦
        nothing unreached e c
          (rw (e, finish_match) (ap (λ (b : Bool). if b then some (root, given) else none) c))
  ]
    where
      unreached : (p : ℕ) → ¬ Reaches regex_match store segs root p
      unreached p r = subst (Has p) (sym s) (
          (sort-Has (outranks regex_match store) p _).1
            ((find_matches_iff regex_match store segs root p).1 r))
  finish_match-IsMatch root segs given node (q ∷ others) e s =
      let (found, at_q) = Reaches-IsNode segs root q reached in
      best reached first at_q (rw (at_q, finish_match) refl)
    where
      reached : Reaches regex_match store segs root q
      reached =
          (find_matches_iff regex_match store segs root q).0
            ((sort-Has (outranks regex_match store) q _).0 (subst (Has q) s (inl refl)))

      all_below :
          All
            (λ p. outranks regex_match store p q ≡ false)
            (find_matches regex_match store segs root)
      all_below =
          subst
            (λ l.
              IsFirst (outranks regex_match store) outranks_asym outranks_below l
                (find_matches regex_match store segs root))
            (sym s)
            (sort-IsFirst (outranks regex_match store) outranks_asym outranks_below
              (find_matches regex_match store segs root))

      first :
          (p : ℕ) → Reaches regex_match store segs root p → outranks regex_match store p q ≡ false
      first p r =
          All-Has (λ n. outranks regex_match store n q ≡ false) p _ all_below
            ((find_matches_iff regex_match store segs root p).1 r)

  -- For a root that is in the store, `match` gives a node that the path reaches and that no other node
  -- reached by the path outranks by priority, with the parameters that recalculate_params
  -- finds for that node, none if it finds no walk to it, and with the default value of the node; where the
  -- path reaches no node it gives the root if that is a catch-all, with the parameters as the caller gave
  -- them, and nothing otherwise.
  pub match-IsMatch :
      (root : ℕ) (path : Text) (given : Params) (node : TrieNode)
      → get_elem? store root ≡ some node
      → IsMatch root (split path) given (match regex_match store root path given)
  unfolding match
  match-IsMatch root path given node e = finish_match-IsMatch root (split path) given node _ e refl
