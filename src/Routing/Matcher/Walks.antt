-- ===== src/Routing/Matcher/Walks.antt =====
-- mycppwebfw/src/routing/route_matcher.cpp: the parameters that a match gives.
use gin_cpp.Base.{
  ℕ, ◌≡◌, refl, sym, ap, subst, ◌∙◌, ◌⊎◌, inl, inr, Bool, true, Option, none, some, List, [], ◌∷◌,
  arith, ◌==◌, if◌then◌else◌, ==_iff, Bool-cases, Option-cases, some_inj, get_elem?, Has, Text,
  lookup,
}
use gin_cpp.Routing.Trie.{TrieNode, Store, split}
use gin_cpp.Routing.Matcher.{Params, recalculate_params, params_or_empty, with_default, match}
use gin_cpp.Routing.Matcher.Best.{IsMatch, best, catch_all, nothing, match-IsMatch}
use gin_cpp.Routing.Matcher.Bindings.{
  Takes, by_key, by_child, Binds, Answers, found, none_there, Answers-map, Answers-or_else,
}
use gin_cpp.Routing.Matcher.BindStep.{children_params-ByChild, exact_params-ByKey}

module _ (regex_match : Text → Text → Option Bool) (store : Store) (goal : ℕ) where
  -- The search finds the parameters of a walk to the goal if there is a walk, and nothing otherwise.
  pub recalculate_params-Binds :
      (segs : List Text) (p : ℕ)
      → Answers regex_match store goal
          (Binds regex_match store goal segs p)
          (recalculate_params regex_match store goal [] segs p)
  unfolding recalculate_params
  recalculate_params-Binds [] p = elim (Bool-cases (p == goal)) [
    | inl e ↦ found (ap (λ (b : Bool). if b then some [] else none) e) ((==_iff p goal).0 e, refl)
    | inr e ↦
        none_there (ap (λ (b : Bool). if b then some [] else none) e)
          (λ ps (d, h). ground (arith, e, d))
  ]
  recalculate_params-Binds (seg ∷ segs) p = elim (Option-cases (get_elem? store p)) [
    | inl e ↦ none_there (rw (e, recalculate_params) refl) (no_node e)
    | inr (node, e) ↦
        Answers-map regex_match store goal (λ ps. Key node ps ⊎ Child node ps)
          (Binds regex_match store goal (seg ∷ segs) p) _ _ (sym (rw (e, recalculate_params) refl))
          (forth node e) (back node e)
          (Answers-or_else regex_match store goal (Key node) (Child node) _ _
            (exact_params-ByKey regex_match store goal deeper (Binds regex_match store goal segs)
              seg segs (recalculate_params-Binds segs) (lookup seg node.children))
            (children_params-ByChild regex_match store goal deeper
              (Binds regex_match store goal segs) seg segs (recalculate_params-Binds segs)
              node.children))
  ]
    where
      deeper : ℕ → Option Params
      deeper = recalculate_params regex_match store goal [] segs

      Key : TrieNode → Params → Type 0
      Key node ps =
          (c : ℕ) × (lookup seg node.children ≡ some c) × Binds regex_match store goal segs c ps

      Child : TrieNode → Params → Type 0
      Child node ps =
          (key : Text) × (c : ℕ) × Has (key, c) node.children
          × Takes regex_match store goal (Binds regex_match store goal segs) seg segs c ps

      forth :
          (node : TrieNode)
          → get_elem? store p ≡ some node
          → (ps : Params) → Key node ps ⊎ Child node ps
          → Binds regex_match store goal (seg ∷ segs) p ps
      forth node e ps (inl (c, l, d)) = by_key e l d
      forth node e ps (inr (key, c, h, w)) = by_child key e h w

      back :
          (node : TrieNode)
          → get_elem? store p ≡ some node
          → (ps : Params) → Binds regex_match store goal (seg ∷ segs) p ps
          → Key node ps ⊎ Child node ps
      back node e ps (by_key {node = x} {c = c} f l d) =
          subst (λ y. Key y ps ⊎ Child y ps) (some_inj x node (sym f ∙ e)) (inl (c, l, d))
      back node e ps (by_child {node = x} key {c = c} f h w) =
          subst (λ y. Key y ps ⊎ Child y ps) (some_inj x node (sym f ∙ e)) (inr (key, c, h, w))

      no_node :
          get_elem? store p ≡ none
          → (ps : Params) → ¬ Binds regex_match store goal (seg ∷ segs) p ps
      no_node e ps (by_key f l d) = ground (arith, e, f)
      no_node e ps (by_child key f h w) = ground (arith, e, f)

-- The parameters of a walk to the node, or none where there is no walk.
abbrev pub HasParams : (Text → Text → Option Bool) → Store → ℕ → List Text → ℕ → Params → Type 0
HasParams regex_match store root segs q ps =
    Binds regex_match store q segs root ps
    ⊎ ((ps ≡ []) × ((qs : Params) → ¬ Binds regex_match store q segs root qs))

params_or_empty-HasParams :
    (regex_match : Text → Text → Option Bool) (store : Store) (root q : ℕ) (segs : List Text)
    (o : Option Params)
    → Answers regex_match store q (Binds regex_match store q segs root) o
    → HasParams regex_match store root segs q (params_or_empty regex_match store o)
params_or_empty-HasParams regex_match store root q segs o (found {ps} e w) =
    subst (λ x. HasParams regex_match store root segs q (params_or_empty regex_match store x))
      (sym e) (inl w)
params_or_empty-HasParams regex_match store root q segs o (none_there e n) =
    subst (λ x. HasParams regex_match store root segs q (params_or_empty regex_match store x))
      (sym e) (inr (refl, n))

-- For a root in the store: where a walk along the segments of the path leads to the node that match gives,
-- its parameters are those of such a walk, with the node's default value if it has one and they lack it.
-- The walk goes by children under the segment itself, and by parameters, regular expressions and a last
-- wildcard, which bind the name of the child to the segment or the rest of the path. Where no walk leads to
-- the node, as to an optional parameter that is left out, there is at most that default value. Otherwise
-- match gives the root as a catch-all, with the parameters that the caller gave.
pub match-HasParams :
    (regex_match : Text → Text → Option Bool) (store : Store) (root : ℕ) (path : Text)
    (given : Params) (node : TrieNode) (q : ℕ) (ps : Params)
    → get_elem? store root ≡ some node
    → match regex_match store root path given ≡ some (q, ps)
    → ((n : TrieNode) × (qs : Params) × (get_elem? store q ≡ some n)
        × (ps ≡ with_default regex_match store n qs)
        × HasParams regex_match store root (split path) q qs)
      ⊎ ((q ≡ root) × (ps ≡ given) × (node.is_catch_all ≡ true))
match-HasParams regex_match store root path given node q ps e m =
    go (match-IsMatch regex_match store root path given node e)
  where
    Result : ℕ × Params → Type 0
    Result (q, ps) =
        ((n : TrieNode) × (qs : Params) × (get_elem? store q ≡ some n)
          × (ps ≡ with_default regex_match store n qs)
          × HasParams regex_match store root (split path) q qs)
        ⊎ ((q ≡ root) × (ps ≡ given) × (node.is_catch_all ≡ true))

    go :
        IsMatch regex_match store root (split path) given (match regex_match store root path given)
        → Result (q, ps)
    go (best {q = b} {node = n} reached first at r) =
        subst Result (some_inj _ (q, ps) (sym r ∙ m)) (
          inl (
            n,
            params_or_empty regex_match store
                (recalculate_params regex_match store b [] (split path) root),
            at,
            refl,
            params_or_empty-HasParams regex_match store root b (split path) _
                (recalculate_params-Binds regex_match store b (split path) root),
          ))
    go (catch_all {node = n} unreached f c r) =
        subst Result (some_inj (root, given) (q, ps) (sym r ∙ m))
          (inr (refl, refl, ap (λ x. x.is_catch_all) (some_inj node n (sym e ∙ f)) ∙ c))
    go (nothing unreached f c r) = absurd (ground (arith, r, m))
