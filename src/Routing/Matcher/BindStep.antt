-- ===== src/Routing/Matcher/BindStep.antt =====
-- mycppwebfw/src/routing/route_matcher.cpp: one step of the search for the parameters.
use gin_cpp.Base.{
  ℕ, ◌≡◌, refl, sym, ap, subst, ◌∙◌, ◌⊎◌, inl, inr, Bool, true, false, Option, none, some, List, [],
  ◌∷◌, arith, ◌==◌, if◌then◌else◌, ==_iff, Bool-cases, Option-cases, some_inj, get_elem?, Has, Text,
  insert,
}
use gin_cpp.Routing.Trie.{NodeType, static, parameter, wildcard, regex, TrieNode, Store}
use gin_cpp.Routing.Matcher.{
  join, Params, regex_accepts, bind_part, kind_params, child_params, children_params, exact_params,
}
use gin_cpp.Routing.Matcher.Bindings.{
  Takes, by_parameter, by_wildcard, by_regex, Answers, found, none_there, Answers-map,
  Answers-or_else, Answers-bind_part,
}

module _ (regex_match : Text → Text → Option Bool) (store : Store) (goal : ℕ) where
  -- What is known of the search at the next segment.
  module _ (deeper : ℕ → Option Params) (D : ℕ → Params → Type 0) (seg : Text) (segs : List Text)
      (next : (c : ℕ) → Answers regex_match store goal (D c) (deeper c)) where
    abbrev Bound : TrieNode → ℕ → Params → Type 0
    Bound child c ps = (qs : Params) × D c qs × (ps ≡ insert child.part seg qs)

    -- A step to a node that is known.
    abbrev Kinds : TrieNode → ℕ → Params → Type 0
    Kinds child c ps =
        ((child.type ≡ parameter) × Bound child c ps)
        ⊎ ((child.type ≡ wildcard) × (c ≡ goal) × (ps ≡ insert child.part (join (seg ∷ segs)) []))
        ⊎ ((child.type ≡ regex)
            × (regex_accepts regex_match store child.regex_pattern seg ≡ true)
            × Bound child c ps)

    Takes-Kinds :
        (c : ℕ) (child : TrieNode) (ps : Params)
        → get_elem? store c ≡ some child
        → Takes regex_match store goal D seg segs c ps
        → Kinds child c ps
    Takes-Kinds c child ps e (by_parameter {child = x} {qs = qs} f k d h) =
        subst (λ y. Kinds y c ps) (some_inj x child (sym f ∙ e)) (inl (k, (qs, d, h)))
    Takes-Kinds c child ps e (by_wildcard {child = x} f k d h) =
        subst (λ y. Kinds y c ps) (some_inj x child (sym f ∙ e)) (inr (inl (k, d, h)))
    Takes-Kinds c child ps e (by_regex {child = x} {qs = qs} f k a d h) =
        subst (λ y. Kinds y c ps) (some_inj x child (sym f ∙ e)) (inr (inr (k, a, (qs, d, h))))

    Kinds-Takes :
        (c : ℕ) (child : TrieNode) (ps : Params)
        → get_elem? store c ≡ some child
        → Kinds child c ps
        → Takes regex_match store goal D seg segs c ps
    Kinds-Takes c child ps e (inl (k, (qs, d, h))) = by_parameter e k d h
    Kinds-Takes c child ps e (inr (inl (k, d, h))) = by_wildcard e k d h
    Kinds-Takes c child ps e (inr (inr (k, a, (qs, d, h)))) = by_regex e k a d h

    bound :
        (child : TrieNode) (c : ℕ)
        → Answers regex_match store goal
            (Bound child c)
            (bind_part regex_match store child.part seg (deeper c))
    bound child c =
        Answers-bind_part regex_match store goal (D c) child.part seg (deeper c) (next c)

    kind_params-Kinds :
        (c : ℕ) (child : TrieNode) (t : NodeType)
        → child.type ≡ t
        → Answers regex_match store goal
            (Kinds child c)
            (kind_params regex_match store goal deeper seg segs [] c child t)
    unfolding kind_params
    kind_params-Kinds c child static e = none_there refl none_of
      where
        none_of : (ps : Params) → ¬ Kinds child c ps
        none_of ps (inl (k, b)) = ground (arith, e, k)
        none_of ps (inr (inl (k, d, h))) = ground (arith, e, k)
        none_of ps (inr (inr (k, a, b))) = ground (arith, e, k)
    kind_params-Kinds c child parameter e =
        Answers-map regex_match store goal (Bound child c) (Kinds child c) _ _ refl
          (λ ps b. inl (e, b)) back (bound child c)
      where
        back : (ps : Params) → Kinds child c ps → Bound child c ps
        back ps (inl (k, b)) = b
        back ps (inr (inl (k, d, h))) = absurd (ground (arith, e, k))
        back ps (inr (inr (k, a, b))) = absurd (ground (arith, e, k))
    kind_params-Kinds c child wildcard e = elim (Bool-cases (c == goal)) [
      | inl k ↦
          found
            (ap (λ (b : Bool). if b then some (insert child.part (join (seg ∷ segs)) []) else none)
              k)
            (inr (inl (e, (==_iff c goal).0 k, refl)))
      | inr k ↦
          none_there
            (ap (λ (b : Bool). if b then some (insert child.part (join (seg ∷ segs)) []) else none)
              k)
            (none_of k)
    ]
      where
        none_of : (c == goal) ≡ false → (ps : Params) → ¬ Kinds child c ps
        none_of k ps (inl (j, b)) = ground (arith, e, j)
        none_of k ps (inr (inl (j, d, h))) = ground (arith, k, d)
        none_of k ps (inr (inr (j, a, b))) = ground (arith, e, j)
    kind_params-Kinds c child regex e =
        elim (Bool-cases (regex_accepts regex_match store child.regex_pattern seg)) [
          | inl k ↦
              Answers-map regex_match store goal (Bound child c) (Kinds child c) _ _
                (sym (chosen k)) (λ ps b. inr (inr (e, k, b))) back (bound child c)
          | inr k ↦ none_there (chosen k) (none_of k)
        ]
      where
        chosen :
            {b : Bool}
            → regex_accepts regex_match store child.regex_pattern seg ≡ b
            → (if regex_accepts regex_match store child.regex_pattern seg
                then bind_part regex_match store child.part seg (deeper c)
                else none)
              ≡ (if b then bind_part regex_match store child.part seg (deeper c) else none)
        chosen k =
            ap
              (λ (b : Bool).
                if b then bind_part regex_match store child.part seg (deeper c) else none)
              k

        back : (ps : Params) → Kinds child c ps → Bound child c ps
        back ps (inl (k, b)) = absurd (ground (arith, e, k))
        back ps (inr (inl (k, d, h))) = absurd (ground (arith, e, k))
        back ps (inr (inr (k, a, b))) = b

        none_of :
            regex_accepts regex_match store child.regex_pattern seg ≡ false
            → (ps : Params) → ¬ Kinds child c ps
        none_of k ps (inl (j, b)) = ground (arith, e, j)
        none_of k ps (inr (inl (j, d, h))) = ground (arith, e, j)
        none_of k ps (inr (inr (j, a, b))) = absurd (false_true (sym k ∙ a))
          where
            false_true : false ≡ true → ⊥
            false_true q = cc

    child_params-Takes :
        (c : ℕ)
        → Answers regex_match store goal
            (Takes regex_match store goal D seg segs c)
            (child_params regex_match store goal deeper seg segs [] c)
    unfolding child_params
    child_params-Takes c = elim (Option-cases (get_elem? store c)) [
      | inl e ↦ none_there (rw (e, child_params) refl) (λ ps. no_node e ps)
      | inr (child, e) ↦
          Answers-map regex_match store goal (Kinds child c)
            (Takes regex_match store goal D seg segs c) _ _ (sym (rw (e, child_params) refl))
            (λ ps. Kinds-Takes c child ps e) (λ ps. Takes-Kinds c child ps e)
            (kind_params-Kinds c child child.type refl)
    ]
      where
        no_node :
            get_elem? store c ≡ none
            → (ps : Params) → ¬ Takes regex_match store goal D seg segs c ps
        no_node e ps (by_parameter f k d h) = ground (arith, e, f)
        no_node e ps (by_wildcard f k d h) = ground (arith, e, f)
        no_node e ps (by_regex f k a d h) = ground (arith, e, f)

    abbrev pub ByChild : List (Text × ℕ) → Params → Type 0
    ByChild cs ps =
        (key : Text) × (c : ℕ) × Has (key, c) cs × Takes regex_match store goal D seg segs c ps

    pub children_params-ByChild :
        (cs : List (Text × ℕ))
        → Answers regex_match store goal
            (ByChild cs)
            (children_params regex_match store goal deeper seg segs [] cs)
    unfolding children_params
    children_params-ByChild [] = none_there refl (λ ps (key, c, h, w). absurd h)
    children_params-ByChild ((key, c) ∷ cs) =
        Answers-map regex_match store goal
          (λ ps. Takes regex_match store goal D seg segs c ps ⊎ ByChild cs ps)
          (ByChild ((key, c) ∷ cs)) _ _ refl forth back
          (Answers-or_else regex_match store goal (Takes regex_match store goal D seg segs c)
            (ByChild cs) _ _ (child_params-Takes c) (children_params-ByChild cs))
      where
        forth :
            (ps : Params)
            → Takes regex_match store goal D seg segs c ps ⊎ ByChild cs ps
            → ByChild ((key, c) ∷ cs) ps
        forth ps (inl w) = (key, c, inl refl, w)
        forth ps (inr (k, d, h, w)) = (k, d, inr h, w)

        back :
            (ps : Params)
            → ByChild ((key, c) ∷ cs) ps
            → Takes regex_match store goal D seg segs c ps ⊎ ByChild cs ps
        back ps (k, d, inl e, w) =
            inl (subst (λ (x : Text × ℕ). Takes regex_match store goal D seg segs x.1 ps) (sym e) w)
        back ps (k, d, inr h, w) = inr (k, d, h, w)

    abbrev pub ByKey : Option ℕ → Params → Type 0
    ByKey o ps = (c : ℕ) × (o ≡ some c) × D c ps

    pub exact_params-ByKey :
        (o : Option ℕ)
        → Answers regex_match store goal (ByKey o) (exact_params regex_match store deeper o)
    exact_params-ByKey none = none_there refl (λ ps (c, e, d). ground (arith, e))
    exact_params-ByKey (some c) =
        Answers-map regex_match store goal (D c) (ByKey (some c)) _ _ refl (λ ps d. (c, refl, d))
          (λ ps (b, e, d). subst (λ x. D x ps) (sym (some_inj c b e)) d) (next c)
