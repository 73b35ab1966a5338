-- ===== src/Routing/Matcher/Bindings.antt =====
-- mycppwebfw/src/routing/route_matcher.cpp: the parameters of a match.
use gin_cpp.Base.{
  ℕ, ◌≡◌, refl, sym, ap, ◌∙◌, ◌⊎◌, inl, inr, Bool, true, Option, none, some, List, [], ◌∷◌,
  get_elem?, Has, Text, lookup, insert,
}
use gin_cpp.Routing.Trie.{parameter, wildcard, regex, TrieNode, Store}
use gin_cpp.Routing.Matcher.{join, Params, regex_accepts, bind_part, or_else}

module _ (regex_match : Text → Text → Option Bool) (store : Store) (goal : ℕ) where
  -- A step of a walk by a child's kind, and what it adds to the parameters of the rest.
  pub data Takes (Deeper : ℕ → Params → Type 0) (seg : Text) (segs : List Text) (c : ℕ)
      (ps : Params) : Type 0 where
    by_parameter :
        {child : TrieNode} {qs : Params}
        → get_elem? store c ≡ some child
        → child.type ≡ parameter
        → Deeper c qs
        → ps ≡ insert child.part seg qs
        → Takes Deeper seg segs c ps
    by_wildcard :
        {child : TrieNode}
        → get_elem? store c ≡ some child
        → child.type ≡ wildcard
        → c ≡ goal
        → ps ≡ insert child.part (join (seg ∷ segs)) []
        → Takes Deeper seg segs c ps
    by_regex :
        {child : TrieNode} {qs : Params}
        → get_elem? store c ≡ some child
        → child.type ≡ regex
        → regex_accepts regex_match store child.regex_pattern seg ≡ true
        → Deeper c qs
        → ps ≡ insert child.part seg qs
        → Takes Deeper seg segs c ps

  pub data Walks (Deeper : ℕ → Params → Type 0) (seg : Text) (segs : List Text) (p : ℕ)
      (ps : Params) : Type 0 where
    by_key :
        {node : TrieNode} {c : ℕ}
        → get_elem? store p ≡ some node
        → lookup seg node.children ≡ some c
        → Deeper c ps
        → Walks Deeper seg segs p ps
    by_child :
        {node : TrieNode} (key : Text) {c : ℕ}
        → get_elem? store p ≡ some node
        → Has (key, c) node.children
        → Takes Deeper seg segs c ps
        → Walks Deeper seg segs p ps

  -- A walk from p along the segments to the goal, and the parameters that it binds.
  abbrev pub Binds : List Text → ℕ → Params → Type 0
  Binds [] p ps = (p ≡ goal) × (ps ≡ [])
  Binds (seg ∷ segs) p ps = Walks (Binds segs) seg segs p ps

  -- The answer of a search for something with the property P.
  pub data Answers (P : Params → Type 0) (o : Option Params) : Type 0 where
    found : {ps : Params} → o ≡ some ps → P ps → Answers P o
    none_there : o ≡ none → ((ps : Params) → ¬ P ps) → Answers P o

  pub Answers-map :
      (P Q : Params → Type 0) (o o' : Option Params)
      → o ≡ o'
      → ((ps : Params) → P ps → Q ps)
      → ((ps : Params) → Q ps → P ps)
      → Answers P o
      → Answers Q o'
  Answers-map P Q o o' e f g (found k p) = found (sym e ∙ k) (f _ p)
  Answers-map P Q o o' e f g (none_there k n) = none_there (sym e ∙ k) (λ ps q. n ps (g ps q))

  -- One search after another.
  pub Answers-or_else :
      (P Q : Params → Type 0) (o o' : Option Params)
      → Answers P o
      → Answers Q o'
      → Answers (λ ps. P ps ⊎ Q ps) (or_else regex_match store o o')
  Answers-or_else P Q o o' (found k p) a =
      found (ap (λ x. or_else regex_match store x o') k) (inl p)
  Answers-or_else P Q o o' (none_there k n) (found k' q) =
      found (ap (λ x. or_else regex_match store x o') k ∙ k') (inr q)
  Answers-or_else P Q o o' (none_there k n) (none_there k' n') =
      none_there (ap (λ x. or_else regex_match store x o') k ∙ k') neither
    where
      neither : (ps : Params) → ¬ (P ps ⊎ Q ps)
      neither ps (inl p) = n ps p
      neither ps (inr q) = n' ps q

  pub Answers-bind_part :
      (P : Params → Type 0) (part value : Text) (o : Option Params)
      → Answers P o
      → Answers
          (λ ps. (qs : Params) × P qs × (ps ≡ insert part value qs))
          (bind_part regex_match store part value o)
  Answers-bind_part P part value o (found {ps} k p) =
      found (ap (bind_part regex_match store part value) k) (ps, p, refl)
  Answers-bind_part P part value o (none_there k n) =
      none_there (ap (bind_part regex_match store part value) k) (λ ps (qs, p, e). n qs p)
