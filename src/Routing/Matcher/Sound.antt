-- ===== src/Routing/Matcher/Sound.antt =====
-- mycppwebfw/src/routing/route_matcher.cpp: the children of a node in the search.
use gin_cpp.Base.{
  ℕ, ◌≡◌, refl, ap, ◌⊎◌, inl, inr, Bool, true, false, ◌&&◌, Option, some, List, [], ◌∷◌,
  if◌then◌else◌, Option-cases, get_elem?, Has, Has-append_left, Has-append_right, Has-append, Text,
}
use gin_cpp.Routing.Trie.{TrieNode, Store}
use gin_cpp.Routing.Matcher.{has_handler, when, optional_matches, end_matches}
use gin_cpp.Routing.Matcher.Reach.{EndsAt, files, own, optional}

pub Has-if :
    (b : Bool) (q : ℕ) (xs ys : List ℕ)
    → Has q (if b then xs else ys)
    → ((b ≡ true) × Has q xs) ⊎ ((b ≡ false) × Has q ys)
Has-if true q xs ys h = inl (refl, h)
Has-if false q xs ys h = inr (refl, h)

pub Has-if_true :
    (b : Bool) (q : ℕ) (xs ys : List ℕ) → b ≡ true → Has q xs → Has q (if b then xs else ys)
Has-if_true b q xs ys e h = rw e h

pub Has-if_false :
    (b : Bool) (q : ℕ) (xs ys : List ℕ) → b ≡ false → Has q ys → Has q (if b then xs else ys)
Has-if_false b q xs ys e h = rw e h

Has-when : (b : Bool) (p q : ℕ) → Has q (when b (p ∷ [])) → (b ≡ true) × (p ≡ q)
Has-when true p q (inl e) = (refl, e)
Has-when true p q (inr h) = absurd h
Has-when false p q h = absurd h

pub single : (p q : ℕ) → Has q (p ∷ []) → p ≡ q
single p q (inl e) = e
single p q (inr h) = absurd h

pub when-Has : (b : Bool) (q : ℕ) (xs : List ℕ) → b ≡ true → Has q xs → Has q (when b xs)
when-Has b q xs e h = rw e h

module _ (regex_match : Text → Text → Option Bool) (store : Store) where
  abbrev OptionalChild : List (Text × ℕ) → ℕ → Type 0
  OptionalChild cs q =
      (key : Text) × (child : TrieNode) × Has (key, q) cs
      × (get_elem? store q ≡ some child)
      × ((child.is_optional && has_handler child) ≡ true)

  OptionalChild-later :
      (c : Text × ℕ) (cs : List (Text × ℕ)) (q : ℕ) → OptionalChild cs q → OptionalChild (c ∷ cs) q
  OptionalChild-later c cs q (key, child, h, e, o) = (key, child, inr h, e, o)

  optional_matches_sound :
      (cs : List (Text × ℕ)) (q : ℕ)
      → Has q (optional_matches regex_match store cs)
      → OptionalChild cs q
  unfolding optional_matches
  optional_matches_sound [] q h = absurd h
  optional_matches_sound ((key, p) ∷ cs) q h = elim (Option-cases (get_elem? store p)) [
    | inl e ↦
        OptionalChild-later (key, p) cs q
          (optional_matches_sound cs q (rw (e, optional_matches) at h))
    | inr (node, e) ↦
        elim (Has-append q (when (node.is_optional && has_handler node) (p ∷ [])) _
          (rw (e, optional_matches) at h)) [
            | inl k ↦
                let (o, same_node) = Has-when (node.is_optional && has_handler node) p q k in
                (key, node, inl (ap (λ r. (key, r)) same_node), (rw same_node at e), o)
            | inr k ↦ OptionalChild-later (key, p) cs q (optional_matches_sound cs q k)
          ]
  ]

  pub end_matches_sound :
      (p q : ℕ) → Has q (end_matches regex_match store p) → EndsAt regex_match store p q
  unfolding end_matches
  end_matches_sound p q h = elim (Option-cases (get_elem? store p)) [
    | inl e ↦ absurd (rw (e, end_matches) at h)
    | inr (node, e) ↦ elim (Has-if node.is_static_files q _ _ (rw (e, end_matches) at h)) [
      | inl (f, k) ↦ files e f (single p q k)
      | inr (f, k) ↦ elim (Has-append q (when (has_handler node) (p ∷ [])) _ k) [
        | inl j ↦ let (o, same_node) = Has-when (has_handler node) p q j in own e f o same_node
        | inr j ↦
            let (key, child, m, c, o) = optional_matches_sound node.children q j in
            optional key e f m c o
      ]
    ]
  ]

  optional_matches_complete :
      (cs : List (Text × ℕ)) (q : ℕ)
      → OptionalChild cs q
      → Has q (optional_matches regex_match store cs)
  unfolding optional_matches
  optional_matches_complete [] q (key, child, h, e, o) = absurd h
  optional_matches_complete ((k, p) ∷ cs) q (key, child, inl m, e, o) =
      let same_node : p ≡ q = ap (λ (r : Text × ℕ). r.1) m in
      let here : get_elem? store p ≡ some child = rw same_node e in
      rw (here, optional_matches) (Has-append_left q _ _ (when-Has _ q (p ∷ []) o (inl same_node)))
  optional_matches_complete ((k, p) ∷ cs) q (key, child, inr h, e, o) =
      let rest = optional_matches_complete cs q (key, child, h, e, o) in
      elim (Option-cases (get_elem? store p)) [
        | inl n ↦ rw (n, optional_matches) rest
        | inr (node, n) ↦ rw (n, optional_matches) (Has-append_right q _ _ rest)
      ]

  pub end_matches_complete :
      (p q : ℕ) → EndsAt regex_match store p q → Has q (end_matches regex_match store p)
  unfolding end_matches
  end_matches_complete p q (files {node} e f s) =
      rw (e, end_matches) (Has-if_true node.is_static_files q _ _ f (inl s))
  end_matches_complete p q (own {node} e f o s) =
      rw (e, end_matches)
        (Has-if_false node.is_static_files q _ _ f
          (Has-append_left q _ _ (when-Has _ q (p ∷ []) o (inl s))))
  end_matches_complete p q (optional {node} {child} key e f m c o) =
      rw (e, end_matches)
        (Has-if_false node.is_static_files q _ _ f (
          Has-append_right q _ _ (optional_matches_complete node.children q (key, child, m, c, o))))
