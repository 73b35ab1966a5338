-- ===== src/Routing/Inspector/Rising.antt =====
-- mycppwebfw/src/routing/router.cpp: a child is always allocated after its parent.
use gin_cpp.Base.{
  ℕ, zero, suc, ◌+◌, ◌≤◌, ◌<◌, ◌≡◌, refl, sym, ap, subst, ◌∙◌, ◌⊎◌, inl, inr, Option, none, some,
  List, [], ◌∷◌, ◌++◌, arith, Bool-cases, Option-cases, some_inj, length, get_elem?, set,
  length-append, lt_of_get_elem?, length-set, All, Text, same, lookup, insert,
}
use gin_cpp.Routing.Trie.{NodeType, TrieNode, Store, new_node, link, link_child, update, child_of}

abbrev pub Between : ℕ → ℕ → Text × ℕ → Type 0
Between lo hi kc = (lo < kc.1) × (kc.1 < hi)

-- The children of each node have larger indices, and are in the store.
abbrev pub IsRising : Store → Type 0
IsRising s = (p : ℕ) (n : TrieNode) → get_elem? s p ≡ some n → All (Between p (length s)) n.children

All-mono :
    (lo hi hi' : ℕ) (cs : List (Text × ℕ))
    → hi ≤ hi'
    → All (Between lo hi) cs
    → All (Between lo hi') cs
All-mono lo hi hi' [] l a = tt
All-mono lo hi hi' (c ∷ cs) l a = (omega (arith, a.0, l), All-mono lo hi hi' cs l a.1)

All-insert :
    (lo hi : ℕ) (k : Text) (c : ℕ) (cs : List (Text × ℕ))
    → Between lo hi (k, c)
    → All (Between lo hi) cs
    → All (Between lo hi) (insert k c cs)
unfolding insert
All-insert lo hi k c [] b a = (b, tt)
All-insert lo hi k c ((j, d) ∷ cs) b a = elim (Bool-cases (same j k)) [
  | inl e ↦ rw e (b, a.1)
  | inr e ↦ rw e (a.0, All-insert lo hi k c cs b a.1)
]

-- A read after a write.
get_elem?-set_cases :
    (s : Store) (p q : ℕ) (x m : TrieNode)
    → get_elem? (set s p x) q ≡ some m
    → ((q ≡ p) × (m ≡ x)) ⊎ (get_elem? s q ≡ some m)
get_elem?-set_cases [] p q x m e = inr e
get_elem?-set_cases (y ∷ s) zero zero x m e = inl (refl, sym (some_inj x m e))
get_elem?-set_cases (y ∷ s) zero (suc q) x m e = inr e
get_elem?-set_cases (y ∷ s) (suc p) zero x m e = inr e
get_elem?-set_cases (y ∷ s) (suc p) (suc q) x m e = elim (get_elem?-set_cases s p q x m e) [
  | inl (f, g) ↦ inl (ap suc f, g)
  | inr f ↦ inr f
]

get_elem?-append_cases :
    (s : Store) (y : TrieNode) (q : ℕ) (m : TrieNode)
    → get_elem? (s ++ y ∷ []) q ≡ some m
    → (m ≡ y) ⊎ (get_elem? s q ≡ some m)
get_elem?-append_cases [] y zero m e = inl (sym (some_inj y m e))
get_elem?-append_cases [] y (suc q) m e = absurd (ground arith)
get_elem?-append_cases (x ∷ s) y zero m e = inr e
get_elem?-append_cases (x ∷ s) y (suc q) m e = get_elem?-append_cases s y q m e

pub append-IsRising :
    (s : Store) (part : Text) (type : NodeType)
    → IsRising s
    → IsRising (s ++ new_node part type ∷ [])
append-IsRising s part type v q m e = elim (get_elem?-append_cases s (new_node part type) q m e) [
  | inl f ↦
      subst (λ (x : TrieNode). All (Between q (length (s ++ new_node part type ∷ []))) x.children)
        (sym f) tt
  | inr f ↦
      All-mono q (length s) _ m.children (omega (arith, length-append s (new_node part type ∷ [])))
        (v q m f)
]

pub update-IsRising :
    (s s' : Store) (p : ℕ) (f : TrieNode → TrieNode)
    → ((n : TrieNode) → (f n).children ≡ n.children)
    → update s p f ≡ some s'
    → IsRising s
    → IsRising s'
unfolding update
update-IsRising s s' p f same_children e v = elim (Option-cases (get_elem? s p)) [
  | inl k ↦ absurd (ground (arith, k, e))
  | inr (n, k) ↦
      subst IsRising (some_inj (set s p (f n)) s' (sym (rw (k, update) refl) ∙ e)) (written n k)
]
  where
    written : (n : TrieNode) → get_elem? s p ≡ some n → IsRising (set s p (f n))
    written n k q m g = elim (get_elem?-set_cases s p q (f n) m g) [
      | inl (a, b) ↦
          subst (λ (x : TrieNode). All (Between q (length (set s p (f n)))) x.children) (sym b)
            (subst (λ cs. All (Between q (length (set s p (f n)))) cs) (sym (same_children n))
              (subst (λ i. All (Between i (length (set s p (f n)))) n.children) (sym a)
                (subst (λ l. All (Between p l) n.children) (sym (length-set s p (f n))) (v p n k))))
      | inr b ↦ subst (λ l. All (Between q l) m.children) (sym (length-set s p (f n))) (v q m b)
    ]

link_child-IsRising :
    (s : Store) (current : ℕ) (part : Text) (type : NodeType) (node : TrieNode) (o : Option ℕ)
    → get_elem? s current ≡ some node
    → IsRising s
    → IsRising (link_child s current part type node o).0
link_child-IsRising s current part type node (some c) e v q m g = v q m g
link_child-IsRising s current part type node none e v q m g =
    let l : length (set s current linked ++ new_node part type ∷ []) ≡ length s + 1 = omega (
      arith,
      length-append (set s current linked) (new_node part type ∷ []),
      length-set s current linked,
    ) in
    elim (get_elem?-append_cases (set s current linked) (new_node part type) q m g) [
      | inl f ↦
          subst
            (λ (x : TrieNode).
              All (Between q (length (set s current linked ++ new_node part type ∷ []))) x.children)
            (sym f) tt
      | inr f ↦ elim (get_elem?-set_cases s current q linked m f) [
        | inl (a, b) ↦
            subst
              (λ (x : TrieNode).
                All (Between q (length (set s current linked ++ new_node part type ∷ [])))
                  x.children)
              (sym b)
              (subst
                (λ i.
                  All (Between i (length (set s current linked ++ new_node part type ∷ [])))
                    linked.children)
                (sym a)
                (All-insert current _ part (length s) node.children
                  (lt_of_get_elem? s current node e, omega (arith, l))
                  (All-mono current (length s) _ node.children (omega (arith, l))
                    (v current node e))))
        | inr b ↦ All-mono q (length s) _ m.children (omega (arith, l)) (v q m b)
      ]
    ]
  where
    linked : TrieNode
    linked = link part (length s) node

pub child_of-IsRising :
    (s : Store) (current : ℕ) (part : Text) (type : NodeType) (r : Store × ℕ)
    → child_of s current part type ≡ some r
    → IsRising s
    → IsRising r.0
unfolding child_of
child_of-IsRising s current part type r e v = elim (Option-cases (get_elem? s current)) [
  | inl k ↦ absurd (ground (arith, k, e))
  | inr (n, k) ↦
      subst (λ (x : Store × ℕ). IsRising x.0)
        (some_inj (link_child s current part type n (lookup part n.children)) r
          (sym (rw (k, child_of) refl) ∙ e))
        (link_child-IsRising s current part type n (lookup part n.children) k v)
]
