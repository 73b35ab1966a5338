-- ===== src/Routing/Router/Growth.antt =====
-- mycppwebfw/src/routing/router.cpp: what add_route leaves of the routes that were there before.
use gin_cpp.Base.{
  some_inj, ℕ, zero, suc, ◌≡◌, refl, sym, ap, subst, ◌∙◌, Bool, true, false, Option, none, some, [],
  ◌∷◌, ◌++◌, arith, if◌then◌else◌, length, get_elem?, set, lt_of_get_elem?, get_elem?-set_self, All,
  All-append, Text, same, same_refl, same_iff, lookup, lookup-insert,
}
use gin_cpp.Routing.Trie.{NodeType, TrieNode, Store, new_node, link, link_child, update, child_of}
use gin_cpp.Routing.Matcher.{has_handler}

-- A node after some writes: it keeps its children, its handler and whether it is a static file root.
pub record IsGrown (old new : TrieNode) : Type 0 where
  pub children :
      (k : Text) (c : ℕ) → lookup k old.children ≡ some c → lookup k new.children ≡ some c
  pub handled : has_handler old ≡ true → has_handler new ≡ true
  pub files : new.is_static_files ≡ old.is_static_files

abbrev pub Extends : Store → Store → Type 0
Extends s s' =
    (p : ℕ) (old : TrieNode)
    → get_elem? s p ≡ some old
    → (new : TrieNode) × (get_elem? s' p ≡ some new) × IsGrown old new

abbrev pub NoFiles : Store → Type 0
NoFiles = All (λ n. n.is_static_files ≡ false)

IsGrown-refl : (n : TrieNode) → IsGrown n n
IsGrown-refl n = record { children = λ k c e. e; handled = λ e. e; files = refl }

pub Extends-refl : (s : Store) → Extends s s
Extends-refl s p old e = (old, e, IsGrown-refl old)

pub Extends-trans : (s t u : Store) → Extends s t → Extends t u → Extends s u
Extends-trans s t u h k p old e =
    let (mid, e', g) = h p old e in
    let (new, e'', g') = k p mid e' in
    (
      new,
      e'',
      record {
        children = λ j c l. g'.children j c (g.children j c l);
        handled = λ l. g'.handled (g.handled l);
        files = g'.files ∙ g.files;
      },
    )

get_elem?-append :
    (s t : Store) (p : ℕ) (n : TrieNode) → get_elem? s p ≡ some n → get_elem? (s ++ t) p ≡ some n
get_elem?-append [] t p n e = absurd (ground arith)
get_elem?-append (m ∷ s) t zero n e = e
get_elem?-append (m ∷ s) t (suc p) n e = get_elem?-append s t p n e

pub NoFiles-get :
    (s : Store) (p : ℕ) (n : TrieNode)
    → NoFiles s
    → get_elem? s p ≡ some n
    → n.is_static_files ≡ false
NoFiles-get [] p n h e = absurd (ground arith)
NoFiles-get (m ∷ s) zero n h e = ground (arith, h.0)
NoFiles-get (m ∷ s) (suc p) n h e = NoFiles-get s p n h.1 e

NoFiles-set :
    (s : Store) (p : ℕ) (n : TrieNode) → NoFiles s → n.is_static_files ≡ false → NoFiles (set s p n)
NoFiles-set [] p n h e = tt
NoFiles-set (m ∷ s) zero n h e = (e, h.1)
NoFiles-set (m ∷ s) (suc p) n h e = (h.0, NoFiles-set s p n h.1 e)

-- A write to one node that only grows it.
set-Extends :
    (s : Store) (p : ℕ) (old new : TrieNode)
    → get_elem? s p ≡ some old
    → IsGrown old new
    → Extends s (set s p new)
set-Extends [] p old new e g q n f = absurd (ground arith)
set-Extends (m ∷ s) zero old new e g zero n f =
    (new, refl, subst (λ x. IsGrown x new) (sym (some_inj m old e) ∙ some_inj m n f) g)
set-Extends (m ∷ s) zero old new e g (suc q) n f = (n, f, IsGrown-refl n)
set-Extends (m ∷ s) (suc p) old new e g zero n f = (n, f, IsGrown-refl n)
set-Extends (m ∷ s) (suc p) old new e g (suc q) n f = set-Extends s p old new e g q n f

append-Extends : (s t : Store) → Extends s (s ++ t)
append-Extends s t p n e = (n, get_elem?-append s t p n e, IsGrown-refl n)

pub update-Extends :
    (s s' : Store) (p : ℕ) (f : TrieNode → TrieNode)
    → ((n : TrieNode) → IsGrown n (f n))
    → update s p f ≡ some s'
    → Extends s s'
      × (NoFiles s → NoFiles s')
      × ((n : TrieNode) → get_elem? s p ≡ some n → get_elem? s' p ≡ some (f n))
unfolding update
update-Extends s s' p f g e = go (get_elem? s p) refl e
  where
    Holds : Store → Type 0
    Holds t =
        Extends s t
        × (NoFiles s → NoFiles t)
        × ((n : TrieNode) → get_elem? s p ≡ some n → get_elem? t p ≡ some (f n))

    go :
        (o : Option TrieNode)
        → get_elem? s p ≡ o
        → elim o [ none ↦ none | some node ↦ some (set s p (f node)) ] ≡ some s'
        → Holds s'
    go none k q = absurd (ground arith)
    go (some n) k q = subst Holds (some_inj (set s p (f n)) s' q) (
      set-Extends s p n (f n) k (g n),
      λ h. NoFiles-set s p (f n) h ((g n).files ∙ NoFiles-get s p n h k),
      λ m l.
          get_elem?-set_self s p (f n) (lt_of_get_elem? s p n k)
          ∙ ap (λ x. some (f x)) (some_inj n m (sym k ∙ l)),
    )

link-IsGrown :
    (n : TrieNode) (part : Text) (c : ℕ) → lookup part n.children ≡ none → IsGrown n (link part c n)
link-IsGrown n part c e = record {
  children = λ k d l. lookup-insert part k c n.children ∙ other k d l;
  handled = λ l. l;
  files = refl;
}
  where
    other :
        (k : Text) (d : ℕ)
        → lookup k n.children ≡ some d
        → (if same part k then some c else lookup k n.children) ≡ some d
    other k d l = ground (arith, same_iff part k, e, l)

abbrev pub IsChild : Store → ℕ → Text → ℕ → Type 0
IsChild s p k c = (n : TrieNode) × (get_elem? s p ≡ some n) × (lookup k n.children ≡ some c)

abbrev pub Grows : Store → ℕ → Text → Store × ℕ → Type 0
Grows s current part (s', c) = Extends s s' × (NoFiles s → NoFiles s') × IsChild s' current part c

link_child-Grows :
    (s : Store) (current : ℕ) (part : Text) (type : NodeType) (node : TrieNode) (o : Option ℕ)
    → get_elem? s current ≡ some node
    → lookup part node.children ≡ o
    → Grows s current part (link_child s current part type node o)
link_child-Grows s current part type node (some c) e l = (Extends-refl s, λ h. h, (node, e, l))
link_child-Grows s current part type node none e l = (
  Extends-trans s s1 (s1 ++ new_node part type ∷ [])
      (set-Extends s current node linked e (link-IsGrown node part (length s) l))
      (append-Extends s1 (new_node part type ∷ [])),
  λ h.
      All-append (λ n. n.is_static_files ≡ false) s1 (new_node part type ∷ [])
        (NoFiles-set s current linked h (NoFiles-get s current node h e)) (refl, tt),
  (
    linked,
    get_elem?-append s1 (new_node part type ∷ []) current linked
        (get_elem?-set_self s current linked (lt_of_get_elem? s current node e)),
    lookup-insert part part (length s) node.children
        ∙ ap (λ (b : Bool). if b then some (length s) else lookup part node.children)
            (same_refl part),
  ),
)
  where
    linked : TrieNode
    linked = link part (length s) node

    s1 : Store
    s1 = set s current linked

pub child_of-Grows :
    (s : Store) (current : ℕ) (part : Text) (type : NodeType) (r : Store × ℕ)
    → child_of s current part type ≡ some r
    → Grows s current part r
unfolding child_of
child_of-Grows s current part type r e = go (get_elem? s current) refl e
  where
    go :
        (o : Option TrieNode)
        → get_elem? s current ≡ o
        → elim o [
          | none ↦ none
          | some node ↦ some (link_child s current part type node (lookup part node.children))
        ]
          ≡ some r
        → Grows s current part r
    go none k q = absurd (ground arith)
    go (some node) k q =
        subst (Grows s current part)
          (some_inj (link_child s current part type node (lookup part node.children)) r q)
          (link_child-Grows s current part type node (lookup part node.children) k refl)
