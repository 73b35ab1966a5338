-- ===== src/Routing/Router/Walk.antt =====
-- mycppwebfw/src/routing/router.cpp: the walk along the keys of the children that add_route makes.
use gin_cpp.Base.{
  some_inj, ℕ, ◌≡◌, refl, sym, ap, subst, ◌∙◌, Bool, true, Option, none, some, List, [], ◌∷◌, arith,
  get_elem?, All, Text,
}
use gin_cpp.Routing.Trie.{
  static, TrieNode, Store, plain_segment, read_segment, mark, update, child_of, and_then, visit,
  descend, descend_all,
}
use gin_cpp.Routing.Matcher.{has_handler}
use gin_cpp.Routing.Matcher.Reach.{own, by_key, Reaches}
use gin_cpp.Routing.Router.Growth.{
  IsGrown, Extends, NoFiles, Extends-refl, Extends-trans, NoFiles-get, update-Extends, IsChild,
  Grows, child_of-Grows,
}

-- A segment that is no parameter, wildcard or regular expression.
abbrev pub IsPlainSegment : Text → Type 0
IsPlainSegment t = read_segment t ≡ some (plain_segment static t)

-- The nodes that the keys of the segments lead along.
abbrev pub Walk : Store → List Text → ℕ → ℕ → Type 0
Walk s [] p q = p ≡ q
Walk s (t ∷ ts) p q = (c : ℕ) × IsChild s p t c × Walk s ts c q

IsChild-Extends :
    (s s' : Store) (p c : ℕ) (k : Text) → Extends s s' → IsChild s p k c → IsChild s' p k c
IsChild-Extends s s' p c k h (n, e, l) = let (n', e', g) = h p n e in (n', e', g.children k c l)

pub and_then-some :
    {A B : Type 0} (o : Option A) (f : A → Option B) (b : B)
    → and_then o f ≡ some b
    → (a : A) × (o ≡ some a) × (f a ≡ some b)
and_then-some none f b e = absurd (ground arith)
and_then-some (some a) f b e = (a, refl, e)

mark_static-IsGrown : (t : Text) (n : TrieNode) → IsGrown n (mark (plain_segment static t) n)
unfolding mark
mark_static-IsGrown t n = record { children = λ k c e. e; handled = λ e. e; files = refl }

visit-Grows :
    (s : Store) (current : ℕ) (t : Text) (c r : Store × ℕ)
    → Grows s current t c
    → visit (plain_segment static t) c ≡ some r
    → Grows s current t r
visit-Grows s current t (s1, p) r (x, f, k) e =
    let (s2, u, v) =
      and_then-some (update s1 p (mark (plain_segment static t))) (λ s'. some (s', p)) r e in
    let (x', f', w) =
      update-Extends s1 s2 p (mark (plain_segment static t)) (mark_static-IsGrown t) u in
    subst (Grows s current t) (some_inj (s2, p) r v)
      (Extends-trans s s1 s2 x x', (λ h. f' (f h)), IsChild-Extends s1 s2 current p t x' k)

descend-Grows :
    (s : Store) (current : ℕ) (t : Text) (r : Store × ℕ)
    → IsPlainSegment t
    → descend s current t ≡ some r
    → Grows s current t r
unfolding descend
descend-Grows s current t r h e =
    let (c, m, n) = and_then-some (child_of s current t static) (visit (plain_segment static t)) r (
      sym
        (ap (λ o. and_then o λ seg. and_then (child_of s current seg.part seg.type) (visit seg)) h)
      ∙ e) in
    visit-Grows s current t c r (child_of-Grows s current t static c m) n

-- The loop over plain segments: the nodes lead to the last one in what the loop leaves.
pub descend_all-Walk :
    (s : Store) (current : ℕ) (segs : List Text) (r : Store × ℕ)
    → All IsPlainSegment segs
    → descend_all s current segs ≡ some r
    → Extends s r.0 × (NoFiles s → NoFiles r.0) × Walk r.0 segs current r.1
unfolding descend_all
descend_all-Walk s current [] r h e =
    subst (λ x. Extends s x.0 × (NoFiles s → NoFiles x.0) × Walk x.0 [] current x.1)
      (some_inj (s, current) r e) (Extends-refl s, (λ n. n), refl)
descend_all-Walk s current (t ∷ ts) r h e =
    let (c, k, l) = and_then-some (descend s current t) (λ r'. descend_all r'.0 r'.1 ts) r e in
    let (x, f, ch) = descend-Grows s current t c h.0 k in
    let (x', f', w) = descend_all-Walk c.0 c.1 ts r h.1 l in
    (
      Extends-trans s c.0 r.0 x x',
      (λ n. f' (f n)),
      (c.1, IsChild-Extends c.0 r.0 current c.1 t x' ch, w),
    )

pub Walk-Extends :
    (s s' : Store) (segs : List Text) (p q : ℕ) → Extends s s' → Walk s segs p q → Walk s' segs p q
Walk-Extends s s' [] p q h w = w
Walk-Extends s s' (t ∷ ts) p q h (c, k, w) =
    (c, IsChild-Extends s s' p c t h k, Walk-Extends s s' ts c q h w)

pub Walk-Reaches :
    (regex_match : Text → Text → Option Bool) (s : Store) (segs : List Text) (p q : ℕ)
    (n : TrieNode)
    → NoFiles s
    → get_elem? s q ≡ some n
    → has_handler n ≡ true
    → Walk s segs p q
    → Reaches regex_match s segs p q × ((m : TrieNode) × (get_elem? s p ≡ some m))
Walk-Reaches regex_match s [] p q n h e k w =
    (own {node = n} (at_start w) (NoFiles-get s q n h e) k w, (n, at_start w))
  where
    at_start : p ≡ q → get_elem? s p ≡ some n
    at_start w = subst (λ x. get_elem? s x ≡ some n) (sym w) e
Walk-Reaches regex_match s (t ∷ ts) p q n h e k (c, (m, f, l), w) =
    (by_key f (NoFiles-get s p m h f) l (Walk-Reaches regex_match s ts c q n h e k w).0, (m, f))
