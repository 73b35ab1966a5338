-- ===== src/Middleware/Older/Builder.antt =====
-- src/utils/middleware_utils.cpp: the builder and the framework's chain.
use gin_cpp.Base.{
  ℕ, zero, suc, ◌+◌, ◌≡◌, refl, sym, ap, ◌∙◌, inl, inr, Option, none, some, List, [], ◌∷◌, map,
  Option-cases, length, get_elem?,
}
use gin_cpp.Base.Int.{pos}
use gin_cpp.Middleware.Script.{returned, Outcome, Script}
use gin_cpp.Middleware.Chain.{Middleware, run_script, next, run_chain}
use gin_cpp.Middleware.Older.{builder_next, run_builder}

pub get_elem?-map :
    {A B : Type 0} (f : A → B) (xs : List A) (i : ℕ)
    → get_elem? (map f xs) i
      ≡ elim (get_elem? xs i) as (λ _. Option B) [ none ↦ none | some x ↦ some (f x) ]
get_elem?-map f [] i = refl
get_elem?-map f (x ∷ xs) zero = refl
get_elem?-map f (x ∷ xs) (suc i) = get_elem?-map f xs i

pub length-map : {A B : Type 0} (f : A → B) (xs : List A) → length (map f xs) ≡ length xs
length-map f [] = refl
length-map f (x ∷ xs) = ap suc (length-map f xs)

module _ {X : Type 0} where
  -- A handler as a middleware of the framework.
  abbrev pub plain : (X → Script X) → Middleware X
  plain h = record { handler = h; priority = pos 0 }

  abbrev pub nothing_more : X → X × Outcome
  nothing_more x = (x, returned)

  builder_next-next :
      (fuel : ℕ) (hs : List (X → Script X)) (i : ℕ) (x : X)
      → builder_next fuel hs i x ≡ next fuel (map plain hs) nothing_more i x
  unfolding builder_next next
  builder_next-next zero hs i x = refl
  builder_next-next (suc fuel) hs i x = elim (Option-cases (get_elem? hs i)) [
    | inl e ↦ rw (get_elem?-map plain hs i, e, builder_next, next) refl
    | inr (h, e) ↦
        rw (get_elem?-map plain hs i, e, builder_next, next)
          (λ j. run_script (λ i x. builder_next-next fuel hs i x j) (i + 1) (h x))
  ]

  -- Running a builder is running the framework's chain of the same handlers, in the order in which they were
  -- added, around a final handler that does nothing: the same position, state and end.
  pub run_builder-run_chain :
      (hs : List (X → Script X)) (x : X)
      → run_builder hs x ≡ run_chain (map plain hs) nothing_more x
  unfolding run_builder run_chain
  run_builder-run_chain hs x =
      builder_next-next (length hs) hs 0 x
      ∙ ap (λ n. next n (map plain hs) nothing_more 0 x) (sym (length-map plain hs))
