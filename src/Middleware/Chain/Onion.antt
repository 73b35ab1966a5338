-- ===== src/Middleware/Chain/Onion.antt =====
-- mycppwebfw/src/middleware/middleware_chain.cpp: the chain and the composition of its middlewares.
use gin_cpp.Base.{
  ℕ, ◌+◌, ◌≡◌, refl, ap, ◌∙◌, some, List, [], ◌∷◌, ◌++◌, arith, length, get_elem?, length-append,
  All, same,
}
use mathlib.Core.List.{append_assoc}
use gin_cpp.Middleware.Script.{Outcome, Script, finish, call, NoCall, AtMostOnce}
use gin_cpp.Middleware.Chain.{Middleware, Run, run_script, next, run_chain}

module _ {X : Type 0} where
  -- A middleware around what is inside it.
  unfoldable pub around : (X → X × Outcome) → Script X → X × Outcome
  around inner (finish x o) = (x, o)
  around inner (call x k) = around inner (k (inner x).0 (inner x).1)

  -- The middlewares from the outside in, around the final handler.
  unfoldable pub onion : List (Middleware X) → (X → X × Outcome) → X → X × Outcome
  unfolding around
  onion [] final x = final x
  onion (m ∷ ms) final x = around (onion ms final) (m.handler x)

  abbrev pub IsSingle : Middleware X → Type 0
  IsSingle m = (x : X) → AtMostOnce (m.handler x)

  get_elem?-middle :
      (pre : List (Middleware X)) (m : Middleware X) (rest : List (Middleware X))
      → get_elem? (pre ++ m ∷ rest) (length pre) ≡ some m
  get_elem?-middle [] m rest = refl
  get_elem?-middle (p ∷ pre) m rest = get_elem?-middle pre m rest

  abbrev result : Run X → X × Outcome
  result r = (r.state, r.outcome)

  run_script-NoCall :
      (nx : ℕ → X → Run X) (inner : X → X × Outcome) (i : ℕ) (s : Script X)
      → NoCall s
      → result (run_script nx i s) ≡ around inner s
  unfolding run_script around
  run_script-NoCall nx inner i (finish x o) h = refl
  run_script-NoCall nx inner i (call x k) h = absurd h

  run_script-AtMostOnce :
      (nx : ℕ → X → Run X) (inner : X → X × Outcome) (i : ℕ) (s : Script X)
      → ((x : X) → result (nx i x) ≡ inner x)
      → AtMostOnce s
      → result (run_script nx i s) ≡ around inner s
  unfolding run_script around
  run_script-AtMostOnce nx inner i (finish x o) same h = refl
  run_script-AtMostOnce nx inner i (call x k) same h =
      run_script-NoCall nx inner (nx i x).index (k (nx i x).state (nx i x).outcome) (h _ _)
      ∙ ap (λ (r : X × Outcome). around inner (k r.0 r.1)) (same x)

  next-onion :
      (pre rest : List (Middleware X)) (final : X → X × Outcome) (i : ℕ) (x : X)
      → i ≡ length pre
      → All IsSingle rest
      → result (next (length rest) (pre ++ rest) final i x) ≡ onion rest final x
  unfolding next onion
  next-onion pre [] final i x e h = refl
  next-onion pre (m ∷ rest) final i x e (h, hs) =
      let here : get_elem? (pre ++ m ∷ rest) i ≡ some m = rw e (get_elem?-middle pre m rest) in
      let inside : (y : X)
          → result (next (length rest) (pre ++ m ∷ rest) final (i + 1) y) ≡ onion rest final y =
        λ y. rw (← append_assoc pre (m ∷ []) rest) (
          next-onion (pre ++ m ∷ []) rest final (i + 1) y
            (omega (arith, length-append pre (m ∷ []))) hs) in
      rw (here, next)
        (run_script-AtMostOnce (next (length rest) (pre ++ m ∷ rest) final) (onion rest final)
          (i + 1) (m.handler x) inside (h x))

  -- If every middleware calls `next` at most once, running the chain is running the composition of
  -- its middlewares, from the outside in, around the final handler: the same state and the same end.
  pub run_chain-onion :
      (ms : List (Middleware X)) (final : X → X × Outcome) (x : X)
      → All IsSingle ms
      → ((run_chain ms final x).state, (run_chain ms final x).outcome) ≡ onion ms final x
  unfolding run_chain
  run_chain-onion ms final x h = next-onion [] ms final 0 x refl h
