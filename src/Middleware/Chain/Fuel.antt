-- ===== src/Middleware/Chain/Fuel.antt =====
-- mycppwebfw/src/middleware/middleware_chain.cpp: the fuel of the model of a chain.
use gin_cpp.Base.{
  ℕ, zero, suc, ◌+◌, ◌≤◌, ◌≡◌, refl, sym, ap, ◌∙◌, inl, inr, List, arith, Option-cases, length,
  get_elem?, get_elem?-none_le, same,
}
use gin_cpp.Middleware.Script.{Outcome, Script, finish, call}
use gin_cpp.Middleware.Chain.{Middleware, Run, run_script, next}
use native.Mathlib.Decide.{dec_le}

module _ {X : Type 0} where
  run_script-index :
      (nx : ℕ → X → Run X)
      → ((i : ℕ) (x : X) → i ≤ (nx i x).index)
      → (i : ℕ) (s : Script X) → i ≤ (run_script nx i s).index
  unfolding run_script
  run_script-index nx h i (finish x o) = omega arith
  run_script-index nx h i (call x k) =
      omega (arith, h i x, run_script-index nx h (nx i x).index (k (nx i x).state (nx i x).outcome))

  -- The position in the chain never falls.
  pub next-index :
      (fuel : ℕ) (ms : List (Middleware X)) (final : X → X × Outcome) (i : ℕ) (x : X)
      → i ≤ (next fuel ms final i x).index
  unfolding next
  next-index zero ms final i x = omega arith
  next-index (suc fuel) ms final i x = elim (Option-cases (get_elem? ms i)) [
    | inl e ↦ rw (e, next) (omega arith)
    | inr (m, e) ↦
        rw (e, next)
          (omega (
            arith,
            run_script-index (next fuel ms final) (next-index fuel ms final) (i + 1) (m.handler x),
          ))
  ]

  run_script-congr :
      (f g : ℕ → X → Run X) (lo : ℕ)
      → ((i : ℕ) (x : X) → lo ≤ i → f i x ≡ g i x)
      → ((i : ℕ) (x : X) → i ≤ (f i x).index)
      → (i : ℕ) (s : Script X) → lo ≤ i
      → run_script f i s ≡ run_script g i s
  unfolding run_script
  run_script-congr f g lo same up i (finish x o) h = refl
  run_script-congr f g lo same up i (call x k) h =
      run_script-congr f g lo same up (f i x).index (k (f i x).state (f i x).outcome)
        (omega (arith, up i x))
      ∙ ap (λ r. run_script g r.index (k r.state r.outcome)) (same i x h)

  next-suc :
      (fuel : ℕ) (ms : List (Middleware X)) (final : X → X × Outcome) (i : ℕ) (x : X)
      → length ms ≤ i + fuel
      → next fuel ms final i x ≡ next (suc fuel) ms final i x
  unfolding next
  next-suc zero ms final i x h = rw (get_elem?-none_le ms i (omega arith), next) refl
  next-suc (suc fuel) ms final i x h = elim (Option-cases (get_elem? ms i)) [
    | inl e ↦ rw (e, next) refl
    | inr (m, e) ↦
        rw (e, next)
          (run_script-congr (next fuel ms final) (next (suc fuel) ms final) (i + 1)
            (λ j y l. next-suc fuel ms final j y (omega arith)) (next-index fuel ms final) (i + 1)
            (m.handler x) (omega arith))
  ]

  -- From any position, fuel that covers the middlewares still ahead gives the same run as any larger
  -- fuel: no call of `next` stops for want of fuel.
  pub next-enough :
      (large fuel : ℕ) (ms : List (Middleware X)) (final : X → X × Outcome) (i : ℕ) (x : X)
      → fuel ≤ large
      → length ms ≤ i + fuel
      → next large ms final i x ≡ next fuel ms final i x
  next-enough zero fuel ms final i x l h = let e : fuel ≡ 0 = omega arith in rw e refl
  next-enough (suc large) fuel ms final i x l h = elim (dec_le fuel large) [
    | yes m ↦
        sym (next-suc large ms final i x (omega arith)) ∙ next-enough large fuel ms final i x m h
    | no m ↦ let e : fuel ≡ suc large = omega arith in rw e refl
  ]
