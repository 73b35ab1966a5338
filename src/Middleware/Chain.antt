-- ===== src/Middleware/Chain.antt =====
-- mycppwebfw/src/middleware/middleware_chain.cpp: the chain keeps the position of the next middleware in
-- a member, so every call of `next`, also a second one by the same middleware, advances it.
pub mod Fuel
pub mod Onion
mod Tests
use gin_cpp.Base.{
  ℕ, zero, suc, ◌+◌, ◌-◌, ◌*◌, ◌/◌, ◌%◌, ◌^◌, ◌≤◌, ◌<◌, ◌≡◌, refl, sym, ap, ◌∙◌, ◌≢◌, ◌↔◌, ◌⊎◌, inl,
  inr, Bool, true, false, not, ◌&&◌, ◌||◌, Option, none, some, List, [], ◌∷◌, ◌++◌, map, arith, ltb,
  leb, ◌==◌, if◌then◌else◌, ltb→lt, lt→ltb, leb→le, ==_iff, ==_refl, Bool-cases, Option-cases,
  length, get_elem?, set, take, drop, replicate, is_empty, length-append, length-replicate,
  get_elem?-some_lt, get_elem?-none_le, lt_of_get_elem?, Has, length-set, get_elem?-set_self,
  get_elem?-set_ne, All, All-append, Text, codes, same, same→eq, same_refl, same_iff, apart,
  drop_two_length_append, Free-append, find, starts_with, find_text, contains_text, Free, find-Free,
  find-none-Free, find-append, Free-take-find, find_parts, take-length_append, drop-length_append,
  drop-suc-length_append, starts_with-append, starts_with_parts, lookup, insert, erase,
  lookup-insert, lookup-erase,
}
use gin_cpp.Base.Int.{ℤ}
use gin_cpp.Middleware.Script.{Outcome, Script, finish, call}

-- struct Middleware
pub record Middleware (X : Type 0) : Type 0 where
  pub handler : X → Script X
  pub priority : ℤ

-- What a call of `next` leaves: m_current_middleware_index, the state and how it ended.
pub record Run (X : Type 0) : Type 0 where
  pub index : ℕ
  pub state : X
  pub outcome : Outcome

module _ {X : Type 0} where
  -- Runs a middleware with `nx` for `next`.
  unfoldable pub run_script : (ℕ → X → Run X) → ℕ → Script X → Run X
  run_script nx i (finish x o) = record { index = i; state = x; outcome = o }
  run_script nx i (call x k) = run_script nx (nx i x).index (k (nx i x).state (nx i x).outcome)

  abbrev pub run_final : (X → X × Outcome) → ℕ → X → Run X
  run_final final i x = record { index = i; state = (final x).0; outcome = (final x).1 }

  -- MiddlewareChain::next, at most `fuel` calls deep.
  unfoldable pub next : ℕ → List (Middleware X) → (X → X × Outcome) → ℕ → X → Run X
  unfolding run_script
  next zero ms final i x = run_final final i x
  next (suc fuel) ms final i x = elim (get_elem? ms i) [
    | none ↦ run_final final i x
    | some m ↦ run_script (next fuel ms final) (i + 1) (m.handler x)
  ]

  -- A new chain, and its first call of `next`.
  unfoldable pub run_chain : List (Middleware X) → (X → X × Outcome) → X → Run X
  unfolding next
  run_chain ms final x = next (length ms) ms final 0 x
