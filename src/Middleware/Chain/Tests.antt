-- ===== src/Middleware/Chain/Tests.antt =====
-- A chain whose middleware calls `next` twice, and the theorems about chains on concrete ones.
use gin_cpp.Base.{ℕ, ◌≡◌, refl, List, [], ◌∷◌, arith}
use gin_cpp.Base.Int.{pos}
use gin_cpp.Middleware.Script.{Outcome, returned, call, tail_call}
use gin_cpp.Middleware.Chain.{Middleware, next, run_chain}
use gin_cpp.Middleware.Chain.Fuel.{next-enough}
use gin_cpp.Middleware.Chain.Onion.{onion, run_chain-onion}

-- Middlewares over a list of marks.
abbrev mark : ℕ → Middleware (List ℕ)
mark n = record { handler = λ x. tail_call (n ∷ x); priority = pos 0 }

abbrev twice : Middleware (List ℕ)
twice = record { handler = λ x. call x (λ y o. tail_call y); priority = pos 0 }

abbrev last : List ℕ → List ℕ × Outcome
last x = (0 ∷ x, returned)

-- The second call of `next` goes on behind the middlewares that the first one ran.
run_chain-twice : (run_chain (twice ∷ mark 1 ∷ []) last []).state ≡ 0 ∷ 0 ∷ 1 ∷ []
unfolding run_chain
run_chain-twice = refl

next-enough_example :
    next 7 (mark 1 ∷ mark 2 ∷ []) last 1 [] ≡ next 1 (mark 1 ∷ mark 2 ∷ []) last 1 []
next-enough_example = next-enough 7 1 (mark 1 ∷ mark 2 ∷ []) last 1 [] (omega arith) (omega arith)

run_chain-onion_example :
    ((run_chain (mark 1 ∷ []) last []).state, (run_chain (mark 1 ∷ []) last []).outcome)
    ≡ onion (mark 1 ∷ []) last []
run_chain-onion_example = run_chain-onion (mark 1 ∷ []) last [] ((λ x x' o. tt), tt)
