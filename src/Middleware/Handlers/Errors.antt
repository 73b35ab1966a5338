-- ===== src/Middleware/Handlers/Errors.antt =====
-- mycppwebfw/src/middleware/error_handler.cpp: what becomes of an exception.
use gin_cpp.Base.{◌≡◌, refl, List, [], ◌∷◌, ◌++◌, All}
use gin_cpp.Http.Response.{internal_server_error}
use gin_cpp.Utils.Renderer.{render_lem}
use gin_cpp.Middleware.Script.{Exception, Outcome, returned, threw}
use gin_cpp.Middleware.Chain.{Middleware, run_chain}
use gin_cpp.Middleware.Chain.Onion.{around, onion, IsSingle, run_chain-onion}
use gin_cpp.Middleware.Exchange.{Exchange}
use gin_cpp.Middleware.Handlers.{caught, handle_error, create_error_handler}

pub create_error_handler-IsSingle : IsSingle create_error_handler
unfolding create_error_handler
create_error_handler-IsSingle x x' returned = tt
create_error_handler-IsSingle x x' (threw e) = tt

-- What the error handler guarantees of a run, given what the handlers inside it did.
pub data IsHandled (inner outer : Exchange × Outcome) : Type 0 where
  untouched : inner.1 ≡ returned → outer ≡ inner → IsHandled inner outer
  answered :
      (e : Exception)
      → inner.1 ≡ threw e
      → outer.1 ≡ returned
      → outer.0.response.status ≡ internal_server_error
      → outer.0.log ≡ inner.0.log ++ (caught e).0 ∷ []
      → IsHandled inner outer

handle_error-IsHandled :
    (rest : Exchange → Exchange × Outcome) (y : Exchange) (o : Outcome)
    → IsHandled (y, o) (around rest (handle_error y o))
unfolding handle_error around
handle_error-IsHandled rest y returned = untouched refl refl
handle_error-IsHandled rest y (threw e) =
    answered e refl refl (render_lem y.response internal_server_error (caught e).1 _).0 refl

-- The error handler at the head of any middlewares that call `next` at most once: whatever they and
-- the final handler do, the run ends without an exception; where they end without one its result is
-- theirs, and where they throw, the response has status 500 and the exception's message is logged.
pub run_chain-IsHandled :
    (ms : List (Middleware Exchange)) (final : Exchange → Exchange × Outcome) (x : Exchange)
    → All IsSingle ms
    → IsHandled (onion ms final x) (
      (run_chain (create_error_handler ∷ ms) final x).state,
      (run_chain (create_error_handler ∷ ms) final x).outcome,
    )
unfolding onion create_error_handler
run_chain-IsHandled ms final x h =
    rw (run_chain-onion (create_error_handler ∷ ms) final x (create_error_handler-IsSingle, h))
      (handle_error-IsHandled (onion ms final) (onion ms final x).0 (onion ms final x).1)
