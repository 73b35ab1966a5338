-- ===== src/Middleware/Script.antt =====
-- A handler that may call `next`, as the tree of its calls: mycppwebfw/include/mycppwebfw/middleware/middleware.h
-- and include/mycppwebfw/middleware/base_middleware.h. What a handler does between two calls is a function of
-- the state it sees; the position in the chain is hidden from it.
use gin_cpp.Base.{Text}

-- An exception that derives from std::exception carries its what().
pub data Exception : Type 0 where
  standard : Text → Exception
  unknown : Exception

pub data Outcome : Type 0 where
  returned : Outcome
  threw : Exception → Outcome

-- A run of a handler over the state X (the request, the response and what else the program holds):
-- it ends, or calls `next` with the state as it stands and goes on with what `next` leaves.
pub data Script (X : Type 0) : Type 0 where
  finish : X → Outcome → Script X
  call : X → (X → Outcome → Script X) → Script X

-- `next();` as the last statement.
abbrev pub tail_call : {X : Type 0} → X → Script X
tail_call x = call x finish

-- A run that does not call `next`, and one that calls it at most once whatever the call leaves.
abbrev pub NoCall : {X : Type 0} → Script X → Type 0
NoCall (finish x o) = Unit
NoCall (call x k) = ⊥

abbrev pub AtMostOnce : {X : Type 0} → Script X → Type 0
AtMostOnce (finish x o) = Unit
AtMostOnce {X} (call x k) = (x' : X) (o : Outcome) → NoCall (k x' o)
