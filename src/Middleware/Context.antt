-- ===== src/Middleware/Context.antt =====
-- include/mycppwebfw/context/context.h (the older tree): the request, the response and the values that middlewares leave
-- for one another. Every caller stores std::string, so a value is a text.
use gin_cpp.Base.{Option, List, Text, lookup, insert}
use gin_cpp.Middleware.Exchange.{Exchange}

-- The references to the request and the response are in `exchange`, whose current_request_id is not used.
pub record Context : Type 0 where
  pub exchange : Exchange
  pub values : List (Text × Text)

unfoldable pub set_value : Text → Text → Context → Context
set_value key value ctx = record ctx { values = insert key value ctx.values }

-- get<std::string>; `none` is nullptr.
unfoldable pub get_value : Text → Context → Option Text
get_value key ctx = lookup key ctx.values
