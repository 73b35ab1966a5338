-- ===== src/Middleware/Handlers/Tests.antt =====
-- The middlewares on concrete exchanges, and the theorems applied there.
use gin_cpp.Base.{
  ◌≡◌, refl, ◌≢◌, List, [], ◌∷◌, ◌++◌, arith, Text, codes, same, starts_with, lookup,
}
use gin_cpp.Http.Request.{Header, get_header}
use gin_cpp.Http.Response.{unauthorized}
use gin_cpp.Utils.Stores.{ApiKeyRegistry, JwtParser, is_valid, verify}
use gin_cpp.Middleware.Script.{standard, Outcome, returned, threw, finish, tail_call}
use gin_cpp.Middleware.Chain.{Middleware, run_chain}
use gin_cpp.Middleware.Chain.Onion.{onion}
use gin_cpp.Middleware.Exchange.{Exchange, respond}
use gin_cpp.Middleware.Handlers.{
  refuse, auth_handler, create_auth_middleware, create_error_handler, request_id_handler,
}
use gin_cpp.Http.Parser.{iscntrl, blank}
use gin_cpp.Http.Response.{ok}
use gin_cpp.Middleware.Handlers.Auth.{
  IsAuthorized, auth_handler_lem, create_auth_middleware-IsSingle,
}
use gin_cpp.Middleware.Handlers.Errors.{IsHandled, run_chain-IsHandled}
use gin_cpp.Middleware.Handlers.Ids.{IsPrintable, request_id_handler_lem}

abbrev asking : List Header → Exchange
asking hs = record {
  request = record blank { headers = hs };
  response = record { status = ok; headers = []; content = [] };
  current_request_id = [];
  drawn = 0;
  log = [];
}

abbrev registry : ApiKeyRegistry
registry = record { keys = (codes "k1", codes "ann") ∷ [] }

abbrev jwt : JwtParser
jwt = record { secret = [] }

abbrev with_key : Exchange
with_key = asking (record { name = codes "Authorization"; value = codes "ApiKey k1" } ∷ [])

abbrev throwing : Exchange → Exchange × Outcome
throwing x = (x, threw (standard (codes "boom")))

auth_handler_tests :
    (auth_handler registry jwt with_key ≡ tail_call with_key)
    × (auth_handler registry jwt (asking [])
        ≡ finish (respond (asking []) unauthorized (codes "Unauthorized")) returned)
unfolding auth_handler refuse is_valid verify get_header starts_with same lookup
auth_handler_tests = (refl, refl)

auth_handler_lem_example :
    (IsAuthorized registry jwt (get_header with_key.request (codes "Authorization"))
      → auth_handler registry jwt with_key ≡ tail_call with_key)
    × (¬ IsAuthorized registry jwt (get_header with_key.request (codes "Authorization"))
        → auth_handler registry jwt with_key
          ≡ finish (respond with_key unauthorized (codes "Unauthorized")) returned)
auth_handler_lem_example = auth_handler_lem registry jwt with_key

abbrev guarded : List (Middleware Exchange)
guarded = create_auth_middleware registry jwt ∷ []

run_chain-IsHandled_example : IsHandled (onion guarded throwing with_key) (
  (run_chain (create_error_handler ∷ guarded) throwing with_key).state,
  (run_chain (create_error_handler ∷ guarded) throwing with_key).outcome,
)
run_chain-IsHandled_example =
    run_chain-IsHandled guarded throwing with_key (create_auth_middleware-IsSingle registry jwt, tt)

request_id_handler_lem_example :
    (y : Exchange) × (value : Text) × (request_id_handler (λ n. codes "7") with_key ≡ tail_call y)
    × (y.request ≡ with_key.request)
    × (y.response.headers
        ≡ with_key.response.headers ++ record { name = codes "X-Request-ID"; value = value } ∷ [])
    × (get_header with_key.request (codes "X-Request-ID") ≢ []
        → value ≡ get_header with_key.request (codes "X-Request-ID"))
    × (get_header with_key.request (codes "X-Request-ID") ≡ [] → value ≡ codes "7")
    × IsPrintable value
unfolding iscntrl
request_id_handler_lem_example =
    request_id_handler_lem (λ n. codes "7") with_key
      (record { letters = tt; target = tt; fields = (ground arith, tt) }) (λ n. ground arith)
