-- ===== src/Middleware/Older/Tests.antt =====
-- The older tree at concrete contexts.
use gin_cpp.Base.{ℕ, ◌≡◌, refl, List, [], ◌∷◌, map, arith, Text, codes, same, lookup}
use gin_cpp.Http.Request.{Header, get_header}
use gin_cpp.Http.Parser.{blank}
use gin_cpp.Http.Response.{ok, unauthorized}
use gin_cpp.Utils.Stores.{ApiKeyRegistry, JwtParser}
use gin_cpp.Middleware.Script.{tail_call}
use gin_cpp.Middleware.Chain.{run_chain}
use gin_cpp.Middleware.Context.{Context}
use gin_cpp.Middleware.Session.{parse_cookies, session_cookie}
use gin_cpp.Middleware.Older.{error_handler, auth, session, run_builder}
use gin_cpp.Middleware.Older.Builder.{nothing_more}
use gin_cpp.Middleware.Older.Agreement.{
  Same, Kind, authenticates, handles_errors, older_of, newer_of, run_builder-Same,
}
use gin_cpp.Middleware.Older.Values.{Adds, session_again}

abbrev asking : List Header → Context
asking hs = record {
  exchange = record {
    request = record blank { headers = hs };
    response = record { status = ok; headers = []; content = [] };
    current_request_id = [];
    drawn = 0;
    log = [];
  };
  values = [];
}

abbrev registry : ApiKeyRegistry
registry = record { keys = (codes "k1", codes "ann") ∷ [] }

abbrev jwt : JwtParser
jwt = record { secret = codes "s" }

abbrev with_key : Context
with_key = asking (record { name = codes "Authorization"; value = codes "ApiKey k1" } ∷ [])

abbrev id_of : ℕ → Text
id_of n = codes "id"

abbrev returning : Context
returning = asking (record { name = codes "Cookie"; value = session_cookie (codes "id") } ∷ [])

session_again_example :
    (c : Context) × (d : Context) × (session id_of (asking []) ≡ tail_call c)
    × (session id_of returning ≡ tail_call d)
    × Adds (codes "session_id") (codes "id") (asking []) c
    × Adds (codes "session_id") (codes "id") returning d
    × (c.exchange.response.headers
        ≡ record { name = codes "Set-Cookie"; value = session_cookie (codes "id") } ∷ [])
    × (d.exchange ≡ returning.exchange)
unfolding get_header parse_cookies lookup same
session_again_example = session_again id_of (asking []) returning (omega arith) refl refl

abbrev kinds : List Kind
kinds = handles_errors ∷ authenticates registry jwt ∷ []

run_builder-Same_example :
    Same
      (run_builder (map older_of kinds) with_key)
      (run_chain (map newer_of kinds) nothing_more with_key.exchange)
run_builder-Same_example = run_builder-Same kinds with_key

stranger :
    (run_builder (map older_of kinds) (asking [])).state.exchange.response.status ≡ unauthorized
unfolding run_builder get_header error_handler auth
stranger = refl
