-- ===== src/Middleware/Exchange.antt =====
-- The state that a handler of the framework sees: mycppwebfw/include/mycppwebfw/middleware/middleware.h, with
-- what the middlewares touch beside the request and the response.
use gin_cpp.Base.{ℕ, List, Text}
use gin_cpp.Http.Request.{Request}
use gin_cpp.Http.Response.{Response, StatusCode}

-- `drawn` counts the identifiers that the generator has given; `log` holds the messages of ErrorLogger,
-- the newest last.
pub record Exchange : Type 0 where
  pub request : Request
  pub response : Response
  pub current_request_id : Text
  pub drawn : ℕ
  pub log : List Text

abbrev pub respond : Exchange → StatusCode → Text → Exchange
respond x status content = record x {
  response = record response { status = status; content = content };
}
  where
    open x use {response}
