-- ===== src/Utils/Tests.antt =====
-- Tests of the utilities.
use gin_cpp.Base.{
  ◌≡◌, refl, List, ◌∷◌, true, false, Option, none, some, [], if◌then◌else◌, Text, codes, same,
  starts_with, contains_text,
}
use gin_cpp.Utils.Stores.{
  SessionStore, SessionCall, sets, removes, get_session, apply_calls, view_steps, apply_calls-view,
}
use gin_cpp.Http.Parser.{blank}
use gin_cpp.Http.Request.{Request}
use gin_cpp.Http.Response.{Response, ok}
use gin_cpp.Utils.Files.{handle_request, handle_request_safe}

abbrev sessions : SessionStore
sessions = record { entries = (codes "a", codes "1") ∷ [] }

abbrev calls : List SessionCall
calls = sets (codes "b") (codes "2") ∷ removes (codes "a") ∷ []

apply_calls-view_example :
    get_session (apply_calls sessions calls) (codes "b")
    ≡ view_steps (get_session sessions) calls (codes "b")
apply_calls-view_example =
    apply_calls-view sessions calls (get_session sessions) (λ j. refl) (codes "b")

abbrev fresh : Response
fresh = record { status = ok; headers = []; content = [] }

abbrev one_file : Text → Option Text
one_file p = if same p (codes "www/a.txt") then some (codes "hello") else none

abbrev asked : Request
asked = record blank { uri = codes "/www/a.txt" }

handle_request_safe_example :
    ((p : Text)
      → (handle_request one_file (codes "www") asked fresh).opened ≡ some p
      → (starts_with p (codes "www") ≡ true) × (contains_text p (codes "..") ≡ false))
    × ((handle_request one_file (codes "www") asked fresh).response.status ≡ ok
        → (p : Text) × ((handle_request one_file (codes "www") asked fresh).opened ≡ some p)
          × (one_file p
              ≡ some (handle_request one_file (codes "www") asked fresh).response.content))
handle_request_safe_example = handle_request_safe one_file (codes "www") asked fresh
