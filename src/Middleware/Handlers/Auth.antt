-- ===== src/Middleware/Handlers/Auth.antt =====
-- mycppwebfw/src/middleware/auth.cpp: who gets through.
use gin_cpp.Base.{
  ◌≡◌, refl, ◌≢◌, ◌⊎◌, inl, inr, true, Option, none, some, ◌++◌, arith, Bool-cases, drop, is_empty,
  Text, codes, starts_with, starts_with_parts,
}
use gin_cpp.Http.Request.{get_header}
use gin_cpp.Http.Response.{unauthorized}
use gin_cpp.Utils.Stores.{ApiKeyRegistry, JwtParser, is_valid, verify}
use gin_cpp.Middleware.Script.{returned, finish, tail_call, AtMostOnce}
use gin_cpp.Middleware.Chain.Onion.{IsSingle}
use gin_cpp.Middleware.Exchange.{Exchange, respond}
use gin_cpp.Middleware.Handlers.{refuse, allow_if_some, auth_handler, create_auth_middleware}

-- The credentials that the registry and the parser accept, without the order of the code's tests.
abbrev pub IsAuthorized : ApiKeyRegistry → JwtParser → Text → Type 0
IsAuthorized registry jwt header =
    ((token : Text) × (header ≡ codes "Bearer " ++ token) × (verify jwt token ≢ none))
    ⊎ ((key : Text) × (header ≡ codes "ApiKey " ++ key) × (is_valid registry key ≢ none))

allow_if_some-some : (o : Option Text) (x : Exchange) → o ≢ none → allow_if_some o x ≡ tail_call x
allow_if_some-some none x h = absurd (h refl)
allow_if_some-some (some u) x h = refl

-- A request with an accepted credential goes to the next middleware unchanged.
auth_handler-allows :
    (registry : ApiKeyRegistry) (jwt : JwtParser) (x : Exchange)
    → IsAuthorized registry jwt (get_header x.request (codes "Authorization"))
    → auth_handler registry jwt x ≡ tail_call x
unfolding auth_handler starts_with
auth_handler-allows registry jwt x (inl (token, e, h)) = rw e (allow_if_some-some _ x h)
auth_handler-allows registry jwt x (inr (key, e, h)) = rw e (allow_if_some-some _ x h)

none_of : (o : Option Text) → ¬ (o ≢ none) → o ≡ none
none_of none h = refl
none_of (some a) h = absurd (h (λ e. cc))

auth_handler-refuses :
    (registry : ApiKeyRegistry) (jwt : JwtParser) (x : Exchange)
    → ¬ IsAuthorized registry jwt (get_header x.request (codes "Authorization"))
    → auth_handler registry jwt x ≡ refuse x
unfolding auth_handler
auth_handler-refuses registry jwt x h = go (get_header x.request (codes "Authorization")) refl
  where
    header : Text
    header = get_header x.request (codes "Authorization")

    bearer : starts_with header (codes "Bearer ") ≡ true → verify jwt (drop 7 header) ≡ none
    bearer s =
        none_of _ (λ k. h (inl (drop 7 header, starts_with_parts header (codes "Bearer ") s, k)))

    api_key : starts_with header (codes "ApiKey ") ≡ true → is_valid registry (drop 7 header) ≡ none
    api_key s =
        none_of _ (λ k. h (inr (drop 7 header, starts_with_parts header (codes "ApiKey ") s, k)))

    go : (t : Text) → header ≡ t → auth_handler registry jwt x ≡ refuse x
    go t e = elim (Bool-cases (is_empty header)) [
      | inl k ↦ rw k refl
      | inr k ↦ rw k (elim (Bool-cases (starts_with header (codes "Bearer "))) [
        | inl b ↦ rw b (rw (bearer b) refl)
        | inr b ↦ rw b (elim (Bool-cases (starts_with header (codes "ApiKey "))) [
          | inl a ↦ rw a (rw (api_key a) refl)
          | inr a ↦ rw a refl
        ])
      ])
    ]

-- The authentication middleware lets exactly the requests with an accepted credential in their first
-- Authorization header through to the next handler, unchanged; it ends every other request with status
-- 401 and the content "Unauthorized", without calling the next handler.
pub auth_handler_lem :
    (registry : ApiKeyRegistry) (jwt : JwtParser) (x : Exchange)
    → (IsAuthorized registry jwt (get_header x.request (codes "Authorization"))
        → auth_handler registry jwt x ≡ tail_call x)
      × (¬ IsAuthorized registry jwt (get_header x.request (codes "Authorization"))
          → auth_handler registry jwt x
            ≡ finish (respond x unauthorized (codes "Unauthorized")) returned)
unfolding refuse
auth_handler_lem registry jwt x =
    (auth_handler-allows registry jwt x, auth_handler-refuses registry jwt x)

allow_if_some-AtMostOnce : (o : Option Text) (x : Exchange) → AtMostOnce (allow_if_some o x)
unfolding refuse
allow_if_some-AtMostOnce none x = tt
allow_if_some-AtMostOnce (some u) x = λ x' o. tt

pub create_auth_middleware-IsSingle :
    (registry : ApiKeyRegistry) (jwt : JwtParser) → IsSingle (create_auth_middleware registry jwt)
unfolding create_auth_middleware refuse
create_auth_middleware-IsSingle registry jwt x = ground (
  arith,
  allow_if_some-AtMostOnce (verify jwt (drop 7 (get_header x.request (codes "Authorization")))) x,
  allow_if_some-AtMostOnce
      (is_valid registry (drop 7 (get_header x.request (codes "Authorization")))) x,
)
