-- ===== src/Middleware/Older/Agreement.antt =====
-- src/middleware (the older tree): the handlers that do what those of the framework do.
use gin_cpp.Base.{
  ℕ, zero, suc, ◌+◌, ◌≡◌, refl, sym, subst, inl, inr, Bool, true, false, Option, none, some, List,
  map, if◌then◌else◌, Option-cases, length, get_elem?, drop, is_empty, Text, codes, starts_with,
}
use gin_cpp.Http.Request.{get_header}
use gin_cpp.Utils.Stores.{ApiKeyRegistry, JwtParser, is_valid, verify}
use gin_cpp.Middleware.Script.{standard, unknown, Outcome, returned, threw, Script, finish, call}
use gin_cpp.Middleware.Chain.{Middleware, Run, run_script, next, run_chain}
use gin_cpp.Middleware.Exchange.{Exchange}
use gin_cpp.Middleware.Handlers.{
  refuse, allow_if_some, auth_handler, create_auth_middleware, caught, handle_error,
  create_error_handler,
}
use gin_cpp.Middleware.Context.{Context, set_value}
use gin_cpp.Middleware.Older
use gin_cpp.Middleware.Older.{go_on_as, auth, catches, error_handler, builder_next, run_builder}
use gin_cpp.Middleware.Older.Builder.{get_elem?-map, length-map, nothing_more}

-- Two runs that make the same calls of next, with the same exchange at each, and end alike.
abbrev pub Agrees : Script Context → Script Exchange → Type 0
Agrees (finish c o) (finish x p) = (c.exchange ≡ x) × (o ≡ p)
Agrees (finish c o) (call x l) = ⊥
Agrees (call c k) (finish x p) = ⊥
Agrees (call c k) (call x l) =
    (c.exchange ≡ x) × ((d : Context) (o : Outcome) → Agrees (k d o) (l d.exchange o))

abbrev pub Same : Run Context → Run Exchange → Type 0
Same r s = (r.index ≡ s.index) × (r.state.exchange ≡ s.state) × (r.outcome ≡ s.outcome)

module _ (f : ℕ → Context → Run Context) (g : ℕ → Exchange → Run Exchange)
    (same_next : (i : ℕ) (c : Context) → Same (f i c) (g i c.exchange)) where
  run_script-Agrees :
      (i : ℕ) (s : Script Context) (t : Script Exchange)
      → Agrees s t
      → Same (run_script f i s) (run_script g i t)
  unfolding run_script
  run_script-Agrees i (finish c o) (finish x p) (e, h) = (refl, e, h)
  run_script-Agrees i (finish c o) (call x l) h = absurd h
  run_script-Agrees i (call c k) (finish x p) h = absurd h
  run_script-Agrees i (call c k) (call x l) (e, h) =
      let r = f i c in
      let m = same_next i c in
      let q : (record { index = r.index; state = r.state.exchange; outcome = r.outcome })
          ≡ g i c.exchange =
        λ j. record { index = m.0 j; state = m.1 j; outcome = m.2 j } in
      subst (λ y. Same (run_script f i (call c k)) (run_script g i (call y l))) e
        (subst
          (λ (z : Run Exchange).
            Same (run_script f i (call c k)) (run_script g z.index (l z.state z.outcome)))
          q
          (run_script-Agrees r.index (k r.state r.outcome) (l r.state.exchange r.outcome)
            (h r.state r.outcome)))

Agrees-if :
    (b : Bool) (s s' : Script Context) (t t' : Script Exchange)
    → Agrees s t
    → Agrees s' t'
    → Agrees (if b then s else s') (if b then t else t')
Agrees-if true s s' t t' h k = h
Agrees-if false s s' t t' h k = k

refuse-Agrees : (c : Context) → Agrees (Older.refuse c) (refuse c.exchange)
unfolding Older.refuse refuse
refuse-Agrees c = (refl, refl)

go_on_as-Agrees :
    (user : Option Text) (c : Context) → Agrees (go_on_as user c) (allow_if_some user c.exchange)
unfolding set_value
go_on_as-Agrees none c = refuse-Agrees c
go_on_as-Agrees (some user) c = (refl, λ d o. (refl, refl))

auth-Agrees :
    (registry : ApiKeyRegistry) (jwt : JwtParser) (c : Context)
    → Agrees (auth registry jwt c) (auth_handler registry jwt c.exchange)
unfolding auth auth_handler
auth-Agrees registry jwt c =
    let header = get_header c.exchange.request (codes "Authorization") in
    Agrees-if (is_empty header) _ _ _ _ (refuse-Agrees c) (
      Agrees-if (starts_with header (codes "Bearer ")) _ _ _ _
        (go_on_as-Agrees (verify jwt (drop 7 header)) c)
        (Agrees-if (starts_with header (codes "ApiKey ")) _ _ _ _
          (go_on_as-Agrees (is_valid registry (drop 7 header)) c) (refuse-Agrees c)))

catches-Agrees : (c : Context) (o : Outcome) → Agrees (catches c o) (handle_error c.exchange o)
unfolding catches handle_error caught
catches-Agrees c returned = (refl, refl)
catches-Agrees c (threw (standard what)) = (refl, refl)
catches-Agrees c (threw unknown) = (refl, refl)

-- The middlewares that both trees have and that act alike.
pub data Kind : Type 0 where
  authenticates : ApiKeyRegistry → JwtParser → Kind
  handles_errors : Kind

abbrev pub older_of : Kind → Context → Script Context
older_of (authenticates registry jwt) = auth registry jwt
older_of handles_errors = error_handler

abbrev pub newer_of : Kind → Middleware Exchange
newer_of (authenticates registry jwt) = create_auth_middleware registry jwt
newer_of handles_errors = create_error_handler

older_of-Agrees : (m : Kind) (c : Context) → Agrees (older_of m c) ((newer_of m).handler c.exchange)
unfolding create_auth_middleware create_error_handler error_handler
older_of-Agrees (authenticates registry jwt) c = auth-Agrees registry jwt c
older_of-Agrees handles_errors c = (refl, λ d o. catches-Agrees d o)

builder_next-Same :
    (fuel : ℕ) (ms : List Kind) (i : ℕ) (c : Context)
    → Same
        (builder_next fuel (map older_of ms) i c)
        (next fuel (map newer_of ms) nothing_more i c.exchange)
unfolding builder_next next
builder_next-Same zero ms i c = (refl, refl, refl)
builder_next-Same (suc fuel) ms i c = elim (Option-cases (get_elem? ms i)) [
  | inl e ↦
      rw (get_elem?-map older_of ms i, get_elem?-map newer_of ms i, e, builder_next, next)
        (refl, refl, refl)
  | inr (m, e) ↦
      rw (get_elem?-map older_of ms i, get_elem?-map newer_of ms i, e, builder_next, next)
        (run_script-Agrees (builder_next fuel (map older_of ms))
          (next fuel (map newer_of ms) nothing_more) (builder_next-Same fuel ms) (i + 1)
          (older_of m c) ((newer_of m).handler c.exchange) (older_of-Agrees m c))
]

-- A chain of authentication and error middlewares of the older tree, in any order and number, leaves the
-- same request, response and log of errors as the chain of the same middlewares of the framework around a
-- final handler that does nothing, from the same exchange, and ends in the same way.
pub run_builder-Same :
    (ms : List Kind) (c : Context)
    → Same (run_builder (map older_of ms) c) (run_chain (map newer_of ms) nothing_more c.exchange)
unfolding run_builder run_chain
run_builder-Same ms c =
    let e = length-map older_of ms in
    let f = length-map newer_of ms in
    subst
      (λ n.
        Same (builder_next n (map older_of ms) 0 c)
          (run_chain (map newer_of ms) nothing_more c.exchange))
      (sym e)
      (subst
        (λ n.
          Same (builder_next (length ms) (map older_of ms) 0 c)
            (next n (map newer_of ms) nothing_more 0 c.exchange))
        (sym f) (builder_next-Same (length ms) ms 0 c))
