-- ===== src/Routing/Router/Order.antt =====
-- mycppwebfw/src/routing/router.cpp: the order in which the middlewares of a route run.
use gin_cpp.Base.{
  ◌≡◌, refl, ap, ◌∙◌, inl, inr, Bool, true, false, Option, [], ◌∷◌, ◌++◌, Bool-cases, All, Text,
}
use gin_cpp.Base.Sort.{sort, place}
use gin_cpp.Middleware.Script.{Exception, threw, finish}
use gin_cpp.Middleware.Chain.{Middleware, run_chain, next, run_script}
use gin_cpp.Middleware.Exchange.{Exchange}
use gin_cpp.Middleware.Handlers.{create_error_handler}
use gin_cpp.Routing.Trie.{HttpHandler, Middlewares, TrieNode}
use gin_cpp.Routing.Router.{
  create_router, lower_priority, ordered_middlewares, final_handler, node_handler,
}

place-last :
    (m : Middleware Exchange) (ms : Middlewares)
    → All (λ n. lower_priority n m ≡ true) ms
    → place lower_priority m ms ≡ ms ++ m ∷ []
unfolding place
place-last m [] h = refl
place-last m (n ∷ ms) h = rw h.0 (ap (◌∷◌ n) (place-last m ms h.1))

All-place :
    (P : Middleware Exchange → Type 0) (m : Middleware Exchange) (ms : Middlewares)
    → P m
    → All P ms
    → All P (place lower_priority m ms)
unfolding place
All-place P m [] p h = (p, tt)
All-place P m (n ∷ ms) p h = elim (Bool-cases (lower_priority n m)) [
  | inl e ↦ rw e (h.0, All-place P m ms p h.1)
  | inr e ↦ rw e (p, h)
]

All-sort :
    (P : Middleware Exchange → Type 0) (ms : Middlewares)
    → All P ms
    → All P (sort lower_priority ms)
unfolding sort
All-sort P [] h = tt
All-sort P (m ∷ ms) h = All-place P m (sort lower_priority ms) h.0 (All-sort P ms h.1)

-- On a new router every route whose middlewares have priorities below 100 runs them all before the
-- error handler, which the sort in ascending order puts last.
pub ordered_middlewares_last :
    (ms : Middlewares)
    → All (λ m. lower_priority m create_error_handler ≡ true) ms
    → ordered_middlewares create_router ms ≡ sort lower_priority ms ++ create_error_handler ∷ []
unfolding ordered_middlewares create_router sort
ordered_middlewares_last ms h =
    place-last create_error_handler (sort lower_priority ms)
      (All-sort (λ m. lower_priority m create_error_handler ≡ true) ms h)

-- The run of a chain whose first middleware throws before it calls the next one.
run_chain-throws :
    (ms rest : Middlewares) (m : Middleware Exchange) (final : HttpHandler) (x y : Exchange)
    (e : Exception)
    → ms ≡ m ∷ rest
    → m.handler x ≡ finish y (threw e)
    → run_chain ms final x ≡ record { index = 1; state = y; outcome = threw e }
unfolding run_chain next run_script
run_chain-throws ms rest m final x y e s t = rw (s, t) refl

-- On a new router, for a node that is no static file root and whose middlewares all have a lower priority than
-- the error handler: if the first of them, sorted by priority, throws before it calls the next one, the exception
-- leaves the handler of the matched node, with the state in which that middleware threw.
pub node_handler_uncaught :
    (regex_match : Text → Text → Option Bool) (files : Text → Option Text) (node : TrieNode)
    (m : Middleware Exchange) (rest : Middlewares) (x y : Exchange) (e : Exception)
    → node.is_static_files ≡ false
    → All (λ n. lower_priority n create_error_handler ≡ true) node.middlewares
    → sort lower_priority node.middlewares ≡ m ∷ rest
    → m.handler x ≡ finish y (threw e)
    → node_handler regex_match files create_router node x ≡ (y, threw e)
unfolding node_handler ordered_middlewares
node_handler_uncaught regex_match files node m rest x y e f h s t = rw f (
    ap (λ run. (run.state, run.outcome))
      (run_chain-throws (sort lower_priority (create_router.global_middlewares ++ node.middlewares))
        (rest ++ create_error_handler ∷ []) m (final_handler regex_match files node.handler) x y e
        (ordered_middlewares_last node.middlewares h ∙ ap (λ l. l ++ create_error_handler ∷ []) s)
        t))
