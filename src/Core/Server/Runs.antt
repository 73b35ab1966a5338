-- ===== src/Core/Server/Runs.antt =====
-- mycppwebfw/src/core/server.cpp and signal_handler.cpp: runs of the server, and how a signal ends them.
use gin_cpp.Base.{
  ℕ, ◌+◌, ◌^◌, ◌<◌, ◌≡◌, refl, subst, ◌⊎◌, inl, inr, Bool, true, false, ◌||◌, none, some, List, [],
  ◌∷◌, arith, length,
}
use gin_cpp.Core.BufferPool.{create_pool}
use gin_cpp.Core.BufferPool.Ownership.{create_pool-IsOwned}
use gin_cpp.Core.Server.{Server, create_server, ServerEvent, serve, run}
use gin_cpp.Core.Server.Ownership.{IsServing, is_unsafe_at}
use gin_cpp.Core.Server.Serving.{serve-IsServing}

-- Whether a run meets an event that the code is not safe from.
unfoldable pub has_unsafe : Server → List ServerEvent → Bool
unfolding serve is_unsafe_at
has_unsafe s [] = false
has_unsafe s (e ∷ es) =
    let rest : Bool = elim (serve s e) [ none ↦ false | some t ↦ has_unsafe t es ] in
    is_unsafe_at s e || rest

-- What a run leaves: a server between two handlers, or nothing because of an event that is not safe.
abbrev pub Runs : ℕ → Server → List ServerEvent → Type 0
Runs most s es =
    ((has_unsafe s es ≡ false) × ((t : Server) × (run s es ≡ some t) × IsServing most t))
    ⊎ ((has_unsafe s es ≡ true) × (run s es ≡ none))

pub run-IsServing :
    (s : Server) (most : ℕ) (es : List ServerEvent)
    → most + length es < 2 ^ 64
    → IsServing most s
    → Runs (most + length es) s es
unfolding run has_unsafe
run-IsServing s most [] l v = inl (refl, (s, refl, subst (λ n. IsServing n s) (omega arith) v))
run-IsServing s most (e ∷ es) l v = elim (serve-IsServing s most e (omega (arith, l)) v) [
  | inl (n, (t, k, w)) ↦
      rw (n, k, run, has_unsafe)
        (subst (λ m. Runs m t es) (omega arith)
          (run-IsServing t (most + 1) es (omega (arith, l)) w))
  | inr (unsafe, k) ↦ inr (ground (arith, unsafe), ground (arith, k))
]

pub create_server-IsServing : IsServing 128 create_server
unfolding create_server create_pool
create_server-IsServing = record {
  standing = tt;
  owned = create_pool-IsOwned 8192 128 0;
  unlimited = refl;
  settled = λ e. absurd (ground arith);
}

pub create_server-run :
    (es : List ServerEvent) → 128 + length es < 2 ^ 64 → Runs (128 + length es) create_server es
create_server-run es l = run-IsServing create_server 128 es l create_server-IsServing
