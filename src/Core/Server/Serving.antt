-- ===== src/Core/Server/Serving.antt =====
-- mycppwebfw/src/core/server.cpp: every handler of the server, and every run of it.
use gin_cpp.Base.{
  ℕ, ◌+◌, ◌^◌, ◌<◌, ◌≡◌, refl, sym, ap, subst, ◌∙◌, ◌⊎◌, inl, inr, Bool, true, false, not, none,
  some, List, [], ◌∷◌, ◌++◌, arith, ◌==◌, if◌then◌else◌, Bool-cases, All-append,
}
use gin_cpp.Core.BufferPool.{BufferPool, acquire_from, acquire}
use gin_cpp.Core.BufferPool.Ownership.{
  hold, IsOwned, IsOwned-held, IsOwned-more, acquire_from-IsOwned,
}
use gin_cpp.Core.Connection.{reading, Connection, create_connection, start}
use gin_cpp.Core.Connection.Phases.{IsLive, do_read-IsLive}
use gin_cpp.Core.Server.{
  Server, add_connection, on_accept, graceful_shutdown, reload_config, on_signal, ServerEvent,
  accepted, on_connection, signalled, sighup, serve,
}
use gin_cpp.Core.Server.Connections.{Standing, live_at, holders, holders-append}
use gin_cpp.Core.Server.Ownership.{IsServing, is_unsafe_at, handle_at-IsServing}
use gin_cpp.Core.Server.Shutdown.{graceful_shutdown-IsDown}

-- A pool without a limit always gives a buffer.
acquire_from-unlimited :
    (p : BufferPool) (bs : List ℕ)
    → p.max_memory ≡ 0
    → (b : ℕ) × ((acquire_from p bs).buffer ≡ some b) × ((acquire_from p bs).left.max_memory ≡ 0)
acquire_from-unlimited p [] u = (p.fresh, ground arith, ground arith)
acquire_from-unlimited p (b ∷ bs) u = (b, refl, u)

-- The new connection serves with a buffer of its own.
starts :
    (pool : BufferPool) (b : ℕ)
    → (acquire pool).buffer ≡ some b
    → (c : Connection) × (start (create_connection pool) ≡ some c) × IsLive (acquire pool).left b c
unfolding start create_connection
starts pool b e =
    do_read-IsLive (acquire pool).left b
      (record (create_connection pool) { state = reading; managed = true }) e refl
      (λ u. ground arith) refl

add_connection-IsServing :
    (s : Server) (most : ℕ)
    → most + 1 < 2 ^ 64
    → s.is_accepting ≡ true
    → IsServing most s
    → (t : Server) × (add_connection s (start (create_connection s.pool)) ≡ some t)
      × IsServing (most + 1) t
unfolding acquire
add_connection-IsServing s most l acc v =
    let (b, e, u) = acquire_from-unlimited s.pool s.pool.pool v.unlimited in
    let (c, k, w) = starts s.pool b e in
    let o =
      subst
        (λ x.
          IsOwned (most + 1)
            (hold (record { buffer = x; left = (acquire s.pool).left }) (holders s.connections)))
        e
        (acquire_from-IsOwned (record { pool = s.pool; held = holders s.connections }) most
          s.pool.pool refl l v.owned) in
    (
      _,
      ap (add_connection s) k,
      record {
        standing =
            All-append Standing s.connections (c ∷ []) v.standing
              (inl (b, live_at (acquire s.pool).left b c w), tt);
        owned =
            subst
              (λ p.
                IsOwned (most + 1) (record { pool = p; held = holders (s.connections ++ c ∷ []) }))
              (sym w.took)
              (IsOwned-held (acquire s.pool).left (b ∷ holders s.connections)
                (holders (s.connections ++ c ∷ [])) (most + 1)
                (λ d. (holders-append s.connections c b d w.has_buffer).0)
                (holders-append s.connections c b b w.has_buffer).1 o);
        unlimited = ap (λ p. p.max_memory) w.took ∙ u;
        settled = λ f. absurd (ground arith);
      },
    )

more : (s : Server) (most : ℕ) → IsServing most s → IsServing (most + 1) s
more s most v = record {
  standing = v.standing;
  owned = IsOwned-more _ most (most + 1) (omega arith) v.owned;
  unlimited = v.unlimited;
  settled = v.settled;
}

on_accept-IsServing :
    (s : Server) (most : ℕ) (success : Bool)
    → most + 1 < 2 ^ 64
    → IsServing most s
    → (t : Server) × (on_accept s success ≡ some t) × IsServing (most + 1) t
unfolding on_accept
on_accept-IsServing s most true l v = elim (Bool-cases s.is_accepting) [
  | inr shut_off ↦ (s, ground arith, more s most v)
  | inl open_now ↦
      let (t, k, w) = add_connection-IsServing s most l open_now v in
      (
        t,
        ap (λ b. if not b then some s else add_connection s (start (create_connection s.pool)))
              open_now
            ∙ k,
        w,
      )
]
on_accept-IsServing s most false l v = (s, ground arith, more s most v)

disarmed :
    (s : Server) (most : ℕ) → IsServing most s → IsServing most (record s { is_armed = false })
disarmed s most v = record {
  standing = v.standing;
  owned = v.owned;
  unlimited = v.unlimited;
  settled = v.settled;
}

pub on_signal-IsServing :
    (s : Server) (most signo : ℕ) → IsServing most s → IsServing most (on_signal s signo)
unfolding on_signal reload_config
on_signal-IsServing s most signo v = elim (Bool-cases s.is_armed) [
  | inr off ↦ simp off v
  | inl on ↦ elim (Bool-cases (signo == sighup)) [
    | inl h ↦ simp (on, h) (disarmed s most v)
    | inr h ↦
        simp (on, h)
          (disarmed (graceful_shutdown s) most (graceful_shutdown-IsDown most s v).serving)
  ]
]

-- Of a server between two handlers, every event is safe and leaves one, or is not and is undefined behaviour.
pub serve-IsServing :
    (s : Server) (most : ℕ) (e : ServerEvent)
    → most + 1 < 2 ^ 64
    → IsServing most s
    → ((is_unsafe_at s e ≡ false) × ((t : Server) × (serve s e ≡ some t) × IsServing (most + 1) t))
      ⊎ ((is_unsafe_at s e ≡ true) × (serve s e ≡ none))
unfolding serve is_unsafe_at
serve-IsServing s most (accepted success) l v = inl (refl, on_accept-IsServing s most success l v)
serve-IsServing s most (signalled signo) l v =
    inl (refl, (on_signal s signo, refl, more _ most (on_signal-IsServing s most signo v)))
serve-IsServing s most (on_connection i e) l v = elim (handle_at-IsServing s most i e v) [
  | inl (n, (t, k, w)) ↦ inl (n, (t, k, more t most w))
  | inr unsafe ↦ inr unsafe
]
