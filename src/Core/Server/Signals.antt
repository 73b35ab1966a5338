-- ===== src/Core/Server/Signals.antt =====
-- mycppwebfw/src/core/server.cpp and signal_handler.cpp: what a signal does to the runs after it.
use gin_cpp.Base.{
  ℕ, ◌+◌, ◌^◌, ◌<◌, ◌≡◌, refl, sym, ap, subst, ◌∙◌, ◌≢◌, inl, inr, true, false, Option, none, some,
  List, [], ◌∷◌, arith, ◌==◌, ==_iff, Bool-cases, Option-cases, some_inj, length, get_elem?,
  length-set,
}
use gin_cpp.Core.Connection.{Connection, Event, handle}
use gin_cpp.Core.Server.{
  Server, create_server, with_pool, put_back, put_back_if, handle_found, handle_at, on_accept,
  graceful_shutdown, reload_config, on_signal, ServerEvent, accepted, on_connection, signalled,
  sighup, serve, run,
}
use gin_cpp.Core.Server.Ownership.{IsServing}
use gin_cpp.Core.Server.Shutdown.{
  IsDown, IsServing-IsDown, length-graceful_shutdown, graceful_shutdown-IsDown,
}
use gin_cpp.Core.Server.Serving.{serve-IsServing}
use gin_cpp.Core.Server.Runs.{create_server-run}

-- A handler of a connection leaves the rest of the server as it is.
put_back_if-keeps :
    (s : Server) (i : ℕ) (o : Option Connection) {t : Server}
    → put_back_if s i o ≡ some t
    → (t.is_accepting ≡ s.is_accepting)
      × (t.has_thread_pool ≡ s.has_thread_pool)
      × (t.is_armed ≡ s.is_armed)
      × (length t.connections ≡ length s.connections)
put_back_if-keeps s i none k = ground (arith, k)
put_back_if-keeps s i (some c) {t} k =
    subst
      (λ (t : Server).
        (t.is_accepting ≡ s.is_accepting)
        × (t.has_thread_pool ≡ s.has_thread_pool)
        × (t.is_armed ≡ s.is_armed)
        × (length t.connections ≡ length s.connections))
      (some_inj (put_back s i c) t k) (refl, refl, refl, length-set s.connections i c)

pub handle_found-keeps :
    (s : Server) (i : ℕ) (e : Event) (o : Option Connection) {t : Server}
    → handle_found s i e o ≡ some t
    → (t.is_accepting ≡ s.is_accepting)
      × (t.has_thread_pool ≡ s.has_thread_pool)
      × (t.is_armed ≡ s.is_armed)
      × (length t.connections ≡ length s.connections)
handle_found-keeps s i e none k = ground (arith, k)
handle_found-keeps s i e (some c) k = put_back_if-keeps s i (handle (with_pool c s.pool) e) k

-- A server that no longer accepts.
abbrev Same : Server → Server → Type 0
Same s t =
    (t.is_accepting ≡ false)
    × (t.has_thread_pool ≡ false)
    × (length t.connections ≡ length s.connections)

on_signal-Same : (s : Server) (most signo : ℕ) → IsDown most s → Same s (on_signal s signo)
unfolding on_signal reload_config
on_signal-Same s most signo d = elim (Bool-cases s.is_armed) [
  | inr off ↦ simp off (d.stopped_accepting, d.no_threads, refl)
  | inl on ↦ elim (Bool-cases (signo == sighup)) [
    | inl h ↦ simp (on, h) (d.stopped_accepting, d.no_threads, refl)
    | inr h ↦
        simp (on, h)
          (down.stopped_accepting, down.no_threads, length-graceful_shutdown most s d.serving)
  ]
]
  where
    down : IsDown most (graceful_shutdown s)
    down = graceful_shutdown-IsDown most s d.serving

serve-Same :
    (s : Server) (most : ℕ) (e : ServerEvent) {t : Server}
    → IsDown most s
    → serve s e ≡ some t
    → Same s t
unfolding serve on_accept handle_at
serve-Same s most (accepted success) {t} d k =
    subst (Same s) (some_inj s t (ground (arith, d.stopped_accepting, k)))
      (d.stopped_accepting, d.no_threads, refl)
serve-Same s most (on_connection i e) d k =
    let m = handle_found-keeps s i e (get_elem? s.connections i) k in
    (m.0 ∙ d.stopped_accepting, m.1 ∙ d.no_threads, m.3)
serve-Same s most (signalled signo) {t} d k =
    subst (Same s) (some_inj (on_signal s signo) t k) (on_signal-Same s most signo d)

-- A server that is down stays down, with the same connections.
serve-IsDown :
    (s : Server) (most : ℕ) (e : ServerEvent) {t : Server}
    → most + 1 < 2 ^ 64
    → IsDown most s
    → serve s e ≡ some t
    → IsDown (most + 1) t × (length t.connections ≡ length s.connections)
serve-IsDown s most e {t} l d k = elim (serve-IsServing s most e l d.serving) [
  | inr (late, n) ↦ absurd (ground (arith, n, k))
  | inl (n, (u, k', w)) ↦
      let m = serve-Same s most e d k in
      (
        IsServing-IsDown (most + 1) t (subst (IsServing (most + 1)) (some_inj u t (sym k' ∙ k)) w)
            m.0 m.1,
        m.2,
      )
]

pub rest_of_run :
    (s : Server) (es : List ServerEvent) (e : ServerEvent) {t u : Server}
    → serve s e ≡ some u
    → run s (e ∷ es) ≡ some t
    → run u es ≡ some t
unfolding run
rest_of_run s es e m k =
    sym (
      ap (λ (o : Option Server). elim o as (λ _. Option Server) [ none ↦ none | some t ↦ run t es ])
        m)
    ∙ k

run-IsDown :
    (s : Server) (most : ℕ) (es : List ServerEvent) {t : Server}
    → most + length es < 2 ^ 64
    → IsDown most s
    → run s es ≡ some t
    → IsDown (most + length es) t × (length t.connections ≡ length s.connections)
unfolding run
run-IsDown s most [] {t} l d k =
    let e = some_inj s t k in
    (
      subst (λ n. IsDown n t) (omega arith) (subst (IsDown most) e d),
      ap (λ x. length x.connections) (sym e),
    )
run-IsDown s most (e ∷ es) {t} l d k = elim (Option-cases (serve s e)) [
  | inl n ↦ absurd (ground (arith, n, k))
  | inr (u, m) ↦
      let (d', g) = serve-IsDown s most e (omega (arith, l)) d m in
      let (r, h) = run-IsDown u (most + 1) es (omega (arith, l)) d' (rest_of_run s es e m k) in
      (subst (λ n. IsDown n t) (omega arith) r, h ∙ g)
]

-- What a run without undefined behaviour leaves is well-formed.
run-some_IsServing :
    (es : List ServerEvent) {s : Server}
    → 128 + length es < 2 ^ 64
    → run create_server es ≡ some s
    → IsServing (128 + length es) s
run-some_IsServing es {s} l k = elim (create_server-run es l) [
  | inl (n, (t, k', v)) ↦ subst (IsServing (128 + length es)) (some_inj t s (sym k' ∙ k)) v
  | inr (late, n) ↦ absurd (ground (arith, n, k))
]

on_signal-IsDown :
    (s : Server) (most signo : ℕ)
    → IsServing most s
    → s.is_armed ≡ true
    → signo ≢ sighup
    → IsDown most (on_signal s signo)
      × (length (on_signal s signo).connections ≡ length s.connections)
unfolding on_signal
on_signal-IsDown s most signo v on other = elim (Bool-cases (signo == sighup)) [
  | inl h ↦ absurd (other ((==_iff signo sighup).0 h))
  | inr h ↦
      simp (on, h)
        (
          IsServing-IsDown most (record (graceful_shutdown s) { is_armed = false })
              (record {
                standing = down.serving.standing;
                owned = down.serving.owned;
                unlimited = down.serving.unlimited;
                settled = down.serving.settled;
              })
              down.stopped_accepting down.no_threads,
          length-graceful_shutdown most s v,
        )
]
  where
    down : IsDown most (graceful_shutdown s)
    down = graceful_shutdown-IsDown most s v

-- A signal other than SIGHUP, at a server that a run without undefined behaviour has left and that still
-- waits for a signal: then every continuation without undefined behaviour finds the server down. Every
-- connection is closed, the manager's set is empty, all buffers are back in the pool or freed, nothing is
-- accepted any more, so there are as many connections as at the signal.
pub on_signal-run :
    (es fs : List ServerEvent) (signo : ℕ) {s t : Server}
    → 128 + length es + length fs < 2 ^ 64
    → run create_server es ≡ some s
    → s.is_armed ≡ true
    → signo ≢ sighup
    → run (on_signal s signo) fs ≡ some t
    → IsDown (128 + length es + length fs) t × (length t.connections ≡ length s.connections)
on_signal-run es fs signo {s} {t} l k on other j =
    let (d, g) =
      on_signal-IsDown s (128 + length es) signo (run-some_IsServing es (omega (arith, l)) k) on
        other in
    let (d', h) = run-IsDown (on_signal s signo) (128 + length es) fs l d j in (d', h ∙ g)
