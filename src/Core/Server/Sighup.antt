-- ===== src/Core/Server/Sighup.antt =====
-- mycppwebfw/src/core/server.cpp and signal_handler.cpp: the runs after a SIGHUP.
use gin_cpp.Base.{
  ◌≡◌, refl, sym, ap, subst, ◌∙◌, inl, inr, Bool, true, false, not, Option, none, some, List, [],
  ◌∷◌, arith, if◌then◌else◌, Bool-cases, Option-cases, some_inj, get_elem?,
}
use gin_cpp.Core.Connection.{Connection, create_connection, start}
use gin_cpp.Core.Server.{
  Server, handle_at, add_connection, on_accept, reload_config, on_signal, ServerEvent, accepted,
  on_connection, signalled, sighup, serve, run,
}
use gin_cpp.Core.Server.Signals.{handle_found-keeps, rest_of_run}

add_connection-keeps :
    (s : Server) (o : Option Connection) {t : Server}
    → add_connection s o ≡ some t
    → (t.is_accepting ≡ s.is_accepting) × (t.is_armed ≡ s.is_armed)
add_connection-keeps s none k = ground (arith, k)
add_connection-keeps s (some c) k = ground (arith, k)

on_accept-keeps :
    (s : Server) (success : Bool) {t : Server}
    → on_accept s success ≡ some t
    → (t.is_accepting ≡ s.is_accepting) × (t.is_armed ≡ s.is_armed)
unfolding on_accept
on_accept-keeps s true k = elim (Bool-cases s.is_accepting) [
  | inl e ↦ add_connection-keeps s (start (create_connection s.pool)) (
      ap (λ b. if not b then some s else add_connection s (start (create_connection s.pool)))
        (sym e)
      ∙ k)
  | inr e ↦ ground (arith, k)
]
on_accept-keeps s false k = ground (arith, k)

-- What stays while no signal is waited for.
abbrev Keeps : Server → Server → Type 0
Keeps s t = (t.is_accepting ≡ s.is_accepting) × (t.is_armed ≡ false)

serve-Keeps :
    (s : Server) (e : ServerEvent) {t : Server}
    → s.is_armed ≡ false
    → serve s e ≡ some t
    → Keeps s t
unfolding serve handle_at on_signal
serve-Keeps s (accepted success) off k = let m = on_accept-keeps s success k in (m.0, m.1 ∙ off)
serve-Keeps s (on_connection i e) off k =
    let m = handle_found-keeps s i e (get_elem? s.connections i) k in (m.0, m.2 ∙ off)
serve-Keeps s (signalled signo) {t} off k =
    subst (Keeps s) (some_inj s t (ground (arith, off, k))) (refl, off)

run-Keeps :
    (s : Server) (es : List ServerEvent) {t : Server}
    → s.is_armed ≡ false
    → run s es ≡ some t
    → Keeps s t
unfolding run
run-Keeps s [] {t} off k = subst (Keeps s) (some_inj s t k) (refl, off)
run-Keeps s (e ∷ es) {t} off k = elim (Option-cases (serve s e)) [
  | inl n ↦ absurd (ground (arith, n, k))
  | inr (u, m) ↦
      let g = serve-Keeps s e off m in
      let h = run-Keeps u es g.1 (rest_of_run s es e m k) in (h.0 ∙ g.0, h.1)
]

on_signal-sighup : (s : Server) → Keeps s (on_signal s sighup)
unfolding on_signal reload_config
on_signal-sighup s = elim (Bool-cases s.is_armed) [
  | inr off ↦ simp off (refl, refl)
  | inl on ↦ simp on (refl, refl)
]

-- After a SIGHUP no sequence of events, other signals among them, makes the server stop accepting.
pub sighup-run :
    (s t : Server) (es : List ServerEvent)
    → run (on_signal s sighup) es ≡ some t
    → (t.is_accepting ≡ s.is_accepting) × (t.is_armed ≡ false)
sighup-run s t es k =
    let g = run-Keeps (on_signal s sighup) es (on_signal-sighup s).1 k in
    (g.0 ∙ (on_signal-sighup s).0, g.1)
