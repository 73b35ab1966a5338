-- ===== src/Core/Server/Tests.antt =====
-- Runs of the server, and the theorems at them.
use gin_cpp.Base.{
  ℕ, ◌+◌, ◌≡◌, refl, true, false, Option, none, some, List, [], ◌∷◌, arith, length, codes,
}
use gin_cpp.Core.BufferPool.{create_pool, acquire}
use gin_cpp.Core.Connection.{reading, read, wrote, expired}
use gin_cpp.Core.Server.{
  Server, create_server, get_connection_count, on_signal, ServerEvent, accepted, on_connection,
  signalled, sighup, run,
}
use gin_cpp.Core.Connection.{bytes}
use gin_cpp.Http.Parser.{parse, step}
use gin_cpp.Core.Server.Shutdown.{IsDown}
use gin_cpp.Core.Server.Runs.{Runs}
use gin_cpp.Core.Server.Signals.{on_signal-run}
use gin_cpp.Core.Server.Sighup.{sighup-run}

abbrev sigterm : ℕ
sigterm = 15

-- Two connections, a request of the first, a failed accept, and the second runs out of time.
abbrev busy : List ServerEvent
busy =
    accepted true
    ∷ accepted true
    ∷ on_connection 0 (read (bytes (codes "GET / HTTP/1.0\r\n\r\n")))
    ∷ accepted false
    ∷ on_connection 1 (expired reading)
    ∷ []

abbrev set_size : Option Server → Option ℕ
set_size none = none
set_size (some s) = some (get_connection_count s.connections)

busy_size : set_size (run create_server busy) ≡ some 1
unfolding run get_connection_count create_server acquire create_pool parse step
busy_size = refl

-- The first connection's write is cut off by the shutdown, and then someone wants to connect.
abbrev aftermath : List ServerEvent
aftermath = on_connection 0 (wrote false) ∷ accepted true ∷ []

abbrev left_by : Option Server → Server
left_by none = create_server
left_by (some s) = s

abbrev at_signal : Server
at_signal = left_by (run create_server busy)

abbrev at_end : Server
at_end = left_by (run (on_signal at_signal sigterm) aftermath)

at_signal_lem : run create_server busy ≡ some at_signal
unfolding run create_server acquire create_pool parse step
at_signal_lem = refl

at_signal-is_armed : at_signal.is_armed ≡ true
unfolding run create_server acquire create_pool parse step
at_signal-is_armed = refl

at_end_lem : run (on_signal at_signal sigterm) aftermath ≡ some at_end
unfolding run create_server acquire create_pool parse step on_signal
at_end_lem = refl

on_signal-run_example :
    IsDown (128 + length busy + length aftermath) at_end
    × (length at_end.connections ≡ length at_signal.connections)
on_signal-run_example =
    on_signal-run busy aftermath sigterm (omega arith) at_signal_lem at_signal-is_armed
      (omega arith) at_end_lem

abbrev deaf : Server
deaf = left_by (run (on_signal at_signal sighup) (signalled sigterm ∷ accepted false ∷ []))

deaf_lem : run (on_signal at_signal sighup) (signalled sigterm ∷ accepted false ∷ []) ≡ some deaf
unfolding run create_server acquire create_pool parse step on_signal
deaf_lem = refl

sighup-run_example : (deaf.is_accepting ≡ at_signal.is_accepting) × (deaf.is_armed ≡ false)
sighup-run_example = sighup-run at_signal deaf (signalled sigterm ∷ accepted false ∷ []) deaf_lem
