-- ===== src/Core/Connection/Closed.antt =====
-- mycppwebfw/src/core/connection.tpp: the handlers on a connection that is shut.
use gin_cpp.Base.{◌≡◌, refl, ap, ◌∙◌, ◌⊎◌, inl, inr, Bool, true, false, none, arith, Bool-cases}
use gin_cpp.Http.Parser.{parse}
use gin_cpp.Core.BufferPool.{BufferPool}
use gin_cpp.Core.Connection.{
  ConnState, Connection, give_back, shutdown, stop, read_into, do_read, do_write, bytes,
  read_aborted, read_failed, read_done, take_bytes, apologise, on_read, wait_idle, after_write,
  write_done, on_write, is_state, on_timer, Event, read, wrote, expired, stopped, handle,
}
use gin_cpp.Core.Connection.Phases.{IsShut, is_unsafe, Handled, GivesShut, stop-IsShut}

on_timer-shut :
    (pool : BufferPool) (c : Connection) (s : ConnState)
    → IsShut pool c
    → IsShut pool (on_timer c s)
unfolding on_timer shutdown
on_timer-shut pool c s h = elim (Bool-cases (is_state c.state s)) [
  | inl k ↦
      rw k (stop-IsShut pool (shutdown c) refl (ap (give_back c.buffer_pool) h.no_buffer ∙ h.gave))
  | inr k ↦ rw k h
]

after_write-shut :
    (pool : BufferPool) (c : Connection) (keep : Bool)
    → IsShut pool c
    → ((keep ≡ false) × GivesShut pool (after_write c keep))
      ⊎ ((keep ≡ true) × (after_write c keep ≡ none))
unfolding after_write do_read
after_write-shut pool c true h = inr (refl, ap (read_into (wait_idle c)) h.no_buffer)
after_write-shut pool c false h =
    inl (refl, (stop (write_done c), refl, stop-IsShut pool (write_done c) h.no_buffer h.gave))

-- A closed connection: an event that is late uses a null pointer, and any other is handled.
pub handle-shut :
    (pool : BufferPool) (c : Connection) (e : Event) → IsShut pool c → Handled (IsShut pool) c e
unfolding handle on_read on_write is_unsafe do_write
handle-shut pool c (read (bytes cs)) h =
    inr (rw h.ended refl, ap (λ o. take_bytes c o (parse c.parser c.request cs)) h.no_buffer)
handle-shut pool c (read read_aborted) h = inl (
  refl,
  (
    read_done c,
    refl,
    record {
      ended = h.ended;
      no_buffer = h.no_buffer;
      gave = h.gave;
      left = h.left;
      not_open = h.not_open;
    },
  ),
)
handle-shut pool c (read read_failed) h = inl (
  refl,
  (
    stop (do_write (apologise c)),
    refl,
    stop-IsShut pool (do_write (apologise c)) h.no_buffer h.gave,
  ),
)
handle-shut pool c (wrote false) h =
    inl (refl, (stop (write_done c), refl, stop-IsShut pool (write_done c) h.no_buffer h.gave))
handle-shut pool c (wrote true) h = elim (after_write-shut pool c c.keep_alive h) [
  | inl (k, g) ↦ inl (ground (arith, k, h.ended), g)
  | inr (k, n) ↦ inr (ground (arith, k, h.ended), n)
]
handle-shut pool c (expired s) h = inl (refl, (on_timer c s, refl, on_timer-shut pool c s h))
handle-shut pool c stopped h = inl (refl, (stop c, refl, stop-IsShut pool c h.no_buffer h.gave))
