-- ===== src/Core/Connection/Lifecycle.antt =====
-- mycppwebfw/src/core/connection.tpp: the life of a connection and of its buffer.
use gin_cpp.Base.{ℕ, ◌≡◌, refl, inl, inr, true, Option, none, some, List, [], ◌∷◌, arith}
use gin_cpp.Core.BufferPool.{BufferPool, acquire, release}
use gin_cpp.Core.Connection.{reading, Connection, create_connection, start, Event, handle_all}
use gin_cpp.Core.Connection.Phases.{Phase, live, shut, Handled, do_read-live, handle-live}
use gin_cpp.Core.Connection.Closed.{handle-shut}

-- Of a connection that serves, or is shut, every event either is safe and leaves such a connection, or is not
-- and is undefined behaviour.
pub handle-Phase :
    (pool : BufferPool) (b : ℕ) (c : Connection) (e : Event)
    → Phase pool b c
    → Handled (Phase pool b) c e
handle-Phase pool b c e (live l) = handle-live pool b c e l
handle-Phase pool b c e (shut h) = elim (handle-shut (release pool b) c e h) [
  | inl (n, (d, k, h')) ↦ inl (n, (d, k, shut h'))
  | inr unsafe ↦ inr unsafe
]

-- What a run of events leaves, if it has no undefined behaviour.
abbrev pub EndsWell : BufferPool → ℕ → Option Connection → Type 0
EndsWell pool b none = Unit
EndsWell pool b (some d) = Phase pool b d

handle_all-Phase :
    (pool : BufferPool) (b : ℕ) (c : Connection) (es : List Event)
    → Phase pool b c
    → EndsWell pool b (handle_all c es)
unfolding handle_all
handle_all-Phase pool b c [] h = h
handle_all-Phase pool b c (e ∷ es) h = elim (handle-Phase pool b c e h) [
  | inl (n, (d, k, h')) ↦ rw (k, handle_all) (handle_all-Phase pool b d es h')
  | inr (n, k) ↦ rw (k, handle_all) tt
]

-- A connection that got a buffer starts, and then every sequence of events whose run has no undefined
-- behaviour leaves it in one of two phases: reading or writing, with its buffer; or closed, out of the
-- manager's set, with the buffer given back to the pool exactly once. It is never found idle.
pub start-handle_all :
    (pool : BufferPool) (b : ℕ)
    → (acquire pool).buffer ≡ some b
    → (c : Connection) × (start (create_connection pool) ≡ some c)
      × ((es : List Event) → EndsWell (acquire pool).left b (handle_all c es))
unfolding start create_connection
start-handle_all pool b e =
    let (c, k, h) =
      do_read-live (acquire pool).left b
        (record (create_connection pool) { state = reading; managed = true }) e refl
        (λ u. ground arith) refl in
    (c, k, λ es. handle_all-Phase (acquire pool).left b c es h)
