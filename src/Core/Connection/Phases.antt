-- ===== src/Core/Connection/Phases.antt =====
-- mycppwebfw/src/core/connection.tpp: when an event is safe, and what a handler makes of a connection that serves.
use gin_cpp.Base.{
  ℕ, ◌≡◌, refl, ap, ◌∙◌, ◌⊎◌, inl, inr, Bool, true, false, ◌&&◌, Option, none, some, arith,
  Bool-cases, Text, ◌||◌, if◌then◌else◌,
}
use gin_cpp.Http.Parser.{Parsed, ParseResult, good, bad, indeterminate, parse}
use gin_cpp.Http.Parser.Safety.{IsReady, overflows, parse-total}
use gin_cpp.Core.BufferPool.{BufferPool, release}
use gin_cpp.Core.Connection.{
  reads_unset, ConnState, reading, writing, closed, Connection, give_back, shutdown, stop,
  read_into, do_read, do_write, react, parsed, bytes, read_aborted, read_failed, read_done,
  take_bytes, apologise, on_read, wait_idle, after_write, write_done, on_write, is_state, on_timer,
  Event, read, wrote, expired, stopped, handle,
}

-- A connection that serves has the buffer, and the pool is as it was when the connection took it.
pub record IsLive (pool : BufferPool) (b : ℕ) (c : Connection) : Type 0 where
  pub works : (c.state ≡ reading) ⊎ (c.state ≡ writing)
  pub has_buffer : c.buffer ≡ some b
  pub took : c.buffer_pool ≡ pool
  pub ready : IsReady c.parser c.request
  pub kept : c.managed ≡ true

-- A connection that is shut has no buffer and has left the manager's set; the pool is as it left it.
pub record IsShut (pool : BufferPool) (c : Connection) : Type 0 where
  pub ended : c.state ≡ closed
  pub no_buffer : c.buffer ≡ none
  pub gave : c.buffer_pool ≡ pool
  pub left : c.managed ≡ false
  pub not_open : c.is_open ≡ false

-- The phases of a connection that took the buffer b: shut, it has given b back once.
pub data Phase (pool : BufferPool) (b : ℕ) (c : Connection) : Type 0 where
  live : IsLive pool b c → Phase pool b c
  shut : IsShut (release pool b) c → Phase pool b c

-- A completion without an error that comes after the connection is closed and would use the buffer.
unfoldable pub is_late : Connection → Event → Bool
is_late c (read (bytes cs)) = is_state c.state closed
is_late c (wrote true) = is_state c.state closed && c.keep_alive
is_late c _ = false

abbrev pub ends_unset : Option Parsed → Bool
ends_unset none = false
ends_unset (some p) = reads_unset p

-- A read that the code is not safe from: it takes a version number out of the range of an int, or it ends
-- before the parser has written a version number that the handler then reads.
unfoldable pub is_unsafe_read : Connection → Event → Bool
is_unsafe_read c (read (bytes cs)) =
    overflows c.parser c.request cs || ends_unset (parse c.parser c.request cs)
is_unsafe_read c _ = false

unfoldable pub is_unsafe : Connection → Event → Bool
unfolding is_late is_unsafe_read
is_unsafe c e = is_late c e || is_unsafe_read c e

-- An event that is safe leaves what P says, and any other is undefined behaviour.
abbrev pub Handled : (Connection → Type 0) → Connection → Event → Type 0
Handled P c e =
    ((is_unsafe c e ≡ false) × ((d : Connection) × (handle c e ≡ some d) × P d))
    ⊎ ((is_unsafe c e ≡ true) × (handle c e ≡ none))

abbrev pub Gives : BufferPool → ℕ → Option Connection → Type 0
Gives pool b o = (d : Connection) × (o ≡ some d) × Phase pool b d

abbrev pub GivesShut : BufferPool → Option Connection → Type 0
GivesShut pool o = (d : Connection) × (o ≡ some d) × IsShut pool d

pub stop-live :
    (pool : BufferPool) (b : ℕ) (c : Connection)
    → c.buffer ≡ some b
    → c.buffer_pool ≡ pool
    → IsShut (release pool b) (stop c)
unfolding stop shutdown
stop-live pool b c e f = record {
  ended = refl;
  no_buffer = refl;
  gave = ap (give_back c.buffer_pool) e ∙ ap (λ p. release p b) f;
  left = refl;
  not_open = refl;
}

pub stop-IsShut :
    (pool : BufferPool) (c : Connection)
    → c.buffer ≡ none
    → c.buffer_pool ≡ pool
    → IsShut pool (stop c)
unfolding stop shutdown
stop-IsShut pool c e f = record {
  ended = refl;
  no_buffer = refl;
  gave = ap (give_back c.buffer_pool) e ∙ f;
  left = refl;
  not_open = refl;
}

pub do_read-IsLive :
    (pool : BufferPool) (b : ℕ) (c : Connection)
    → c.buffer ≡ some b
    → c.buffer_pool ≡ pool
    → IsReady c.parser c.request
    → c.managed ≡ true
    → (d : Connection) × (do_read c ≡ some d) × IsLive pool b d
unfolding do_read
do_read-IsLive pool b c e f r m = (
  _,
  ap (read_into c) e,
  record { works = inl refl; has_buffer = e; took = f; ready = r; kept = m },
)

pub do_read-live :
    (pool : BufferPool) (b : ℕ) (c : Connection)
    → c.buffer ≡ some b
    → c.buffer_pool ≡ pool
    → IsReady c.parser c.request
    → c.managed ≡ true
    → Gives pool b (do_read c)
do_read-live pool b c e f r m = let (d, k, l) = do_read-IsLive pool b c e f r m in (d, k, live l)

react-live :
    (pool : BufferPool) (b : ℕ) (c : Connection) (o : ParseResult)
    → c.buffer ≡ some b
    → c.buffer_pool ≡ pool
    → IsReady c.parser c.request
    → c.managed ≡ true
    → Gives pool b (react c o)
unfolding react do_write
react-live pool b c good e f r m =
    (_, refl, live (record { works = inr refl; has_buffer = e; took = f; ready = r; kept = m }))
react-live pool b c bad e f r m =
    (_, refl, live (record { works = inr refl; has_buffer = e; took = f; ready = r; kept = m }))
react-live pool b c indeterminate e f r m = do_read-live pool b c e f r m

is_late-live :
    (pool : BufferPool) (b : ℕ) (c : Connection) (e : Event) → IsLive pool b c → is_late c e ≡ false
unfolding is_late
is_late-live pool b c (read (bytes cs)) l = elim l.works [
  | inl w ↦ ap (λ s. is_state s closed) w
  | inr w ↦ ap (λ s. is_state s closed) w
]
is_late-live pool b c (read read_aborted) l = refl
is_late-live pool b c (read read_failed) l = refl
is_late-live pool b c (wrote false) l = refl
is_late-live pool b c (wrote true) l = elim l.works [
  | inl w ↦ ap (λ s. is_state s closed && c.keep_alive) w
  | inr w ↦ ap (λ s. is_state s closed && c.keep_alive) w
]
is_late-live pool b c (expired s) l = refl
is_late-live pool b c stopped l = refl

-- What the handler makes of a read in a connection that serves.
on_read-live :
    (pool : BufferPool) (b : ℕ) (c : Connection) (cs : Text)
    → IsLive pool b c
    → Handled (Phase pool b) c (read (bytes cs))
unfolding handle on_read is_unsafe is_late is_unsafe_read
on_read-live pool b c cs l = elim (parse-total c.parser c.request cs l.ready) [
  | inr (o, e) ↦
      inr (
        ground (arith, o),
        ap (take_bytes c c.buffer) e ∙ ap (λ x. take_bytes c x none) l.has_buffer,
      )
  | inl (o, (p, e, r)) ↦ elim (Bool-cases (reads_unset p)) [
    | inl u ↦ inr (
      rw (e, u) (ground arith),
      ap (take_bytes c c.buffer) e
          ∙ ap (λ x. take_bytes c x (some p)) l.has_buffer
          ∙ ap (λ v. if v then none else react (parsed (read_done c) p) p.result) u,
    )
    | inr u ↦
        let (d, k, h) =
          react-live pool b (parsed (read_done c) p) p.result l.has_buffer l.took r l.kept in
        inl (
          rw (is_late-live pool b c (read (bytes cs)) l, o, e, u) refl,
          (
            d,
            (ap (take_bytes c c.buffer) e
                ∙ ap (λ x. take_bytes c x (some p)) l.has_buffer
                ∙ ap (λ v. if v then none else react (parsed (read_done c) p) p.result) u
                ∙ k),
            h,
          ),
        )
  ]
]

after_write-live :
    (pool : BufferPool) (b : ℕ) (c : Connection) (keep : Bool)
    → IsLive pool b c
    → Gives pool b (after_write c keep)
unfolding after_write
after_write-live pool b c true l =
    do_read-live pool b (wait_idle c) l.has_buffer l.took l.ready l.kept
after_write-live pool b c false l =
    (stop (write_done c), refl, shut (stop-live pool b (write_done c) l.has_buffer l.took))

on_write-live :
    (pool : BufferPool) (b : ℕ) (c : Connection) (success : Bool)
    → IsLive pool b c
    → Gives pool b (on_write c success)
unfolding on_write
on_write-live pool b c false l =
    (_, refl, shut (stop-live pool b (write_done c) l.has_buffer l.took))
on_write-live pool b c true l = after_write-live pool b c c.keep_alive l

on_timer-live :
    (pool : BufferPool) (b : ℕ) (c : Connection) (s : ConnState)
    → IsLive pool b c
    → Phase pool b (on_timer c s)
unfolding on_timer shutdown
on_timer-live pool b c s l = elim (Bool-cases (is_state c.state s)) [
  | inl k ↦ rw k (
      shut (
        stop-IsShut (release pool b) (shutdown c) refl
          (ap (give_back c.buffer_pool) l.has_buffer ∙ ap (λ p. release p b) l.took)))
  | inr k ↦ rw k (live l)
]

pub handle-live :
    (pool : BufferPool) (b : ℕ) (c : Connection) (e : Event)
    → IsLive pool b c
    → Handled (Phase pool b) c e
unfolding handle on_read do_write is_unsafe is_late is_unsafe_read
handle-live pool b c (read (bytes cs)) l = on_read-live pool b c cs l
handle-live pool b c (read read_aborted) l = inl (
  refl,
  (
    read_done c,
    refl,
    live (record {
      works = l.works;
      has_buffer = l.has_buffer;
      took = l.took;
      ready = l.ready;
      kept = l.kept;
    }),
  ),
)
handle-live pool b c (read read_failed) l = inl (
  refl,
  (
    stop (do_write (apologise c)),
    refl,
    shut (stop-live pool b (do_write (apologise c)) l.has_buffer l.took),
  ),
)
handle-live pool b c (wrote false) l = inl (refl, on_write-live pool b c false l)
handle-live pool b c (wrote true) l =
    inl (rw (is_late-live pool b c (wrote true) l) refl, on_write-live pool b c true l)
handle-live pool b c (expired s) l = inl (refl, (on_timer c s, refl, on_timer-live pool b c s l))
handle-live pool b c stopped l =
    inl (refl, (stop c, refl, shut (stop-live pool b c l.has_buffer l.took)))
