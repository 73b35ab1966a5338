-- ===== src/Core/Server.antt =====
-- mycppwebfw/src/core/server.cpp, signal_handler.cpp and connection_manager.h: the server and all its connections.
-- asio runs one handler at a time, on the thread of run(); each is one step.
pub mod Connections
pub mod Ownership
pub mod Shutdown
pub mod Serving
pub mod Runs
pub mod Signals
pub mod Sighup
mod Tests
use gin_cpp.Base.{
  ℕ, zero, suc, ◌+◌, ◌-◌, ◌*◌, ◌/◌, ◌%◌, ◌^◌, ◌≤◌, ◌<◌, ◌≡◌, refl, sym, ap, subst, ◌∙◌, ◌≢◌, ◌↔◌,
  ◌⊎◌, inl, inr, Bool, true, false, not, ◌&&◌, ◌||◌, Option, none, some, List, [], ◌∷◌, ◌++◌, map,
  arith, ltb, leb, ◌==◌, if◌then◌else◌, ltb→lt, lt→ltb, leb→le, ==_iff, ==_refl, Bool-cases,
  Option-cases, length, get_elem?, set, take, drop, replicate, is_empty, length-append,
  length-replicate, get_elem?-some_lt, get_elem?-none_le, lt_of_get_elem?, Has, Has-cons_map,
  Has-append_left, Has-append_right, Has-append, All-Has, length-set, get_elem?-set_self,
  get_elem?-set_ne, All, All-append, Text, codes, same, same→eq, same_refl, same_iff, apart,
  drop_two_length_append, Free-append, find, starts_with, find_text, contains_text, Free, find-Free,
  find-none-Free, find-append, Free-take-find, find_parts, take-length_append, drop-length_append,
  drop-suc-length_append, starts_with-append, starts_with_parts, lookup, insert, erase,
  lookup-insert, lookup-erase,
}
use gin_cpp.Core.BufferPool.{BufferPool, create_pool}
use gin_cpp.Core.Connection.{Connection, create_connection, shutdown, start, Event, handle}

-- Every connection that was ever accepted, in that order; the set of the manager is those that are
-- `managed`. `pool` is the buffer pool that they share. `is_armed` is whether the wait for a signal is
-- pending, and `has_thread_pool` whether the pointer to the thread pool is set.
pub record Server : Type 0 where
  pub connections : List Connection
  pub pool : BufferPool
  pub is_accepting : Bool
  pub is_armed : Bool
  pub has_thread_pool : Bool

-- The constructor, where the address can be bound; the static pool is made before main.
unfoldable pub create_server : Server
create_server = record {
  connections = [];
  pool = create_pool 8192 128 0;
  is_accepting = true;
  is_armed = true;
  has_thread_pool = true;
}

abbrev pub with_pool : Connection → BufferPool → Connection
with_pool c pool = record c { buffer_pool = pool }

-- A handler of a connection changes it and the pool.
abbrev pub put_back : Server → ℕ → Connection → Server
put_back s i c = record s { connections = set s.connections i c; pool = c.buffer_pool }

abbrev pub put_back_if : Server → ℕ → Option Connection → Option Server
put_back_if s i none = none
put_back_if s i (some c) = some (put_back s i c)

abbrev pub handle_found : Server → ℕ → Event → Option Connection → Option Server
handle_found s i e none = some s
handle_found s i e (some c) = put_back_if s i (handle (with_pool c s.pool) e)

-- A handler of the i-th connection; `none` is undefined behaviour.
unfoldable pub handle_at : Server → ℕ → Event → Option Server
unfolding handle
handle_at s i e = handle_found s i e (get_elem? s.connections i)

abbrev pub add_connection : Server → Option Connection → Option Server
add_connection s none = none
add_connection s (some c) =
    some (record s { connections = s.connections ++ c ∷ []; pool = c.buffer_pool })

-- The handler of async_accept. The last call of do_accept is seen in `is_accepting`.
unfoldable pub on_accept : Server → Bool → Option Server
unfolding start create_connection
on_accept s success =
    if not s.is_accepting
    then some s
    else if success
    then add_connection s (start (create_connection s.pool))
    else some s

-- One round of the loop of stop_all, for a connection of the set; then clear() takes it out.
abbrev pub stop_managed : Connection → BufferPool → Bool → Connection
stop_managed c pool true = record (shutdown (with_pool c pool)) { managed = false }
stop_managed c pool false = with_pool c pool

-- The connections and the pool behind ConnectionManager::stop_all.
unfoldable pub stop_all : List Connection → BufferPool → List Connection × BufferPool
unfolding shutdown
stop_all [] pool = ([], pool)
stop_all (c ∷ cs) pool =
    let d = stop_managed c pool c.managed in
    let (ds, pool') = stop_all cs d.buffer_pool in (d ∷ ds, pool')

-- get_connection_count: the size of the set.
unfoldable pub get_connection_count : List Connection → ℕ
get_connection_count [] = 0
get_connection_count (c ∷ cs) =
    let rest = get_connection_count cs in if c.managed then 1 + rest else rest

unfoldable pub graceful_shutdown : Server → Server
unfolding stop_all
graceful_shutdown s =
    let (cs, pool) = stop_all s.connections s.pool in
    record s { connections = cs; pool = pool; is_accepting = false; has_thread_pool = false }

-- buffer_pool_ is never set, so the branch that resets it is not taken.
unfoldable pub reload_config : Server → Server
reload_config s = s

abbrev pub sighup : ℕ
sighup = 1

-- The handler of the signals that were registered. It does not wait again.
unfoldable pub on_signal : Server → ℕ → Server
unfolding graceful_shutdown reload_config
on_signal s signo =
    if not s.is_armed
    then s
    else if signo == sighup
    then record (reload_config s) { is_armed = false }
    else record (graceful_shutdown s) { is_armed = false }

pub data ServerEvent : Type 0 where
  accepted : Bool → ServerEvent
  on_connection : ℕ → Event → ServerEvent
  signalled : ℕ → ServerEvent

unfoldable pub serve : Server → ServerEvent → Option Server
unfolding on_accept handle_at on_signal
serve s (accepted success) = on_accept s success
serve s (on_connection i e) = handle_at s i e
serve s (signalled signo) = some (on_signal s signo)

-- run(): the handlers in the order in which asio gives them.
unfoldable pub run : Server → List ServerEvent → Option Server
unfolding serve
run s [] = some s
run s (e ∷ es) = elim (serve s e) [ none ↦ none | some t ↦ run t es ]
