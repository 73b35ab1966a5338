-- ===== src/Core/Connection.antt =====
-- mycppwebfw/src/core/connection.tpp and connection_manager.h: one connection, its buffer and its place in the
-- manager's set. Every handler of asio is one step; the socket's operations are requests that the state
-- records, and their completions are events.
pub mod Phases
pub mod Closed
pub mod Compliance
pub mod Lifecycle
pub mod Reuse
mod Tests
use gin_cpp.Base.{
  ℕ, zero, suc, ◌+◌, ◌-◌, ◌*◌, ◌/◌, ◌%◌, ◌^◌, ◌≤◌, ◌<◌, ◌≡◌, refl, sym, ap, subst, ◌∙◌, ◌≢◌, ◌↔◌,
  ◌⊎◌, inl, inr, Bool, true, false, not, ◌&&◌, ◌||◌, Option, none, some, List, [], ◌∷◌, ◌++◌, map,
  arith, ltb, leb, ◌==◌, if◌then◌else◌, ltb→lt, lt→ltb, leb→le, ==_iff, ==_refl, Bool-cases,
  Option-cases, length, get_elem?, set, take, drop, replicate, is_empty, length-append,
  length-replicate, get_elem?-some_lt, get_elem?-none_le, lt_of_get_elem?, Has, Has-cons_map,
  Has-append_left, Has-append_right, Has-append, All-Has, length-set, get_elem?-set_self,
  get_elem?-set_ne, All, All-append, Text, codes, same, same→eq, same_refl, same_iff, apart,
  drop_two_length_append, Free-append, find, starts_with, find_text, contains_text, Free, find-Free,
  find-none-Free, find-append, Free-take-find, find_parts, take-length_append, drop-length_append,
  drop-suc-length_append, starts_with-append, starts_with_parts, lookup, insert, erase,
  lookup-insert, lookup-erase,
}
use gin_cpp.Http.Request.{Header, Request}
use gin_cpp.Http.Response.{
  Response, StatusCode, ok, bad_request, internal_server_error, to_buffers, stock_response,
}
use gin_cpp.Http.Parser.{
  State, method_start, ParseResult, good, bad, indeterminate, Parsed, parse, blank, method, uri,
  http_version_h, http_version_t_1, http_version_t_2, http_version_p, http_version_slash,
  http_version_major_start, http_version_major, http_version_minor_start,
}
use gin_cpp.Core.BufferPool.{BufferPool, Acquired, acquire, release}

pub data ConnState : Type 0 where
  idle reading writing closed : ConnState

-- `timer` holds the wait that is pending: the state in which its expiry closes the connection, and its
-- milliseconds. `is_reading` and `sending` are the pending read and write; `managed` is whether the
-- manager's set holds the connection. The buffer pool is the static one that all connections share.
pub record Connection : Type 0 where
  pub state : ConnState
  pub keep_alive : Bool
  pub buffer : Option ℕ
  pub buffer_pool : BufferPool
  pub request : Request
  pub response : Response
  pub parser : State
  pub idle_timeout_ms : ℕ
  pub read_timeout_ms : ℕ
  pub write_timeout_ms : ℕ
  pub timer : Option (ConnState × ℕ)
  pub is_open : Bool
  pub is_reading : Bool
  pub sending : Option (List Text)
  pub managed : Bool

-- The constructor. The code leaves the version numbers of the request and the status of the response
-- without a value; `reads_unset` is where it reads the former before the parser has written them, and it
-- writes the latter before it reads it.
unfoldable pub create_connection : BufferPool → Connection
create_connection pool = record {
  state = idle;
  keep_alive = false;
  buffer = (acquire pool).buffer;
  buffer_pool = (acquire pool).left;
  request = blank;
  response = record { status = ok; headers = []; content = [] };
  parser = method_start;
  idle_timeout_ms = 60000;
  read_timeout_ms = 30000;
  write_timeout_ms = 30000;
  timer = none;
  is_open = true;
  is_reading = false;
  sending = none;
  managed = false;
}

unfoldable pub set_keep_alive : Connection → Bool → Connection
set_keep_alive c enabled = record c { keep_alive = enabled }

unfoldable pub set_idle_timeout : Connection → ℕ → Connection
set_idle_timeout c ms = record c { idle_timeout_ms = ms }

unfoldable pub set_read_timeout : Connection → ℕ → Connection
set_read_timeout c ms = record c { read_timeout_ms = ms }

unfoldable pub set_write_timeout : Connection → ℕ → Connection
set_write_timeout c ms = record c { write_timeout_ms = ms }

abbrev give_back : BufferPool → Option ℕ → BufferPool
give_back pool none = pool
give_back pool (some b) = release pool b

unfoldable pub shutdown : Connection → Connection
unfolding release
shutdown c = record c {
  state = closed;
  timer = none;
  is_open = false;
  buffer_pool = give_back c.buffer_pool c.buffer;
  buffer = none;
}

-- ConnectionManager::stop: erase, then Connection::stop.
unfoldable pub stop : Connection → Connection
unfolding shutdown
stop c = shutdown (record c { managed = false })

abbrev pub read_into : Connection → Option ℕ → Option Connection
read_into c none = none
read_into c (some b) =
    some
      (record c { state = reading; timer = some (reading, c.read_timeout_ms); is_reading = true })

-- do_read; `none` is the undefined behaviour of `*buffer_` on a null pointer.
unfoldable pub do_read : Connection → Option Connection
do_read c = read_into c c.buffer

-- ConnectionManager::start: insert, then Connection::start.
unfoldable pub start : Connection → Option Connection
unfolding do_read
start c = do_read (record c { state = reading; managed = true })

unfoldable pub do_write : Connection → Connection
unfolding to_buffers
do_write c = record c {
  state = writing;
  timer = some (writing, c.write_timeout_ms);
  sending = some (to_buffers c.response);
}

-- tolower in the C locale.
abbrev pub tolower : ℕ → ℕ
tolower c = if leb b'A' c && leb c b'Z' then c + 32 else c

-- std::find_if over the headers by their exact name.
unfoldable pub header_named : List Header → Text → Option Header
header_named [] name = none
header_named (h ∷ hs) name = if same h.name name then some h else header_named hs name

unfoldable pub keep_alive_of : Request → Bool
unfolding header_named
keep_alive_of req = elim (header_named req.headers (codes "Connection")) [
  | none ↦ req.http_version_major == 1 && req.http_version_minor == 1
  | some h ↦ contains_text (map tolower h.value) (codes "keep-alive")
]

abbrev is_some_header : Option Header → Bool
is_some_header none = false
is_some_header (some h) = true

-- The value of `valid` at the end of its three tests, which are in the code's order.
unfoldable pub is_compliant : Request → Bool
unfolding header_named
is_compliant req =
    if (not (req.http_version_major == 1) || not (req.http_version_minor == 1))
      && (not (req.http_version_major == 1) || not (req.http_version_minor == 0))
    then false
    else if is_empty req.method || is_empty req.uri
    then false
    else if req.http_version_major == 1 && req.http_version_minor == 1
    then is_some_header (header_named req.headers (codes "Host"))
    else true

-- The branches on the result of the parser.
unfoldable pub react : Connection → ParseResult → Option Connection
unfolding is_compliant do_write do_read stock_response
react c good = some (
    do_write
      (record c { response = stock_response (if is_compliant c.request then ok else bad_request) }))
react c bad = some (do_write (record c { response = stock_response bad_request }))
react c indeterminate = do_read c

abbrev pub parsed : Connection → Parsed → Connection
parsed c p = record c {
  request = p.request;
  parser = p.state;
  keep_alive = keep_alive_of p.request;
}

-- Whether the parser of a connection has written the major version, and the minor one: it is never reset, so
-- it has if it has left the states up to the number's first digit.
unfoldable pub has_major : State → Bool
has_major method_start = false
has_major method = false
has_major uri = false
has_major http_version_h = false
has_major http_version_t_1 = false
has_major http_version_t_2 = false
has_major http_version_p = false
has_major http_version_slash = false
has_major http_version_major_start = false
has_major _ = true

unfoldable pub has_minor : State → Bool
unfolding has_major
has_minor http_version_major = false
has_minor http_version_minor_start = false
has_minor s = has_major s

-- The handler takes the default for keep-alive from a version number that has no value yet.
unfoldable pub reads_unset : Parsed → Bool
unfolding header_named has_major has_minor
reads_unset p = elim (header_named p.request.headers (codes "Connection")) [
  | none ↦ not (has_major p.state) || (p.request.http_version_major == 1 && not (has_minor p.state))
  | some h ↦ false
]

pub data ReadResult : Type 0 where
  bytes : Text → ReadResult
  read_aborted read_failed : ReadResult

-- The timer is cancelled and the operation is no longer pending.
abbrev pub read_done : Connection → Connection
read_done c = record c { timer = none; is_reading = false }

abbrev pub apologise : Connection → Connection
apologise c = record (read_done c) { response = stock_response internal_server_error }

-- The handler on bytes that were read to the buffer, with what the parser makes of them.
abbrev pub take_bytes : Connection → Option ℕ → Option Parsed → Option Connection
take_bytes c none o = none
take_bytes c (some b) none = none
take_bytes c (some b) (some p) =
    if reads_unset p then none else react (parsed (read_done c) p) p.result

-- The handler of async_read_some; `none` where the buffer is null, the parser's behaviour is
-- undefined, or a version number is read before it has a value.
unfoldable pub on_read : Connection → ReadResult → Option Connection
unfolding keep_alive_of reads_unset react stop
on_read c (bytes cs) = take_bytes c c.buffer (parse c.parser c.request cs)
on_read c read_aborted = some (read_done c)
on_read c read_failed = some (stop (do_write (apologise c)))

abbrev pub write_done : Connection → Connection
write_done c = record c { timer = none; sending = none }

abbrev pub wait_idle : Connection → Connection
wait_idle c = record (write_done c) { state = idle; timer = some (idle, c.idle_timeout_ms) }

-- if (keep_alive_), after a write without an error.
unfoldable pub after_write : Connection → Bool → Option Connection
unfolding do_read stop
after_write c true = do_read (wait_idle c)
after_write c false = some (stop (write_done c))

-- The handler of async_write.
unfoldable pub on_write : Connection → Bool → Option Connection
unfolding after_write stop
on_write c false = some (stop (write_done c))
on_write c true = after_write c c.keep_alive

abbrev pub is_state : ConnState → ConnState → Bool
is_state idle idle = true
is_state reading reading = true
is_state writing writing = true
is_state closed closed = true
is_state _ _ = false

-- The handler of a timer that waits in the state s, where the wait has ended without an error. The
-- handler looks only at the state: asio may run it after the timer has been set again.
unfoldable pub on_timer : Connection → ConnState → Connection
unfolding stop shutdown
on_timer c s = if is_state c.state s then stop (shutdown c) else c

pub data Event : Type 0 where
  read : ReadResult → Event
  wrote : Bool → Event
  expired : ConnState → Event
  stopped : Event

unfoldable pub handle : Connection → Event → Option Connection
unfolding on_read on_write on_timer stop
handle c (read r) = on_read c r
handle c (wrote success) = on_write c success
handle c (expired s) = some (on_timer c s)
handle c stopped = some (stop c)

unfoldable pub handle_all : Connection → List Event → Option Connection
unfolding handle
handle_all c [] = some c
handle_all c (e ∷ es) = elim (handle c e) [ none ↦ none | some d ↦ handle_all d es ]
