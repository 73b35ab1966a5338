-- ===== src/Core/Connection/Tests.antt =====
-- Tests of the connection.
use gin_cpp.Base.{
  ◌≡◌, refl, ◌⊎◌, inl, true, some, List, [], ◌∷◌, ◌++◌, arith, drop, Text, codes, same,
}
use gin_cpp.Http.Request.{Request}
use gin_cpp.Http.Response.{ok, bad_request, to_buffers, stock_response}
use gin_cpp.Http.Parser.{method_start, good, Parsed, parse, blank}
use gin_cpp.Core.BufferPool.{BufferPool, create_pool, acquire}
use gin_cpp.Core.Connection.{
  reading, writing, Connection, create_connection, start, header_named, keep_alive_of, bytes,
  on_read, Event, read, wrote, handle_all,
}
use gin_cpp.Core.Connection.Phases.{IsLive}
use gin_cpp.Core.Connection.Lifecycle.{EndsWell, start-handle_all}
use gin_cpp.Http.Parser.{step, expecting_newline_3}
use gin_cpp.Core.BufferPool.{numbered}
use gin_cpp.Core.Connection.Compliance.{IsCompliant, on_read-answer}
use gin_cpp.Core.Connection.Reuse.{handle_all-second}

abbrev lines : Text
lines = codes "GET /a HTTP/1.1" ++ 13 ∷ 10 ∷ codes "Host: h" ++ 13 ∷ 10 ∷ 13 ∷ 10 ∷ []

abbrev get_a : Request
get_a = record {
  method = codes "GET";
  uri = codes "/a";
  http_version_major = 1;
  http_version_minor = 1;
  headers = record { name = codes "Host"; value = codes "h" } ∷ [];
  body = [];
}

abbrev accepted : Parsed
accepted = record { state = expecting_newline_3; request = get_a; result = good }

parse-lines : parse method_start blank lines ≡ some accepted
unfolding parse step
parse-lines = refl

abbrev two : BufferPool
two = create_pool 8192 2 0

abbrev serving : Connection
serving = record (create_connection two) { state = reading; managed = true; is_reading = true }

serving-IsLive : IsLive (acquire two).left 0 serving
unfolding create_connection acquire create_pool numbered
serving-IsLive = record {
  works = inl refl;
  has_buffer = refl;
  took = refl;
  ready = λ e. ground arith;
  kept = refl;
}

start-handle_all_example :
    (c : Connection) × (start (create_connection two) ≡ some c)
    × ((es : List Event) → EndsWell (acquire two).left 0 (handle_all c es))
unfolding acquire create_pool numbered
start-handle_all_example = start-handle_all two 0 refl

on_read-answer_example :
    (d : Connection) × (on_read serving (bytes lines) ≡ some d)
    × (d.state ≡ writing)
    × (d.keep_alive ≡ keep_alive_of get_a)
    × ((IsCompliant get_a × (d.sending ≡ some (to_buffers (stock_response ok))))
        ⊎ ((IsCompliant get_a → ⊥) × (d.sending ≡ some (to_buffers (stock_response bad_request)))))
unfolding create_connection
on_read-answer_example =
    on_read-answer (acquire two).left 0 serving lines accepted serving-IsLive parse-lines refl

handle_all-second_example :
    (d : Connection) × (handle_all serving
        (read (bytes lines) ∷ wrote true ∷ read (bytes lines) ∷ [])
      ≡ some d)
    × (d.state ≡ writing)
    × (d.request ≡ get_a)
    × (d.sending ≡ some (to_buffers (stock_response bad_request)))
unfolding create_connection keep_alive_of header_named same
handle_all-second_example =
    handle_all-second (acquire two).left 0 serving lines (drop 1 lines) accepted b'G' serving-IsLive
      parse-lines refl refl (omega arith)
