-- ===== src/Core/Connection/Reuse.antt =====
-- mycppwebfw/src/core/connection.tpp: a second request on a connection that is kept alive.
use gin_cpp.Base.{ℕ, ◌≡◌, refl, ap, ◌∙◌, ◌≢◌, true, some, List, [], ◌∷◌, if◌then◌else◌, Text}
use gin_cpp.Http.Response.{ok, bad_request, to_buffers, stock_response}
use gin_cpp.Http.Parser.{good, bad, Parsed, parse}
use gin_cpp.Http.Parser.{lf}
use gin_cpp.Http.Parser.Reuse.{parse_again}
use gin_cpp.Core.BufferPool.{BufferPool}
use gin_cpp.Core.Connection.{
  reading, writing, Connection, read_into, do_read, do_write, keep_alive_of, is_compliant, react,
  parsed, bytes, read_done, on_read, wait_idle, after_write, on_write, Event, read, wrote, handle,
  handle_all,
}
use gin_cpp.Core.Connection.Phases.{IsLive}
use gin_cpp.Core.Connection.Compliance.{reads_unset-good, on_read-parsed}

handle_all-step :
    (c d : Connection) (e : Event) (es : List Event)
    → handle c e ≡ some d
    → handle_all c (e ∷ es) ≡ handle_all d es
unfolding handle_all
handle_all-step c d e es h = rw (h, handle_all) refl

abbrev answered : Connection → Parsed → Connection
answered c p = do_write (record (parsed (read_done c) p) {
  response = stock_response (if is_compliant p.request then ok else bad_request);
})

abbrev reads_again : Connection → Connection
reads_again c = record c {
  state = reading;
  timer = some (reading, c.read_timeout_ms);
  is_reading = true;
}

abbrev refused : Connection → Connection
refused c = do_write (record c { response = stock_response bad_request })

-- A complete request with keep-alive is answered and the connection reads again; but then the next
-- bytes, whatever request they are the beginning of, are answered with 400 unless they begin with a
-- line feed, since the parser and the request are those of the first request still.
pub handle_all-second :
    (pool : BufferPool) (b : ℕ) (c : Connection) (cs ds : Text) (p : Parsed) (x : ℕ)
    → IsLive pool b c
    → parse c.parser c.request cs ≡ some p
    → p.result ≡ good
    → keep_alive_of p.request ≡ true
    → x ≢ lf
    → (d : Connection) × (handle_all c (read (bytes cs) ∷ wrote true ∷ read (bytes (x ∷ ds)) ∷ [])
        ≡ some d)
      × (d.state ≡ writing)
      × (d.request ≡ p.request)
      × (d.sending ≡ some (to_buffers (stock_response bad_request)))
unfolding handle_all handle on_read on_write after_write do_read do_write react
handle_all-second pool b c cs ds p x l e g k n =
    let set = reads_unset-good c.parser c.request cs p e g in
    let c1 = answered c p in
    let c2 = reads_again (wait_idle c1) in
    let last = record p { result = bad } in
    let d = refused (parsed (read_done c2) last) in
    (
      d,
      handle_all-step c c1 (read (bytes cs)) (wrote true ∷ read (bytes (x ∷ ds)) ∷ [])
            (on_read-parsed b c cs p l.has_buffer e set ∙ ap (react (parsed (read_done c) p)) g)
          ∙ handle_all-step c1 c2 (wrote true) (read (bytes (x ∷ ds)) ∷ [])
              (ap (after_write c1) k ∙ ap (read_into (wait_idle c1)) l.has_buffer)
          ∙ handle_all-step c2 d (read (bytes (x ∷ ds))) [] (
              on_read-parsed b c2 (x ∷ ds) last l.has_buffer
                (parse_again c.parser c.request cs p x ds e g n) set),
      refl,
      refl,
      refl,
    )
