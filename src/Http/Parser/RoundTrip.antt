-- ===== src/Http/Parser/RoundTrip.antt =====
-- Requests as they stand on the wire, and what the parser makes of them.
use gin_cpp.Base.{
  ◌+◌, ◌<◌, ◌≡◌, refl, ◌∙◌, ◌≢◌, true, some, List, [], ◌∷◌, ◌++◌, arith, All, Text, codes,
}
use gin_cpp.Http.Request.{Header, Request}
use gin_cpp.Http.Parser.{
  good, method_start, method, uri, header_line_start, expecting_newline_3, isalpha, cr, lf, space,
  step, parse, start, blank,
}
use mathlib.Core.List.{append-nil, append_assoc}
use gin_cpp.Http.Parser.Clean.{IsUriByte, IsCleanHeader}
use gin_cpp.Http.Parser.Runs.{
  parse-next, parse_accept, method_run, uri_run, version_run, having, line_run,
}

-- RFC 7230's request head, written out from the request; it does not use the parser.
unfoldable pub print_headers : List Header → Text → Text
print_headers [] rest = rest
print_headers (h ∷ hs) rest = h.name ++ b':' ∷ space ∷ (h.value ++ cr ∷ lf ∷ print_headers hs rest)

unfoldable pub print : Request → Text → Text
unfolding print_headers
print req rest =
    req.method
    ++ space
      ∷ (req.uri
          ++ space
            ∷ (codes "HTTP/"
                ++ (req.http_version_major + b'0')
                  ∷ b'.'
                  ∷ (req.http_version_minor + b'0')
                  ∷ cr
                  ∷ lf
                  ∷ print_headers req.headers (cr ∷ lf ∷ rest)))

abbrev pub IsWireHeader : Header → Type 0
IsWireHeader h = (h.name ≢ []) × IsCleanHeader h

-- A request that has a head of one line for each header: letters in the method, no control byte and
-- no space in the target, one digit for each part of the version.
pub record IsWire (req : Request) : Type 0 where
  pub named : req.method ≢ []
  pub letters : All (λ c. isalpha c ≡ true) req.method
  pub target : All IsUriByte req.uri
  pub major : req.http_version_major < 10
  pub minor : req.http_version_minor < 10
  pub fields : All IsWireHeader req.headers
  pub no_body : req.body ≡ []

headers_run :
    (req : Request) (hs : List Header) (new : List Header) (rest : Text)
    → All IsWireHeader new
    → parse header_line_start (having req hs) (print_headers new rest)
      ≡ parse header_line_start (having req (hs ++ new)) rest
unfolding print_headers
headers_run req hs [] rest h = rw (append-nil hs) refl
headers_run req hs (x ∷ new) rest h =
    one_line x.name refl
    ∙ headers_run req (hs ++ x ∷ []) new rest h.1
    ∙ rw (append_assoc hs (x ∷ []) new) refl
  where
    one_line :
        (n : Text)
        → x.name ≡ n
        → parse header_line_start (having req hs) (print_headers (x ∷ new) rest)
          ≡ parse header_line_start (having req (hs ++ x ∷ [])) (print_headers new rest)
    one_line [] e = absurd (h.0.0 e)
    one_line (c ∷ n) e = rw e (line_run req hs c n x.value _ (rw e at (h.0.1.0)) h.0.1.1)

method_start_run :
    (req : Request) (m rest : Text)
    → m ≢ []
    → All (λ c. isalpha c ≡ true) m
    → req.method ≡ []
    → parse method_start req (m ++ space ∷ rest) ≡ parse uri (record req { method = m }) rest
unfolding step
method_start_run req [] rest h k e = absurd (h refl)
method_start_run req (c ∷ m) rest h k e =
    parse-next method_start method req (record req { method = c ∷ [] }) c _ (ground arith)
    ∙ method_run (record req { method = c ∷ [] }) m rest k.1

-- A new parser accepts the head of every such request, and leaves exactly that request, whatever
-- bytes follow the head in the same read; it stops in its last state and drops those bytes.
pub parse-print :
    (req : Request) (rest : Text)
    → IsWire req
    → parse start blank (print req rest)
      ≡ some (record { state = expecting_newline_3; request = req; result = good })
unfolding print step
parse-print req rest w =
    method_start_run blank req.method _ w.named w.letters refl
    ∙ uri_run (record blank { method = req.method }) req.uri _ w.target
    ∙ version_run (record blank { method = req.method; uri = req.uri }) _ _ _ w.major w.minor
    ∙ headers_run head [] req.headers (cr ∷ lf ∷ rest) w.fields
    ∙ parse-next header_line_start expecting_newline_3 _ _ cr (lf ∷ rest) refl
    ∙ parse_accept expecting_newline_3 _ lf rest refl
    ∙ ground arith
  where
    head : Request
    head = record req { headers = []; body = [] }
