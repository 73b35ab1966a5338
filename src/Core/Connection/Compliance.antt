-- ===== src/Core/Connection/Compliance.antt =====
-- mycppwebfw/src/core/connection.tpp: which requests are answered with 200.
use gin_cpp.Base.{
  ℕ, ◌≡◌, refl, sym, ap, ◌∙◌, ◌≢◌, ◌↔◌, ◌⊎◌, inl, inr, Bool, true, false, some, none, Option-cases,
  List, [], ◌∷◌, arith, if◌then◌else◌, Bool-cases, is_empty, Has, Text, codes, same, same→eq,
  same_iff,
}
use gin_cpp.Http.Request.{Header, Request}
use gin_cpp.Http.Response.{ok, bad_request, to_buffers, stock_response}
use gin_cpp.Http.Parser.{State, good, Parsed, parse}
use gin_cpp.Http.Parser.Reuse.{parse-good}
use gin_cpp.Core.BufferPool.{BufferPool}
use gin_cpp.Core.Connection.{
  reads_unset, has_major, has_minor, writing, Connection, do_write, header_named, is_some_header,
  keep_alive_of, is_compliant, react, parsed, bytes, read_done, take_bytes, on_read,
}
use gin_cpp.Core.Connection.Phases.{IsLive}

-- HTTP/1.0 or HTTP/1.1, a method and a target, and for HTTP/1.1 a header of the name Host.
pub record IsCompliant (req : Request) : Type 0 where
  pub major : req.http_version_major ≡ 1
  pub minor : (req.http_version_minor ≡ 0) ⊎ (req.http_version_minor ≡ 1)
  pub has_method : req.method ≢ []
  pub has_uri : req.uri ≢ []
  pub has_host :
      req.http_version_minor ≡ 1 → (h : Header) × Has h req.headers × (h.name ≡ codes "Host")

header_named-some :
    (hs : List Header) (name : Text)
    → is_some_header (header_named hs name) ≡ true
    → (h : Header) × Has h hs × (h.name ≡ name)
unfolding header_named
header_named-some [] name e = absurd (ground arith)
header_named-some (h ∷ hs) name e = elim (Bool-cases (same h.name name)) [
  | inl s ↦ (h, inl refl, same→eq h.name name s)
  | inr s ↦
      let (k, m, n) = header_named-some hs name (
        sym (ap (λ (b : Bool). is_some_header (if b then some h else header_named hs name)) s)
        ∙ e) in
      (k, inr m, n)
]

header_named-Has :
    (hs : List Header) (name : Text) (h : Header)
    → Has h hs
    → h.name ≡ name
    → is_some_header (header_named hs name) ≡ true
unfolding header_named
header_named-Has [] name h m e = absurd m
header_named-Has (k ∷ hs) name h m e = elim (Bool-cases (same k.name name)) [
  | inl s ↦ ap (λ (b : Bool). is_some_header (if b then some k else header_named hs name)) s
  | inr s ↦
      ap (λ (b : Bool). is_some_header (if b then some k else header_named hs name)) s ∙ elim m [
        | inl q ↦ absurd (ground (arith, same_iff k.name name, q, e))
        | inr m' ↦ header_named-Has hs name h m' e
      ]
]

not_empty : (t : Text) → (is_empty t ≡ false) ↔ (t ≢ [])
not_empty [] = (λ e. absurd (ground arith), λ n. absurd (n refl))
not_empty (x ∷ t) = (λ e q. absurd (ground arith), λ n. refl)

is_compliant_sound : (req : Request) → is_compliant req ≡ true → IsCompliant req
unfolding is_compliant
is_compliant_sound req e = record {
  major = ground arith;
  minor = ground arith;
  has_method = (not_empty req.method).0 (ground arith);
  has_uri = (not_empty req.uri).0 (ground arith);
  has_host = λ m. header_named-some req.headers (codes "Host") (ground arith);
}

is_compliant_complete : (req : Request) → IsCompliant req → is_compliant req ≡ true
unfolding is_compliant
is_compliant_complete req c = ground (
  arith,
  c.major,
  c.minor,
  (not_empty req.method).1 c.has_method,
  (not_empty req.uri).1 c.has_uri,
  host,
)
  where
    host :
        req.http_version_minor ≡ 1 → is_some_header (header_named req.headers (codes "Host")) ≡ true
    host m = let (h, q, n) = c.has_host m in header_named-Has req.headers (codes "Host") h q n

-- Where the parser has accepted a request, its version numbers have been written.
pub reads_unset-good :
    (s : State) (req : Request) (cs : Text) (p : Parsed)
    → parse s req cs ≡ some p
    → p.result ≡ good
    → reads_unset p ≡ false
unfolding reads_unset has_major has_minor
reads_unset-good s req cs p e g = ground (
  arith,
  parse-good s req cs p e g,
  Option-cases (header_named p.request.headers (codes "Connection")),
)

-- The handler on a read that the parser can take and that does not end too early.
pub on_read-parsed :
    (b : ℕ) (c : Connection) (cs : Text) (p : Parsed)
    → c.buffer ≡ some b
    → parse c.parser c.request cs ≡ some p
    → reads_unset p ≡ false
    → on_read c (bytes cs) ≡ react (parsed (read_done c) p) p.result
unfolding on_read
on_read-parsed b c cs p l e u =
    ap (take_bytes c c.buffer) e
    ∙ ap (λ o. take_bytes c o (some p)) l
    ∙ ap (λ v. if v then none else react (parsed (read_done c) p) p.result) u

-- A serving connection that reads the end of a request with no parse error answers it at once: with
-- 200 and no content if the request is compliant, and with 400 if it is not.
pub on_read-answer :
    (pool : BufferPool) (b : ℕ) (c : Connection) (cs : Text) (p : Parsed)
    → IsLive pool b c
    → parse c.parser c.request cs ≡ some p
    → p.result ≡ good
    → (d : Connection) × (on_read c (bytes cs) ≡ some d)
      × (d.state ≡ writing)
      × (d.keep_alive ≡ keep_alive_of p.request)
      × ((IsCompliant p.request × (d.sending ≡ some (to_buffers (stock_response ok))))
          ⊎ ((IsCompliant p.request → ⊥)
              × (d.sending ≡ some (to_buffers (stock_response bad_request)))))
unfolding on_read react do_write
on_read-answer pool b c cs p l e g =
    let answer = do_write (record (parsed (read_done c) p) {
      response = stock_response (if is_compliant p.request then ok else bad_request);
    }) in
    (
      answer,
      on_read-parsed b c cs p l.has_buffer e (reads_unset-good c.parser c.request cs p e g)
          ∙ ap (react (parsed (read_done c) p)) g,
      refl,
      refl,
      elim (Bool-cases (is_compliant p.request)) [
        | inl t ↦ inl (
          is_compliant_sound p.request t,
          ap (λ (v : Bool). some (to_buffers (stock_response (if v then ok else bad_request)))) t,
        )
        | inr t ↦ inr (
          λ h. absurd (ground (arith, is_compliant_complete p.request h, t)),
          ap (λ (v : Bool). some (to_buffers (stock_response (if v then ok else bad_request)))) t,
        )
      ],
    )
