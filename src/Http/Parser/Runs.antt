-- ===== src/Http/Parser/Runs.antt =====
-- Runs of the parser over the parts of a request: one lemma for each group of states.
use gin_cpp.Base.{
  ℕ, ◌+◌, ◌<◌, ◌≡◌, refl, ◌∙◌, true, false, some, List, [], ◌∷◌, ◌++◌, arith, All, Text, codes,
}
use gin_cpp.Http.Request.{Header, Request}
use gin_cpp.Http.Parser.{
  good, bad, State, method, uri, http_version_h, header_line_start, header_name,
  space_before_header_value, header_value, expecting_newline_2, isalpha, isdigit, iscntrl, cr, lf,
  space, next, accept, reject, push_name, push_value, step, parse,
}
use mathlib.Core.List.{append-nil, append_assoc}
use gin_cpp.Http.Parser.Clean.{IsNameByte, IsUriByte}

pub parse-next :
    (s s' : State) (req req' : Request) (c : ℕ) (cs : Text)
    → step s req c ≡ next s' req'
    → parse s req (c ∷ cs) ≡ parse s' req' cs
unfolding parse
parse-next s s' req req' c cs e = rw (e, parse) refl

pub parse_accept :
    (s : State) (req : Request) (c : ℕ) (cs : Text)
    → step s req c ≡ accept
    → parse s req (c ∷ cs) ≡ some (record { state = s; request = req; result = good })
unfolding parse
parse_accept s req c cs e = rw (e, parse) refl

pub parse_reject :
    (s : State) (req : Request) (c : ℕ) (cs : Text)
    → step s req c ≡ reject
    → parse s req (c ∷ cs) ≡ some (record { state = s; request = req; result = bad })
unfolding parse
parse_reject s req c cs e = rw (e, parse) refl

pub method_run :
    (req : Request) (m rest : Text)
    → All (λ c. isalpha c ≡ true) m
    → parse method req (m ++ space ∷ rest)
      ≡ parse uri (record req { method = req.method ++ m }) rest
unfolding step
method_run req [] rest h = parse-next method uri req _ space rest (rw (append-nil req.method) refl)
method_run req (c ∷ m) rest h =
    parse-next method method req (record req { method = req.method ++ c ∷ [] }) c _ (ground arith)
    ∙ method_run (record req { method = req.method ++ c ∷ [] }) m rest h.1
    ∙ rw (append_assoc req.method (c ∷ []) m) refl

pub uri_run :
    (req : Request) (u rest : Text)
    → All IsUriByte u
    → parse uri req (u ++ space ∷ rest)
      ≡ parse http_version_h (record req { uri = req.uri ++ u }) rest
unfolding step
uri_run req [] rest h =
    parse-next uri http_version_h req _ space rest (rw (append-nil req.uri) refl)
uri_run req (c ∷ u) rest h =
    parse-next uri uri req (record req { uri = req.uri ++ c ∷ [] }) c _ (ground arith)
    ∙ uri_run (record req { uri = req.uri ++ c ∷ [] }) u rest h.1
    ∙ rw (append_assoc req.uri (c ∷ []) u) refl

-- The bytes of " HTTP/" behind the space.
pub version_run :
    (req : Request) (a b : ℕ) (rest : Text)
    → a < 10
    → b < 10
    → parse http_version_h req (codes "HTTP/" ++ (a + b'0') ∷ b'.' ∷ (b + b'0') ∷ cr ∷ lf ∷ rest)
      ≡ parse header_line_start (record req { http_version_major = a; http_version_minor = b }) rest
unfolding parse step isdigit
version_run req a b rest h k = ground arith

push_name-last :
    (hs : List Header) (h : Header) (c : ℕ)
    → push_name (hs ++ h ∷ []) c ≡ some (hs ++ record h { name = h.name ++ c ∷ [] } ∷ [])
unfolding push_name
push_name-last [] h c = refl
push_name-last (x ∷ []) h c = refl
push_name-last (x ∷ y ∷ hs) h c = rw (push_name-last (y ∷ hs) h c) refl

push_value-last :
    (hs : List Header) (h : Header) (c : ℕ)
    → push_value (hs ++ h ∷ []) c ≡ some (hs ++ record h { value = h.value ++ c ∷ [] } ∷ [])
unfolding push_value
push_value-last [] h c = refl
push_value-last (x ∷ []) h c = refl
push_value-last (x ∷ y ∷ hs) h c = rw (push_value-last (y ∷ hs) h c) refl

-- The request with the given headers.
abbrev pub having : Request → List Header → Request
having req hs = record req { headers = hs }

name_run :
    (req : Request) (hs : List Header) (n m rest : Text)
    → All IsNameByte m
    → parse header_name (having req (hs ++ record { name = n; value = [] } ∷ [])) (m ++ b':' ∷ rest)
      ≡ parse space_before_header_value
          (having req (hs ++ record { name = n ++ m; value = [] } ∷ []))
          rest
unfolding step
name_run req hs n [] rest k = parse-next _ _ _ _ b':' rest (rw (append-nil n) refl)
name_run req hs n (c ∷ m) rest k =
    parse-next header_name header_name _
      (having req (hs ++ record { name = n ++ c ∷ []; value = [] } ∷ [])) c _
      (ground (arith, push_name-last hs (record { name = n; value = [] }) c))
    ∙ name_run req hs (n ++ c ∷ []) m rest k.1
    ∙ rw (append_assoc n (c ∷ []) m) refl

value_run :
    (req : Request) (hs : List Header) (n v w rest : Text)
    → All (λ c. iscntrl c ≡ false) w
    → parse header_value (having req (hs ++ record { name = n; value = v } ∷ [])) (w ++ cr ∷ rest)
      ≡ parse expecting_newline_2 (having req (hs ++ record { name = n; value = v ++ w } ∷ [])) rest
unfolding step
value_run req hs n v [] rest k = parse-next _ _ _ _ cr rest (rw (append-nil v) refl)
value_run req hs n v (c ∷ w) rest k =
    parse-next header_value header_value _
      (having req (hs ++ record { name = n; value = v ++ c ∷ [] } ∷ [])) c _
      (ground (arith, push_value-last hs (record { name = n; value = v }) c))
    ∙ value_run req hs n (v ++ c ∷ []) w rest k.1
    ∙ rw (append_assoc v (c ∷ []) w) refl

-- One header line, from the start of a line to the start of the next.
pub line_run :
    (req : Request) (hs : List Header) (c : ℕ) (n v rest : Text)
    → All IsNameByte (c ∷ n)
    → All (λ d. iscntrl d ≡ false) v
    → parse header_line_start (having req hs) (c ∷ (n ++ b':' ∷ space ∷ (v ++ cr ∷ lf ∷ rest)))
      ≡ parse header_line_start (having req (hs ++ record { name = c ∷ n; value = v } ∷ [])) rest
unfolding step
line_run req hs c n v rest k l =
    parse-next header_line_start header_name _
      (having req (hs ++ record { name = c ∷ []; value = [] } ∷ [])) c _
      (ground (arith, push_name-last hs (record { name = []; value = [] }) c))
    ∙ name_run req hs (c ∷ []) n _ k.1
    ∙ parse-next space_before_header_value header_value _ _ space _ refl
    ∙ value_run req hs (c ∷ n) [] v _ l
    ∙ parse-next expecting_newline_2 header_line_start _ _ lf rest refl
