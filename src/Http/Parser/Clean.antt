-- ===== src/Http/Parser/Clean.antt =====
-- mycppwebfw/src/http/parser.cpp: what the bytes of a parsed request can be.
use gin_cpp.Base.{
  ℕ, ◌≡◌, refl, ◌≢◌, true, false, Option, none, some, List, [], ◌∷◌, ◌++◌, arith, All, All-append,
  Text,
}
use gin_cpp.Http.Request.{Header, Request}
use gin_cpp.Http.Parser.{
  State, method_start, method, uri, header_line_start, header_lws, header_name, header_value,
  isalpha, iscntrl, space, Step, next, accept, reject, fault, push_name, push_value, with_headers,
  step, Parsed, parse,
}

abbrev pub IsNameByte : ℕ → Type 0
IsNameByte c = (iscntrl c ≡ false) × (c ≢ b':') × (c ≢ space)

abbrev pub IsUriByte : ℕ → Type 0
IsUriByte c = (iscntrl c ≡ false) × (c ≢ space)

abbrev pub IsCleanHeader : Header → Type 0
IsCleanHeader h = All IsNameByte h.name × All (λ c. iscntrl c ≡ false) h.value

-- The method is letters; no field holds a control byte, so none holds the end of a line.
pub record IsClean (req : Request) : Type 0 where
  pub letters : All (λ c. isalpha c ≡ true) req.method
  pub target : All IsUriByte req.uri
  pub fields : All IsCleanHeader req.headers

abbrev StepIsClean : Step → Type 0
StepIsClean (next s req) = IsClean req
StepIsClean accept = Unit
StepIsClean reject = Unit
StepIsClean fault = Unit

abbrev PushIsClean : Option (List Header) → Type 0
PushIsClean none = Unit
PushIsClean (some hs) = All IsCleanHeader hs

push_name-IsClean :
    (hs : List Header) (c : ℕ) → All IsCleanHeader hs → IsNameByte c → PushIsClean (push_name hs c)
unfolding push_name
push_name-IsClean [] c h k = tt
push_name-IsClean (x ∷ []) c h k =
    ((All-append IsNameByte x.name (c ∷ []) h.0.0 (k, tt), h.0.1), tt)
push_name-IsClean (x ∷ y ∷ hs) c h k = ground (arith, push_name-IsClean (y ∷ hs) c h.1 k)

push_value-IsClean :
    (hs : List Header) (c : ℕ)
    → All IsCleanHeader hs
    → iscntrl c ≡ false
    → PushIsClean (push_value hs c)
unfolding push_value
push_value-IsClean [] c h k = tt
push_value-IsClean (x ∷ []) c h k =
    ((h.0.0, All-append (λ d. iscntrl d ≡ false) x.value (c ∷ []) h.0.1 (k, tt)), tt)
push_value-IsClean (x ∷ y ∷ hs) c h k = ground (arith, push_value-IsClean (y ∷ hs) c h.1 k)

module _ (s : State) (req : Request) (c : ℕ) (h : IsClean req) where
  method_IsClean : isalpha c ≡ true → IsClean (record req { method = req.method ++ c ∷ [] })
  method_IsClean k = record {
    letters = All-append (λ d. isalpha d ≡ true) req.method (c ∷ []) h.letters (k, tt);
    target = h.target;
    fields = h.fields;
  }

  uri_IsClean : IsUriByte c → IsClean (record req { uri = req.uri ++ c ∷ [] })
  uri_IsClean k = record {
    letters = h.letters;
    target = All-append IsUriByte req.uri (c ∷ []) h.target (k, tt);
    fields = h.fields;
  }

  headers_IsClean : (o : Option (List Header)) → PushIsClean o → StepIsClean (with_headers s req o)
  headers_IsClean none k = tt
  headers_IsClean (some hs) k = record { letters = h.letters; target = h.target; fields = k }

step-IsClean : (s : State) (req : Request) (c : ℕ) → IsClean req → StepIsClean (step s req c)
unfolding step
step-IsClean method_start req c h = ground (arith, method_IsClean method_start req c h)
step-IsClean method req c h = ground (arith, method_IsClean method req c h)
step-IsClean uri req c h = ground (arith, uri_IsClean uri req c h)
step-IsClean header_line_start req c h =
    let fresh : Header = record { name = []; value = [] } in
    let grown : All IsCleanHeader (req.headers ++ fresh ∷ []) =
      All-append IsCleanHeader req.headers (fresh ∷ []) h.fields ((tt, tt), tt) in
    ground (
      arith,
      push_name-IsClean (req.headers ++ fresh ∷ []) c grown,
      headers_IsClean header_name req c h (push_name (req.headers ++ fresh ∷ []) c),
    )
step-IsClean header_lws req c h = ground (
  arith,
  push_value-IsClean req.headers c h.fields,
  headers_IsClean header_value req c h (push_value req.headers c),
)
step-IsClean header_name req c h = ground (
  arith,
  push_name-IsClean req.headers c h.fields,
  headers_IsClean header_name req c h (push_name req.headers c),
)
step-IsClean header_value req c h = ground (
  arith,
  push_value-IsClean req.headers c h.fields,
  headers_IsClean header_value req c h (push_value req.headers c),
)
step-IsClean _ req c h = ground arith

-- Whatever the input, a request that was clean before a call of `parse` is clean after it: letters
-- only in the method, no control byte and no space in the target, none of these and no colon in
-- a header's name, no control byte in a header's value.
pub parse-IsClean :
    (s : State) (req : Request) (cs : Text) (p : Parsed)
    → IsClean req
    → parse s req cs ≡ some p
    → IsClean p.request
unfolding parse
parse-IsClean s req [] p h e = ground arith
parse-IsClean s req (c ∷ cs) p h e =
    go (step s req c) refl (step-IsClean s req c h) λ s' req'. parse-IsClean s' req' cs p
  where
    go :
        (o : Step)
        → step s req c ≡ o
        → StepIsClean o
        → ((s' : State) (req' : Request)
            → IsClean req'
            → parse s' req' cs ≡ some p
            → IsClean p.request)
        → IsClean p.request
    go (next s' req') q k ih = ih s' req' k (rw (q, parse) at e)
    go accept q k ih = ground arith
    go reject q k ih = ground arith
    go fault q k ih = ground arith
