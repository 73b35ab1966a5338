-- ===== src/Http/Parser/Reuse.antt =====
-- mycppwebfw/src/http/parser.cpp: a parser that has accepted a request and is used again.
use gin_cpp.Base.{ℕ, ◌≡◌, refl, ◌≢◌, some, [], ◌∷◌, arith, Text}
use gin_cpp.Http.Request.{Request}
use gin_cpp.Http.Parser.{
  good, bad, State, expecting_newline_3, lf, Step, next, accept, reject, fault, step, Parsed, parse,
}

step-accept : (s : State) (req : Request) (c : ℕ) → step s req c ≡ accept → s ≡ expecting_newline_3
unfolding step
step-accept expecting_newline_3 req c e = refl
step-accept _ req c e = ground arith

pub parse-good :
    (s : State) (req : Request) (cs : Text) (p : Parsed)
    → parse s req cs ≡ some p
    → p.result ≡ good
    → p.state ≡ expecting_newline_3
unfolding parse
parse-good s req [] p e g = ground arith
parse-good s req (c ∷ cs) p e g = go (step s req c) refl λ s' req'. parse-good s' req' cs p
  where
    go :
        (o : Step)
        → step s req c ≡ o
        → ((s' : State) (req' : Request)
            → parse s' req' cs ≡ some p
            → p.result ≡ good
            → p.state ≡ expecting_newline_3)
        → p.state ≡ expecting_newline_3
    go (next s' req') q ih = ih s' req' (rw (q, parse) at e) g
    go accept q ih = ground (arith, step-accept s req c)
    go reject q ih = ground arith
    go fault q ih = ground arith

-- Once a call of `parse` has returned GOOD, a further call on any input that does not begin with a
-- line feed returns BAD at its first byte, and leaves the state and the first request as they were.
pub parse_again :
    (s : State) (req : Request) (cs : Text) (p : Parsed) (c : ℕ) (ds : Text)
    → parse s req cs ≡ some p
    → p.result ≡ good
    → c ≢ lf
    → parse p.state p.request (c ∷ ds) ≡ some (record p { result = bad })
unfolding parse step
parse_again s req cs p c ds e g n = ground (arith, parse-good s req cs p e g)
