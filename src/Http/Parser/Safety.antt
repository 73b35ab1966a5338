-- ===== src/Http/Parser/Safety.antt =====
-- mycppwebfw/src/http/parser.cpp: the undefined behaviour of the parser.
use gin_cpp.Base.{
  ℕ, ◌≡◌, refl, ◌⊎◌, inl, inr, ◌^◌, ◌||◌, ◌&&◌, leb, Bool, true, false, none, some, List, [], ◌∷◌,
  ◌++◌, arith, is_empty, Text,
}
use gin_cpp.Http.Request.{Header, Request}
use gin_cpp.Http.Parser.{
  good, bad, indeterminate, State, header_line_start, header_lws, header_name,
  space_before_header_value, header_value, http_version_major, http_version_minor, isdigit,
  push_digit, Step, next, accept, reject, fault, push_name, push_value, with_headers, step, Parsed,
  parse,
}

-- The states in which the code uses the last header.
abbrev pub uses_back : State → Bool
uses_back header_lws = true
uses_back header_name = true
uses_back space_before_header_value = true
uses_back header_value = true
uses_back _ = false

-- In such a state there is a header.
abbrev pub IsReady : State → Request → Type 0
IsReady s req = uses_back s ≡ true → is_empty req.headers ≡ false

-- A digit of a version number with which the number leaves the range of an int.
unfoldable pub at_overflow : State → Request → ℕ → Bool
at_overflow http_version_major req c =
    isdigit c && leb (2 ^ 31) (push_digit req.http_version_major c)
at_overflow http_version_minor req c =
    isdigit c && leb (2 ^ 31) (push_digit req.http_version_minor c)
at_overflow _ req c = false

-- The bytes that the parser reads of the input have such a digit.
unfoldable pub overflows : State → Request → Text → Bool
unfolding at_overflow step
overflows s req [] = false
overflows s req (c ∷ cs) =
    let rest : Bool = elim (step s req c) [
      | next s' req' ↦ overflows s' req' cs
      | accept ↦ false
      | reject ↦ false
      | fault ↦ false
    ] in
    at_overflow s req c || rest

abbrev StepIsReady : Bool → Step → Type 0
StepIsReady over (next s req) = (over ≡ false) × IsReady s req
StepIsReady over accept = over ≡ false
StepIsReady over reject = over ≡ false
StepIsReady over fault = over ≡ true

push_name-total :
    (hs : List Header) (c : ℕ)
    → is_empty hs ≡ false
    → (r : List Header) × (push_name hs c ≡ some r) × (is_empty r ≡ false)
unfolding push_name
push_name-total [] c h = cc
push_name-total (x ∷ []) c h = (record x { name = x.name ++ c ∷ [] } ∷ [], refl, refl)
push_name-total (x ∷ y ∷ hs) c h =
    let (r, e, n) = push_name-total (y ∷ hs) c refl in (x ∷ r, rw e refl, refl)

push_value-total :
    (hs : List Header) (c : ℕ)
    → is_empty hs ≡ false
    → (r : List Header) × (push_value hs c ≡ some r) × (is_empty r ≡ false)
unfolding push_value
push_value-total [] c h = cc
push_value-total (x ∷ []) c h = (record x { value = x.value ++ c ∷ [] } ∷ [], refl, refl)
push_value-total (x ∷ y ∷ hs) c h =
    let (r, e, n) = push_value-total (y ∷ hs) c refl in (x ∷ r, rw e refl, refl)

is_empty-append : (hs : List Header) (h : Header) → is_empty (hs ++ h ∷ []) ≡ false
is_empty-append [] h = refl
is_empty-append (x ∷ hs) h = refl

module _ (s : State) (req : Request) (c : ℕ) (hs : List Header) (ready : is_empty hs ≡ false) where
  name_StepIsReady : StepIsReady false (with_headers s req (push_name hs c))
  name_StepIsReady = let (r, e, n) = push_name-total hs c ready in rw e (refl, λ _. n)

  value_StepIsReady : StepIsReady false (with_headers s req (push_value hs c))
  value_StepIsReady = let (r, e, n) = push_value-total hs c ready in rw e (refl, λ _. n)

step-IsReady :
    (s : State) (req : Request) (c : ℕ)
    → IsReady s req
    → StepIsReady (at_overflow s req c) (step s req c)
unfolding step at_overflow
step-IsReady header_line_start req c h = ground (
  arith,
  name_StepIsReady header_name req c (req.headers ++ record { name = []; value = [] } ∷ [])
      (is_empty-append req.headers _),
)
step-IsReady header_lws req c h =
    ground (arith, value_StepIsReady header_value req c req.headers (h refl))
step-IsReady header_name req c h =
    ground (arith, name_StepIsReady header_name req c req.headers (h refl))
step-IsReady header_value req c h =
    ground (arith, value_StepIsReady header_value req c req.headers (h refl))
step-IsReady _ req c h = ground arith

-- What a call of `parse` gives.
abbrev pub Parses : State → Request → Text → Type 0
Parses s req cs =
    ((overflows s req cs ≡ false)
      × ((p : Parsed) × (parse s req cs ≡ some p) × IsReady p.state p.request))
    ⊎ ((overflows s req cs ≡ true) × (parse s req cs ≡ none))

-- Where char is unsigned, and from a state that is ready for the request, the only undefined behaviour of
-- `parse` is the overflow of a version number: if no digit that it reads takes one out of the range of an
-- int, it gives a result, and leaves a state that is ready for the request it leaves; otherwise its
-- behaviour is undefined.
pub parse-total : (s : State) (req : Request) (cs : Text) → IsReady s req → Parses s req cs
unfolding parse overflows
parse-total s req [] h =
    inl (refl, (record { state = s; request = req; result = indeterminate }, refl, h))
parse-total s req (c ∷ cs) h =
    go (step s req c) refl (step-IsReady s req c h) λ s' req'. parse-total s' req' cs
  where
    go :
        (o : Step)
        → step s req c ≡ o
        → StepIsReady (at_overflow s req c) o
        → ((s' : State) (req' : Request) → IsReady s' req' → Parses s' req' cs)
        → Parses s req (c ∷ cs)
    go (next s' req') e (n, r) ih = rw (e, n, parse, overflows) (ih s' req' r)
    go accept e n ih =
        rw (e, n, parse, overflows)
          (inl (refl, (record { state = s; request = req; result = good }, refl, h)))
    go reject e n ih =
        rw (e, n, parse, overflows)
          (inl (refl, (record { state = s; request = req; result = bad }, refl, h)))
    go fault e n ih = rw (e, n, parse, overflows) (inr (refl, refl))
